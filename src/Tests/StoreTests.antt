-- ===== src/Tests/StoreTests.antt =====
-- Zones that are synchronised and restored, over the small database.
use namedor.Common.{
  ◌+◌, zero, suc, ltb, ◌<◌, ◌≢◌, length, Option, none, some, ℕ, ◌≡◌, refl, Bool, true, false, not,
  List, [], ◌∷◌, ◌++◌, filter, any, ◌==◌, arith, Bool-cases, inl, inr, ap, if◌then◌else◌, sym,
}
use namedor.Text.{Text, codes, text_eq}
use namedor.Text.Laws.{text_eq_iff}
use namedor.Model.{Zone, RrSet, Template}
use namedor.Gorm.{Gorm, ok, err, Result, each, not_found, failed}
use namedor.Gorm.Store.{IsStore}
use namedor.Rest.Sync.{zone_for, purge_zone, sync_sets, synced_set, sync_zone}
use namedor.Gorm.Zones.{KeepsZones}
use namedor.Backup.{delete_sets, restored_set, restore_zone}
use namedor.Tests.Memory.{Tables, memory, add_set, has_key, www_set, tables, example_zone}

abbrev pub reversed : List RrSet → List RrSet
reversed [] = []
reversed (s ∷ sets) = reversed sets ++ s ∷ []

-- The small database puts a new row in front.
abbrev pub sets_of : ℕ → Tables → List RrSet
sets_of id t = reversed (filter (λ s. s.zone_id == id) t.sets)

pub sets_of-add_set :
    (b : Bool) (zone_id : ℕ) (set stored : RrSet) (t : Tables)
    → set.zone_id ≡ zone_id
    → (add_set b set t).0 ≡ ok stored
    → sets_of zone_id (add_set b set t).1 ≡ sets_of zone_id t ++ set ∷ []
sets_of-add_set true zone_id set stored t own h = cc
sets_of-add_set false zone_id set stored t own h =
    let same : (set.zone_id == zone_id) ≡ true = ground arith in rw (same) refl

pub filter_none :
    (id : ℕ) (sets : List RrSet)
    → filter (λ s. s.zone_id == id) (filter (λ s. not (s.zone_id == id)) sets) ≡ []
filter_none id [] = refl
filter_none id (s ∷ sets) = elim (Bool-cases (s.zone_id == id)) [
  | inl e ↦ rw (e) (filter_none id sets)
  | inr e ↦ rw (e, e) (filter_none id sets)
]

memory-IsStore : IsStore memory
memory-IsStore = record {
  sets = sets_of;
  create_rrset = λ zone_id set stored t own h.
      sets_of-add_set (any (has_key set.zone_id set.name set.type) t.sets) zone_id set stored t own
        h;
  purge_rrsets = λ id t h. ap reversed (filter_none id t.sets);
  delete_rrsets = λ id t h. ap reversed (filter_none id t.sets);
}

-- The master has another set in the zone.
abbrev pub master_zone : Zone
master_zone = record example_zone {
  rrsets = record www_set { name = codes "mail.example.com." } ∷ [];
}

-- The same database, where the number of a zone is its place.
abbrev pub named : Text → List Zone → Result Zone
named name [] = err not_found
named name (z ∷ zones) =
    let rest = named name zones in
    if text_eq z.name name then ok (record z { id = length zones }) else rest

abbrev pub name_at : ℕ → List Zone → Option Text
name_at j [] = none
name_at j (z ∷ zones) =
    let rest = name_at j zones in if length zones == j then some z.name else rest

abbrev pub template_named : Text → (ℕ → Text × Text) → ℕ → Result Template
template_named name at zero = err not_found
template_named name at (suc n) =
    let rest = template_named name at n in
    if text_eq (at n).0 name
    then ok
        (record { id = n; name = (at n).0; description = (at n).1; deleted = false; records = [] })
    else rest

abbrev pub written : {A : Type 0} → (ℕ → A) → ℕ → A → ℕ → A
written f n a j = if j == n then a else f j

abbrev pub saved_template : Bool → Template → Tables → Result Template × Tables
saved_template true x t =
    (ok x, record t { template_at = written t.template_at x.id (x.name, x.description) })
saved_template false x t = (err failed, t)

abbrev pub numbered : Gorm
numbered = record memory {
  first_zone_named = λ name t. named name t.zones;
  create_zone = λ z t. (ok (record z { id = length t.zones }), record t { zones = z ∷ t.zones });
  first_template_named = λ name t. template_named name t.template_at t.template_count;
  create_template = λ x t. (
    ok (record x { id = t.template_count }),
    record t {
      template_count = t.template_count + 1;
      template_at = written t.template_at t.template_count (x.name, x.description);
    },
  );
  save_template = λ x t. saved_template (ltb x.id t.template_count) x t;
  create_template_record = λ r t. (
    ok r,
    record t {
      template_records =
          written t.template_records r.template_id (t.template_records r.template_id ++ r ∷ []);
    },
  );
  purge_template_records =
      λ id t. (ok tt, record t { template_records = written t.template_records id [] });
}

pub name_at_lt :
    (j : ℕ) (n : Text) (zones : List Zone) → name_at j zones ≡ some n → j < length zones
name_at_lt j n [] h = cc
name_at_lt j n (z ∷ zones) h = ground (arith, name_at_lt j n zones)

pub name_at-named :
    (name : Text) (z : Zone) (zones : List Zone)
    → named name zones ≡ ok z
    → name_at z.id zones ≡ some name
name_at-named name z [] h = cc
name_at-named name z (y ∷ zones) h = elim (Bool-cases (text_eq y.name name)) [
  | inl e ↦
      let same : record y { id = length zones } ≡ z = cc (rw (e) at h) in
      rw (sym same) (ground (arith, text_eq_iff y.name name))
  | inr e ↦
      let rest = name_at-named name z zones (rw (e) at h) in
      let low = name_at_lt z.id name zones rest in
      let apart : (length zones == z.id) ≡ false = ground arith in rw (apart) rest
]

pub name_at-created :
    (zone z : Zone) (zones : List Zone)
    → ok (record zone { id = length zones }) ≡ ok z
    → name_at z.id (zone ∷ zones) ≡ some zone.name
name_at-created zone z zones h =
    let same : record zone { id = length zones } ≡ z = cc in rw (sym same) (ground arith)

abbrev pub numbered_store : IsStore numbered
numbered_store = record {
  sets = sets_of;
  create_rrset = λ zone_id set stored t own h.
      sets_of-add_set (any (has_key set.zone_id set.name set.type) t.sets) zone_id set stored t own
        h;
  purge_rrsets = λ id t h. ap reversed (filter_none id t.sets);
  delete_rrsets = λ id t h. ap reversed (filter_none id t.sets);
}

pub filter_others :
    (id j : ℕ) (sets : List RrSet)
    → j ≢ id
    → filter (λ s. s.zone_id == j) (filter (λ s. not (s.zone_id == id)) sets)
      ≡ filter (λ s. s.zone_id == j) sets
filter_others id j [] other = refl
filter_others id j (s ∷ sets) other = elim (Bool-cases (s.zone_id == id)) [
  | inl e ↦
      let apart : (s.zone_id == j) ≡ false = ground arith in
      rw (e, apart) (filter_others id j sets other)
  | inr e ↦ elim (Bool-cases (s.zone_id == j)) [
    | inl f ↦ rw (e, f) (ap (λ xs. s ∷ xs) (filter_others id j sets other))
    | inr f ↦ rw (e, f) (filter_others id j sets other)
  ]
]

pub zones-add_set : (b : Bool) (set : RrSet) (t : Tables) → (add_set b set t).1.zones ≡ t.zones
zones-add_set true set t = refl
zones-add_set false set t = refl

pub others-add_set :
    (b : Bool) (set : RrSet) (j : ℕ) (t : Tables)
    → j ≢ set.zone_id
    → sets_of j (add_set b set t).1 ≡ sets_of j t
others-add_set true set j t other = refl
others-add_set false set j t other =
    let apart : (set.zone_id == j) ≡ false = ground arith in rw (apart) refl

pub name_at-kept :
    (zone : Zone) (j : ℕ) (name : Text) (zones : List Zone)
    → name_at j zones ≡ some name
    → name_at j (zone ∷ zones) ≡ some name
name_at-kept zone j name zones h =
    let low = name_at_lt j name zones h in
    let apart : (length zones == j) ≡ false = ground arith in rw (apart) h

abbrev pub numbered_zones : KeepsZones numbered numbered_store
numbered_zones = record {
  name_of = λ j t. name_at j t.zones;
  first_zone_named = λ name z t h. name_at-named name z t.zones h;
  create_zone = λ zone z t h. name_at-created zone z t.zones h;
  name-create_zone = λ zone j name t h. name_at-kept zone j name t.zones h;
  sets-create_zone = λ zone j t. refl;
  name-purge_records_of = λ ids j t. refl;
  sets-purge_records_of = λ ids zone_id j t h other. refl;
  name-purge_rrsets = λ zone_id j t. refl;
  sets-purge_rrsets = λ zone_id j t other. ap reversed (filter_others zone_id j t.sets other);
  name-create_rrset = λ set j t.
      ap (name_at j) (zones-add_set (any (has_key set.zone_id set.name set.type) t.sets) set t);
  sets-create_rrset = λ set j t other.
      others-add_set (any (has_key set.zone_id set.name set.type) t.sets) set j t other;
}

abbrev pub new_zone : Zone
new_zone = record { id = 9; name = codes "second.example"; rrsets = www_set ∷ []; deleted = false }

-- The zone that is there gets another set, and a new zone comes with its set.
pub synced : (each (sync_zone numbered) (master_zone ∷ new_zone ∷ []) tables).0 ≡ ok tt
unfolding each sync_zone zone_for purge_zone sync_sets synced_set text_eq
synced = refl

pub names_differ : new_zone.name ≢ master_zone.name
unfolding text_eq
names_differ e = let same : false ≡ true = (text_eq_iff new_zone.name master_zone.name).1 e in cc

restored : (restore_zone memory (codes "merge") master_zone tables).0 ≡ ok tt
unfolding restore_zone zone_for delete_sets restored_set each text_eq
restored = refl

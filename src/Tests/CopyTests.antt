-- ===== src/Tests/CopyTests.antt =====
-- A slave's synchronisation over the small database, with zones and templates.
use namedor.Common.{
  ℕ, suc, zero, pos, ◌+◌, ◌<◌, ◌≡◌, ◌≢◌, refl, Bool, true, false, Option, none, some, [], ◌∷◌, ◌++◌,
  ltb, ◌==◌, arith, Bool-cases, inl, inr, if◌then◌else◌, sym, ap, any,
}
use namedor.Text.{Text, codes, text_eq, trim_prefix, has_prefix}
use namedor.Text.Laws.{text_eq_iff}
use namedor.Model.{Template, TemplateRecord}
use namedor.Gorm.{ok, each}
use namedor.Gorm.Atomic.{IsAtomic}
use namedor.Gorm.Templates.{KeepsTemplates}
use namedor.Rest.Sync.{
  SyncData, import_data, sync_zone, zone_for, purge_zone, sync_sets, synced_set, sync_template,
  template_for, synced_record,
}
use namedor.Rest.Sync.Full.{HasNames}
use mathlib.Core.Path.{subst}
use namedor.Rest.Handlers.{World, change, sync_import}
use namedor.Rest.Access.{guarded, passes_acl, authenticated, bearer}
use namedor.Replication.{
  SyncConfig, done, sync_once, fetch_from_master, fetched, sync_fetched, apply_data, applied,
  auth_header,
}
use namedor.Replication.Laws.{Delivery, answered, deliver}
use namedor.Replication.Copy.{IsRound, sync_once-IsRound, fetch, round}
use namedor.Tests.Memory.{Tables, tables, add_set_failed, has_key, commit_rolled_back, commit_ok}
use namedor.Tests.StoreTests.{
  numbered, numbered_store, numbered_zones, template_named, saved_template, written, master_zone,
  new_zone, names_differ,
}
use namedor.Tests.SyncTests.{no_cidr, no_ip, compare_hash, plain_access, rest_config, slave_config}

abbrev template_of : ℕ → Tables → Option (Text × Text)
template_of j t = if ltb j t.template_count then some (t.template_at j) else none

template_named_lem :
    (name : Text) (x : Template) (at : ℕ → Text × Text) (n : ℕ)
    → template_named name at n ≡ ok x
    → (x.name ≡ name) × (x.id < n) × (at x.id ≡ (name, x.description))
template_named_lem name x at zero h = cc
template_named_lem name x at (suc n) h = elim (Bool-cases (text_eq (at n).0 name)) [
  | inl e ↦
      let same : record {
        id = n;
        name = (at n).0;
        description = (at n).1;
        deleted = false;
        records = [];
      }
          ≡ x =
        cc (rw (e) at h) in
      let named : (at n).0 ≡ name = (text_eq_iff (at n).0 name).0 e in
      rw (sym same) (named, omega arith, ap (λ s. (s, (at n).1)) named)
  | inr e ↦
      let (same, low, row) = template_named_lem name x at n (rw (e) at h) in
      (same, omega arith, row)
]

pub numbered-IsAtomic : IsAtomic numbered
numbered-IsAtomic = record {
  create_zone = λ z t e h. cc;
  create_rrset = λ s t e. add_set_failed (any (has_key s.zone_id s.name s.type) t.sets) s t e;
  delete_rrset = λ zone_id rid t e h. cc;
  transaction = λ body t e. commit_rolled_back t (body t) e;
  transaction_ok = λ body t. commit_ok t (body t);
}

written_there : {A : Type 0} (f : ℕ → A) (n : ℕ) (a : A) → written f n a n ≡ a
written_there f n a = let same : (n == n) ≡ true = ground arith in rw (same) refl

written_apart : {A : Type 0} (f : ℕ → A) (n j : ℕ) (a : A) → j ≢ n → written f n a j ≡ f j
written_apart f n j a other = let apart : (j == n) ≡ false = ground arith in rw (apart) refl

template_of-found :
    (name : Text) (x : Template) (t : Tables)
    → template_named name t.template_at t.template_count ≡ ok x
    → (x.name ≡ name) × (template_of x.id t ≡ some (name, x.description))
template_of-found name x t h =
    let (same, low, row) = template_named_lem name x t.template_at t.template_count h in
    let below : ltb x.id t.template_count ≡ true = ground arith in (same, rw (below, row) refl)

template_of-created :
    (x stored : Template) (t : Tables)
    → (numbered.create_template x t).0 ≡ ok stored
    → template_of stored.id (numbered.create_template x t).1 ≡ some (x.name, x.description)
template_of-created x stored t h =
    let same : record x { id = t.template_count } ≡ stored = cc in
    let below : ltb t.template_count (t.template_count + 1) ≡ true = ground arith in
    rw (sym same)
      (rw (below, written_there t.template_at t.template_count (x.name, x.description)) refl)

others-created :
    (x : Template) (j : ℕ) (y : Text × Text) (t : Tables)
    → template_of j t ≡ some y
    → template_of j (numbered.create_template x t).1 ≡ some y
others-created x j y t h = elim (Bool-cases (ltb j t.template_count)) [
  | inl e ↦
      let below : ltb j (t.template_count + 1) ≡ true = ground arith in
      let apart : j ≢ t.template_count = λ same. ground arith in
      let row : some (t.template_at j) ≡ some y = rw (e) at h in
      rw (below, written_apart t.template_at t.template_count j (x.name, x.description) apart) row
  | inr e ↦ cc (rw (e) at h)
]

template_of-saved :
    (b : Bool) (x stored : Template) (t : Tables)
    → ltb x.id t.template_count ≡ b
    → (saved_template b x t).0 ≡ ok stored
    → template_of x.id (saved_template b x t).1 ≡ some (x.name, x.description)
template_of-saved true x stored t e h =
    rw (e, written_there t.template_at x.id (x.name, x.description)) refl
template_of-saved false x stored t e h = cc

others-saved :
    (b : Bool) (x : Template) (j : ℕ) (t : Tables)
    → j ≢ x.id
    → (template_of j (saved_template b x t).1 ≡ template_of j t)
      × ((saved_template b x t).1.template_records j ≡ t.template_records j)
others-saved true x j t other =
    (rw (written_apart t.template_at x.id j (x.name, x.description) other) refl, refl)
others-saved false x j t other = (refl, refl)

zones-saved :
    (b : Bool) (x : Template) (j : ℕ) (t : Tables)
    → (numbered_zones.name_of j (saved_template b x t).1 ≡ numbered_zones.name_of j t)
      × (numbered_store.sets j (saved_template b x t).1 ≡ numbered_store.sets j t)
zones-saved true x j t = (refl, refl)
zones-saved false x j t = (refl, refl)

abbrev numbered_templates : KeepsTemplates numbered numbered_store numbered_zones
numbered_templates = record {
  template_of = template_of;
  records_of = λ j t. t.template_records j;
  first_template_named = λ name x t h. template_of-found name x t h;
  create_template = λ x stored t h. template_of-created x stored t h;
  save_template = λ x stored t h. template_of-saved (ltb x.id t.template_count) x stored t refl h;
  purge_template_records = λ id t h. written_there t.template_records id [];
  create_template_record = λ r stored t h.
      written_there t.template_records r.template_id (t.template_records r.template_id ++ r ∷ []);
  others-create_template = λ x j y t h. (others-created x j y t h, refl);
  others-save_template = λ x j t other. others-saved (ltb x.id t.template_count) x j t other;
  template_of-purge_template_records = λ id j t. refl;
  records_of-purge_template_records =
      λ id j t other. written_apart t.template_records id j [] other;
  template_of-create_template_record = λ r j t. refl;
  records_of-create_template_record = λ r j t other.
      written_apart t.template_records r.template_id j (t.template_records r.template_id ++ r ∷ [])
        other;
  zones-create_template = λ x j t. (refl, refl);
  zones-save_template = λ x j t. zones-saved (ltb x.id t.template_count) x j t;
  zones-purge_template_records = λ id j t. (refl, refl);
  zones-create_template_record = λ r j t. (refl, refl);
}

-- The master has two zones and a template.
abbrev mail_record : TemplateRecord
mail_record = record {
  id = 4;
  template_id = 2;
  name = codes "mail.{domain}";
  type = codes "A";
  ttl = 3600;
  content = codes "192.0.2.10";
  country = none;
  continent = none;
  asn = none;
  subnet = none;
  deleted = false;
}

abbrev mail_template : Template
mail_template = record {
  id = 2;
  name = codes "Mail";
  description = codes "A mail server";
  deleted = false;
  records = mail_record ∷ [];
}

abbrev master_data : SyncData
master_data = record { zones = master_zone ∷ new_zone ∷ []; templates = mail_template ∷ [] }

abbrev master : Text → Text → World numbered → Option (ℕ × Option SyncData) × World numbered
master url header w = (some (200, some master_data), w)

-- The slave has the plain token of its own API.
abbrev own_config : SyncConfig
own_config = record slave_config { api_token = codes "secret" }

abbrev world : World numbered
world = record { db = tables; dns_server = none }

-- Every post to the own API arrives and is answered.
abbrev arrives : Text → World numbered → Delivery
arrives url w = answered

master_names :
    (d : SyncData)
    → (fetch no_cidr no_ip compare_hash numbered numbered_store numbered_zones numbered_templates
        rest_config
        (pos 0)
        plain_access
        (codes "127.0.0.1")
        master
        arrives
        own_config
        world).0
      ≡ done d
    → HasNames numbered numbered_store numbered_zones numbered_templates d
unfolding fetch_from_master fetched
master_names d h =
    let same : master_data ≡ d = cc in
    subst (HasNames numbered numbered_store numbered_zones numbered_templates) same
      (((names_differ, tt), (tt, tt)), (tt, tt))

sync_once-IsRound_example :
    IsRound no_cidr no_ip compare_hash numbered numbered_store numbered_zones numbered_templates
      rest_config
      (pos 0)
      plain_access
      (codes "127.0.0.1")
      master
      arrives
      own_config
      (fetch no_cidr no_ip compare_hash numbered numbered_store numbered_zones numbered_templates
        rest_config
        (pos 0)
        plain_access
        (codes "127.0.0.1")
        master
        arrives
        own_config
        world)
      (round no_cidr no_ip compare_hash numbered numbered_store numbered_zones numbered_templates
        rest_config
        (pos 0)
        plain_access
        (codes "127.0.0.1")
        master
        arrives
        own_config
        world)
sync_once-IsRound_example =
    sync_once-IsRound no_cidr no_ip compare_hash numbered numbered_store numbered_zones
      numbered_templates rest_config (pos 0) plain_access (codes "127.0.0.1") master arrives
      own_config numbered-IsAtomic world master_names

synchronised :
    (round no_cidr no_ip compare_hash numbered numbered_store numbered_zones numbered_templates
      rest_config
      (pos 0)
      plain_access
      (codes "127.0.0.1")
      master
      arrives
      own_config
      world).0
    ≡ done tt
unfolding deliver sync_once fetch_from_master fetched sync_fetched apply_data applied guarded
    passes_acl authenticated bearer auth_header change sync_import import_data each sync_zone
    zone_for purge_zone sync_sets synced_set sync_template template_for synced_record text_eq
    trim_prefix has_prefix
synchronised = refl

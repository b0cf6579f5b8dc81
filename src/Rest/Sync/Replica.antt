-- ===== src/Rest/Sync/Replica.antt =====
-- A slave's copy of all zones.
use namedor.Common.{
  ℕ, ◌≡◌, ◌≢◌, Bool, true, false, some, List, [], ◌∷◌, map, All, ◌∙◌, sym, is_empty, not,
}
use namedor.Text.{Text}
use mathlib.Core.Path.{subst}
use namedor.Model.{Zone, RrSet}
use namedor.Gorm.{Gorm, ok, each, Tx, ◌>>=◌, ◌>>◌, read, when}
use namedor.Gorm.Store.{IsStore, bind_ok}
use namedor.Gorm.Zones.{KeepsZones}
use namedor.Rest.Sync.{zone_for, purge_zone, sync_zone, sync_sets, synced_set}
use namedor.Rest.Sync.Laws.{sets-synced}
use namedor.Rest.Sync.Apart.{create_each-name, Same, zone_for-name, sync_zone-Same}

module _ (gorm : Gorm) (store : IsStore gorm) (keeps : KeepsZones gorm store) where
  open gorm use {Db}
  open store use {sets}
  open keeps use {name_of}

  sync_sets-name :
      (id j : ℕ) (n : Text) (rrsets : List RrSet) (db : Db)
      → name_of j db ≡ some n
      → (sync_sets gorm rrsets id db).0 ≡ ok tt
      → name_of j (sync_sets gorm rrsets id db).1 ≡ some n
  unfolding sync_sets
  sync_sets-name id j n rrsets db h done =
      create_each-name gorm store keeps (synced_set id) j rrsets db done ∙ h

  when-name :
      (b : Bool) (ids : List ℕ) (j : ℕ) (n : Text) (db : Db)
      → name_of j db ≡ some n
      → name_of j (when b (gorm.purge_records_of ids) db).1 ≡ some n
  when-name true ids j n db h = keeps.name-purge_records_of ids j db ∙ h
  when-name false ids j n db h = h

  purge_zone-name :
      (id j : ℕ) (n : Text) (db : Db)
      → name_of j db ≡ some n
      → (purge_zone gorm id db).0 ≡ ok tt
      → name_of j (purge_zone gorm id db).1 ≡ some n
  unfolding purge_zone
  purge_zone-name id j n db h done =
      let unlink : List ℕ → Tx Db (Unit {0}) =
        λ ids. when (not (is_empty ids)) (gorm.purge_records_of ids) in
      let (u, before, after, same) =
        bind_ok (read (gorm.rrset_ids id) >>= unlink) (λ _. gorm.purge_rrsets id) db tt done in
      let (ids, e, unlinked, same') = bind_ok (read (gorm.rrset_ids id)) unlink db u before in
      rw (same, same')
        (keeps.name-purge_rrsets id j (unlink ids db).1
          ∙ when-name (not (is_empty ids)) ids j n db h)

  -- The zone is there under its name, with the sets of the master.
  abbrev pub IsCopied : Db → Zone → Type 0
  IsCopied db zone =
      (id : ℕ) × (name_of id db ≡ some zone.name) × (sets id db ≡ map (synced_set id) zone.rrsets)

  sync_zone-IsCopied :
      (zone : Zone) (db : Db)
      → (sync_zone gorm zone db).0 ≡ ok tt
      → IsCopied (sync_zone gorm zone db).1 zone
  unfolding sync_zone
  sync_zone-IsCopied zone db done =
      let (z, found, after, same) =
        bind_ok (zone_for gorm zone.name)
          (λ z. purge_zone gorm z.id >> sync_sets gorm zone.rrsets z.id) db tt done in
      let db1 = (zone_for gorm zone.name db).1 in
      let (u, purged, created, same') =
        bind_ok (purge_zone gorm z.id) (λ _. sync_sets gorm zone.rrsets z.id) db1 tt after in
      let db2 = (purge_zone gorm z.id db1).1 in
      let n1 = zone_for-name gorm store keeps zone.name z db found in
      let n2 = purge_zone-name z.id z.id zone.name db1 n1 purged in
      let n3 = sync_sets-name z.id z.id zone.name zone.rrsets db2 n2 created in
      (
        z.id,
        rw (same, same') n3,
        rw (same, same') (sets-synced gorm store z.id zone.rrsets db1 purged created),
      )

  IsCopied-Same :
      (zone : Zone) (zones : List Zone) (db : Db)
      → All (λ y. y.name ≢ zone.name) zones
      → IsCopied db zone
      → (each (sync_zone gorm) zones db).0 ≡ ok tt
      → IsCopied (each (sync_zone gorm) zones db).1 zone
  unfolding each Same
  IsCopied-Same zone [] db apart copied done = copied
  IsCopied-Same zone (y ∷ zones) db (other, apart) (id, name, rows) done =
      let (u, first, rest, same) =
        bind_ok (sync_zone gorm y) (λ _. each (sync_zone gorm) zones) db tt done in
      let (name', rows') = sync_zone-Same gorm store keeps y id zone.name db other name first in
      rw (same)
        (IsCopied-Same zone zones (sync_zone gorm y db).1 apart (id, name', rows' ∙ rows) rest)

  -- No two zones of the master have one name.
  abbrev pub DistinctNames : List Zone → Type 0
  DistinctNames [] = Unit
  DistinctNames (zone ∷ zones) = All (λ y. y.name ≢ zone.name) zones × DistinctNames zones

  -- Over a database that keeps IsStore and KeepsZones, where the loop of syncImport over the zones of a
  -- master succeeds and no two of these have one name, the database has at its end each of them under
  -- its name with the master's sets and no other, in the master's order and with new numbers,
  -- whatever it had before: the rounds do not disturb each other.
  pub each-IsCopied :
      (zones : List Zone) (db : Db)
      → DistinctNames zones
      → (each (sync_zone gorm) zones db).0 ≡ ok tt
      → All (IsCopied (each (sync_zone gorm) zones db).1) zones
  unfolding each
  each-IsCopied [] db distinct done = tt
  each-IsCopied (zone ∷ zones) db (apart, distinct) done =
      let (u, first, rest, same) =
        bind_ok (sync_zone gorm zone) (λ _. each (sync_zone gorm) zones) db tt done in
      let db' = (sync_zone gorm zone db).1 in
      let here = IsCopied-Same zone zones db' apart (sync_zone-IsCopied zone db first) rest in
      let others = each-IsCopied zones db' distinct rest in
      (rw (same) here, subst (λ out. All (IsCopied out.1) zones) (sym same) others)

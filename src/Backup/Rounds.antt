-- ===== src/Backup/Rounds.antt =====
-- The loop of ImportZones over the zones of a file.
use namedor.Common.{ℕ, ◌≡◌, ◌≢◌, Bool, true, some, List, [], ◌∷◌, map, All, ◌∙◌, sym, ◌⊎◌, inl, inr}
use namedor.Text.{Text}
use mathlib.Core.Path.{subst}
use namedor.Model.{Zone}
use namedor.Gorm.{Gorm, ok, each, Tx}
use namedor.Gorm.Store.{IsStore, bind_ok}
use namedor.Gorm.Zones.{KeepsZones}
use namedor.Gorm.Restores.{KeepsRestored}
use namedor.Rest.Sync.Apart.{Same}
use namedor.Rest.Sync.Replica.{DistinctNames}
use namedor.Backup.{restored_set}
use namedor.Backup.Round.{IsTidy, IsEmpty, round-IsTidy, round, round-own, round-Same, round-names}

module _ (gorm : Gorm) (store : IsStore gorm) (keeps : KeepsZones gorm store)
    (more : KeepsRestored gorm store keeps) where
  open gorm use {Db}
  open store use {sets}
  open keeps use {name_of}

  -- The zone is there under its name, with the sets of the file.
  abbrev pub IsRestored : Db → Zone → Type 0
  IsRestored db zone =
      (id : ℕ) × (name_of id db ≡ some zone.name) × (sets id db ≡ map (restored_set id) zone.rrsets)

  -- The old sets are cleared, or there are none.
  abbrev pub IsReady : Bool → Db → Zone → Type 0
  IsReady b db zone =
      (b ≡ true) ⊎ (IsEmpty gorm store keeps more zone.name db × IsTidy gorm store keeps more db)

  abbrev pub rounds : Bool → List Zone → Tx Db (Unit {0})
  rounds b = each (round gorm store keeps more b)

  IsReady-round :
      (b : Bool) (zone : Zone) (zones : List Zone) (db : Db)
      → All (λ y. y.name ≢ zone.name) zones
      → (round gorm store keeps more b zone db).0 ≡ ok tt
      → All (IsReady b db) zones
      → All (IsReady b (round gorm store keeps more b zone db).1) zones
  unfolding Same
  IsReady-round b zone [] db apart done ready = tt
  IsReady-round b zone (y ∷ zones) db (other, apart) done (r, ready) =
      let next = IsReady-round b zone zones db apart done ready in
      elim r [
        | inl e ↦ (inl e, next)
        | inr (none_yet, tidy) ↦ (
          inr (
            λ j h. elim (round-names gorm store keeps more b zone j y.name db done h) [
              | inl same ↦ absurd (other same)
              | inr before ↦
                  let (name, rows) =
                    round-Same gorm store keeps more b zone j y.name db (λ e. other (sym e)) before
                      done in
                  rows ∙ none_yet j before
            ],
            round-IsTidy gorm store keeps more b zone db done tidy,
          ),
          next,
        )
      ]

  IsRestored-rounds :
      (b : Bool) (zone : Zone) (zones : List Zone) (db : Db)
      → All (λ y. y.name ≢ zone.name) zones
      → IsRestored db zone
      → (rounds b zones db).0 ≡ ok tt
      → IsRestored (rounds b zones db).1 zone
  unfolding each Same
  IsRestored-rounds b zone [] db apart restored done = restored
  IsRestored-rounds b zone (y ∷ zones) db (other, apart) (id, name, rows) done =
      let (u, first, rest, same) =
        bind_ok (round gorm store keeps more b y) (λ _. rounds b zones) db tt done in
      let db' = (round gorm store keeps more b y db).1 in
      let (name', rows') = round-Same gorm store keeps more b y id zone.name db other name first in
      rw (same) (IsRestored-rounds b zone zones db' apart (id, name', rows' ∙ rows) rest)

  pub rounds-IsRestored :
      (b : Bool) (zones : List Zone) (db : Db)
      → DistinctNames gorm store keeps zones
      → All (IsReady b db) zones
      → (rounds b zones db).0 ≡ ok tt
      → All (IsRestored (rounds b zones db).1) zones
  unfolding each
  rounds-IsRestored b [] db distinct ready done = tt
  rounds-IsRestored b (zone ∷ zones) db (apart, distinct) (r, ready) done =
      let (u, first, rest, same) =
        bind_ok (round gorm store keeps more b zone) (λ _. rounds b zones) db tt done in
      let db' = (round gorm store keeps more b zone db).1 in
      let own = round-own gorm store keeps more b zone db r first in
      let here = IsRestored-rounds b zone zones db' apart own rest in
      let next = IsReady-round b zone zones db apart first ready in
      let others = rounds-IsRestored b zones db' distinct next rest in
      (rw (same) here, subst (λ out. All (IsRestored out.1) zones) (sym same) others)

  abbrev pub InFile : Text → List Zone → Type 0
  InFile name [] = ⊥
  InFile name (zone ∷ zones) = (name ≡ zone.name) ⊎ InFile name zones

  pub rounds-names :
      (b : Bool) (zones : List Zone) (j : ℕ) (n : Text) (db : Db)
      → (rounds b zones db).0 ≡ ok tt
      → name_of j (rounds b zones db).1 ≡ some n
      → InFile n zones ⊎ (name_of j db ≡ some n)
  unfolding each
  rounds-names b [] j n db done h = inr h
  rounds-names b (zone ∷ zones) j n db done h =
      let (u, first, rest, same) =
        bind_ok (round gorm store keeps more b zone) (λ _. rounds b zones) db tt done in
      let db' = (round gorm store keeps more b zone db).1 in
      elim (rounds-names b zones j n db' rest (rw (same) at h)) [
        | inl later ↦ inl (inr later)
        | inr before ↦ elim (round-names gorm store keeps more b zone j n db first before) [
          | inl own ↦ inl (inl own)
          | inr old ↦ inr old
        ]
      ]

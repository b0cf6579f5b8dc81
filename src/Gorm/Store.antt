-- ===== src/Gorm/Store.antt =====
-- What gorm documents of the rows: a set that is created is there after the sets of its zone that were
-- there before, and no set of a zone is left by a deletion of them all. The numbers of the rows are
-- the database's and are left out of the view: the view of a new row is the row as it was handed over.
use namedor.Common.{
  ℕ, ◌≡◌, refl, List, [], ◌∷◌, ◌++◌, map, append_assoc, append-nil, ap, sym, ◌∙◌, inl, inr,
}
use namedor.Model.{RrSet}
use namedor.Gorm.{Gorm, Result-cases, ok, each, run, Tx, ◌>>=◌}

pub record IsStore (gorm : Gorm) : Type 0 where
  pub sets : ℕ → gorm.Db → List RrSet
  pub create_rrset :
      (zone_id : ℕ) (set stored : RrSet) (db : gorm.Db)
      → set.zone_id ≡ zone_id
      → (gorm.create_rrset set db).0 ≡ ok stored
      → sets zone_id (gorm.create_rrset set db).1 ≡ sets zone_id db ++ set ∷ []
  pub purge_rrsets :
      (zone_id : ℕ) (db : gorm.Db)
      → (gorm.purge_rrsets zone_id db).0 ≡ ok tt
      → sets zone_id (gorm.purge_rrsets zone_id db).1 ≡ []
  pub delete_rrsets :
      (zone_id : ℕ) (db : gorm.Db)
      → (gorm.delete_rrsets zone_id db).0 ≡ ok tt
      → sets zone_id (gorm.delete_rrsets zone_id db).1 ≡ []

-- A sequence that succeeds: what its first part returns, and that it ends as the second part does.
pub bind_ok :
    {S A B : Type 0} (m : Tx S A) (k : A → Tx S B) (s : S) (b : B)
    → ((m >>= k) s).0 ≡ ok b
    → (a : A) × ((m s).0 ≡ ok a) × ((k a (m s).1).0 ≡ ok b) × ((m >>= k) s ≡ k a (m s).1)
bind_ok m k s b h = elim (Result-cases (m s).0) [
  | inl (e, failed) ↦ cc (rw (failed) at h)
  | inr (a, done) ↦ (a, done, rw (done) at h, rw (done) refl)
]

-- What a statement leaves, whether it succeeds or not.
pub run_lem : {S A : Type 0} (m : Tx S A) (s : S) → (run m s).1 ≡ (m s).1
run_lem m s = elim (Result-cases (m s).0) [
  | inl (e, failed) ↦ rw (failed) refl
  | inr (a, done) ↦ rw (done) refl
]

-- A relation that each statement of a sequence keeps.
module _ {S : Type 0} (Kept : S → S → Type 0) (refl_Kept : (s : S) → Kept s s)
    (trans_Kept : (a b c : S) → Kept a b → Kept b c → Kept a c) where
  pub bind_keeps :
      {A B : Type 0} (m : Tx S A) (k : A → Tx S B)
      → ((s : S) → Kept s (m s).1)
      → ((a : A) (s : S) → Kept s (k a s).1)
      → (s : S) → Kept s ((m >>= k) s).1
  bind_keeps m k first next s = elim (Result-cases (m s).0) [
    | inl (e, stop) ↦ rw (stop) (first s)
    | inr (a, go) ↦ rw (go) (trans_Kept s (m s).1 (k a (m s).1).1 (first s) (next a (m s).1))
  ]

  pub each_keeps :
      {A : Type 0} (f : A → Tx S (Unit {0}))
      → ((a : A) (s : S) → Kept s (f a s).1)
      → (xs : List A) (s : S) → Kept s (each f xs s).1
  unfolding each
  each_keeps f h [] s = refl_Kept s
  each_keeps f h (x ∷ xs) s = bind_keeps (f x) (λ _. each f xs) (h x) (λ _. each_keeps f h xs) s

module _ (gorm : Gorm) (store : IsStore gorm) where
  open gorm use {Db}
  open store use {sets}

  -- A loop that creates sets and does not stop at an error has added them all, in their order.
  pub sets-each :
      (f : RrSet → RrSet) (zone_id : ℕ)
      → ((rs : RrSet) → (f rs).zone_id ≡ zone_id)
      → (rrsets : List RrSet) (db : Db)
      → (each (λ rs. run (gorm.create_rrset (f rs))) rrsets db).0 ≡ ok tt
      → sets zone_id (each (λ rs. run (gorm.create_rrset (f rs))) rrsets db).1
        ≡ sets zone_id db ++ map f rrsets
  unfolding each
  sets-each f zone_id own [] db h = sym (append-nil (sets zone_id db))
  sets-each f zone_id own (rs ∷ rrsets) db h = elim (Result-cases (gorm.create_rrset (f rs) db).0) [
    | inl (e, failed) ↦ cc (rw (failed) at h)
    | inr (stored, done) ↦
        let rest =
          sets-each f zone_id own rrsets (gorm.create_rrset (f rs) db).1 (rw (done) at h) in
        let added : sets zone_id (gorm.create_rrset (f rs) db).1 ≡ sets zone_id db ++ f rs ∷ [] =
          store.create_rrset zone_id (f rs) stored db (own rs) done in
        rw (done) (
          rest
          ∙ ap (λ xs. xs ++ map f rrsets) added
          ∙ append_assoc (sets zone_id db) (f rs ∷ []) (map f rrsets))
  ]

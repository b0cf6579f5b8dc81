-- ===== src/Assoc/Laws.antt =====
-- What a read of a map sees after a write, a delete and the loss of one entry.
use namedor.Common.{
  ℕ, zero, suc, ◌+◌, ◌≤◌, ◌<◌, ◌≡◌, refl, none, some, List, [], ◌∷◌, ◌++◌, arith, length, drop_at,
  if◌then◌else◌, Bool-cases, inl, inr, ◌⊎◌,
}
use namedor.Text.{Text, text_eq}
use namedor.Text.Laws.{text_eq_iff}
use namedor.Assoc.{fetch, remove, write}

module _ {ℓ} {A : Type ℓ} where
  -- No key stands twice.
  abbrev pub Distinct : List (Text × A) → Type ℓ
  Distinct [] = Unit
  Distinct ((k, item) ∷ entries) = (fetch k entries ≡ none) × Distinct entries

  pub fetch-write :
      (key j : Text) (item : A) (entries : List (Text × A))
      → fetch j (write key item entries) ≡ (if text_eq key j then some item else fetch j entries)
  unfolding fetch write
  fetch-write key j item [] = refl
  fetch-write key j item ((k, old) ∷ entries) =
      ground (
        arith,
        fetch-write key j item entries,
        text_eq_iff k key,
        text_eq_iff k j,
        text_eq_iff key j,
      )

  pub fetch-remove :
      (key j : Text) (entries : List (Text × A))
      → fetch j (remove key entries) ≡ (if text_eq key j then none else fetch j entries)
  unfolding fetch remove
  fetch-remove key j [] = ground arith
  fetch-remove key j ((k, old) ∷ entries) =
      ground
        (arith, fetch-remove key j entries, text_eq_iff k key, text_eq_iff k j, text_eq_iff key j)

  -- The loss of one entry hides at most its own key.
  pub fetch-drop_at :
      (i : ℕ) (j : Text) (entries : List (Text × A))
      → Distinct entries
      → (fetch j (drop_at i entries) ≡ fetch j entries) ⊎ (fetch j (drop_at i entries) ≡ none)
  unfolding fetch
  fetch-drop_at i j [] d = inl refl
  fetch-drop_at zero j ((k, old) ∷ entries) (f, d) = elim (Bool-cases (text_eq k j)) [
    | inl e ↦ let same : k ≡ j = (text_eq_iff k j).0 e in inr (rw (← same) f)
    | inr e ↦ inl (rw e refl)
  ]
  fetch-drop_at (suc i) j ((k, old) ∷ entries) (f, d) = ground (arith, fetch-drop_at i j entries d)

  pub Distinct-drop_at :
      (i : ℕ) (entries : List (Text × A)) → Distinct entries → Distinct (drop_at i entries)
  Distinct-drop_at i [] d = tt
  Distinct-drop_at zero ((k, old) ∷ entries) (f, d) = d
  Distinct-drop_at (suc i) ((k, old) ∷ entries) (f, d) =
      (ground (arith, fetch-drop_at i k entries d), Distinct-drop_at i entries d)

  pub Distinct-write :
      (key : Text) (item : A) (entries : List (Text × A))
      → Distinct entries
      → Distinct (write key item entries)
  unfolding write fetch
  Distinct-write key item [] d = (refl, tt)
  Distinct-write key item ((k, old) ∷ entries) (f, d) = elim (Bool-cases (text_eq k key)) [
    | inl e ↦ let same : k ≡ key = (text_eq_iff k key).0 e in rw e (f, d)
    | inr e ↦ rw e (
      ground (arith, fetch-write key k item entries, text_eq_iff key k, text_eq_iff k key),
      Distinct-write key item entries d,
    )
  ]

  pub Distinct-remove :
      (key : Text) (entries : List (Text × A)) → Distinct entries → Distinct (remove key entries)
  unfolding remove
  Distinct-remove key [] d = tt
  Distinct-remove key ((k, old) ∷ entries) (f, d) = elim (Bool-cases (text_eq k key)) [
    | inl e ↦ rw e (Distinct-remove key entries d)
    | inr e ↦ rw e (
      ground (arith, fetch-remove key k entries, text_eq_iff key k),
      Distinct-remove key entries d,
    )
  ]

  pub length-write-le :
      (key : Text) (item : A) (entries : List (Text × A))
      → length (write key item entries) ≤ length entries + 1
  unfolding write
  length-write-le key item [] = omega arith
  length-write-le key item ((k, old) ∷ entries) = ground (arith, length-write-le key item entries)

  pub length-remove-le :
      (key : Text) (entries : List (Text × A)) → length (remove key entries) ≤ length entries
  unfolding remove
  length-remove-le key [] = omega arith
  length-remove-le key ((k, old) ∷ entries) = ground (arith, length-remove-le key entries)

pub length-drop_at {ℓ} :
    {A : Type ℓ} (i : ℕ) (xs : List A) → i < length xs → length (drop_at i xs) + 1 ≡ length xs
length-drop_at i [] h = absurd (omega arith)
length-drop_at zero (x ∷ xs) h = omega arith
length-drop_at (suc i) (x ∷ xs) h = omega (arith, length-drop_at i xs (omega arith))

-- An entry at the end is not found where there is one before.
pub fetch-append :
    {A : Type 0} (key : Text) (value : A) (entries more : List (Text × A))
    → fetch key entries ≡ some value
    → fetch key (entries ++ more) ≡ some value
unfolding fetch
fetch-append key value [] more h = cc
fetch-append key value ((k, a) ∷ entries) more h =
    ground (arith, fetch-append key value entries more)

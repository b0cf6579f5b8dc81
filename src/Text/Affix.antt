-- ===== src/Text/Affix.antt =====
-- Suffixes: the Boolean test against concatenation, and trimming.
use namedor.Common.{
  ℕ, ◌≡◌, refl, ap, ◌∙◌, ◌↔◌, true, false, [], ◌∷◌, ◌++◌, arith, Bool-cases, inl, inr, ◌≢◌, ◌⊎◌,
  length, length-append,
}
use namedor.Text.{Text, text_eq, has_suffix, trim_suffix, has_prefix, drop_prefix, trim_prefix}
use namedor.Text.Laws.{text_eq_iff, text_eq_refl}

-- A text that has a suffix is some text followed by it.
pub has_suffix-split :
    (s suffix : Text) → has_suffix s suffix ≡ true → (front : Text) × (s ≡ front ++ suffix)
unfolding has_suffix
has_suffix-split [] suffix h = ([], (text_eq_iff [] suffix).0 h)
has_suffix-split (c ∷ s) suffix h = elim (Bool-cases (text_eq (c ∷ s) suffix)) [
  | inl e ↦ ([], (text_eq_iff (c ∷ s) suffix).0 e)
  | inr e ↦ let (front, p) = has_suffix-split s suffix (ground arith) in (c ∷ front, ap (◌∷◌ c) p)
]

pub has_suffix-append : (front suffix : Text) → has_suffix (front ++ suffix) suffix ≡ true
unfolding has_suffix
has_suffix-append [] [] = refl
has_suffix-append [] (c ∷ s) = rw (text_eq_refl (c ∷ s))
has_suffix-append (c ∷ front) suffix = ground (arith, has_suffix-append front suffix)

pub has_suffix_iff :
    (s suffix : Text) → (has_suffix s suffix ≡ true) ↔ ((front : Text) × (s ≡ front ++ suffix))
has_suffix_iff s suffix = (has_suffix-split s suffix, λ w. rw (w.1) (has_suffix-append w.0 suffix))

append_self : (front suffix : Text) (c : ℕ) → (c ∷ (front ++ suffix)) ≢ suffix
append_self front suffix c h = absurd (omega (arith, ap length h, length-append front suffix))

-- Trimming a suffix that is there leaves the front.
pub trim_suffix-append :
    (front suffix : Text) → suffix ≢ [] → trim_suffix (front ++ suffix) suffix ≡ front
unfolding trim_suffix
trim_suffix-append [] [] h = refl
trim_suffix-append [] (c ∷ s) h = rw (text_eq_refl (c ∷ s))
trim_suffix-append (c ∷ front) suffix h = ground (
  arith,
  trim_suffix-append front suffix h,
  text_eq_iff (c ∷ (front ++ suffix)) suffix,
  append_self front suffix c,
)

-- Trimming one that is not there changes nothing.
pub trim_suffix_of_not : (s suffix : Text) → has_suffix s suffix ≡ false → trim_suffix s suffix ≡ s
unfolding trim_suffix has_suffix
trim_suffix_of_not [] suffix h = refl
trim_suffix_of_not (c ∷ s) suffix h = ground (arith, trim_suffix_of_not s suffix)

-- Whether it was there or not, at most the suffix is gone.
pub trim_suffix-cases :
    (s suffix : Text)
    → suffix ≢ []
    → ((front : Text) × (s ≡ front ++ suffix) × (trim_suffix s suffix ≡ front))
      ⊎ ((has_suffix s suffix ≡ false) × (trim_suffix s suffix ≡ s))
trim_suffix-cases s suffix h = elim (Bool-cases (has_suffix s suffix)) [
  | inl e ↦
      let (front, p) = has_suffix-split s suffix e in
      inl (front, p, ap (λ t. trim_suffix t suffix) p ∙ trim_suffix-append front suffix h)
  | inr e ↦ inr (e, trim_suffix_of_not s suffix e)
]

drop_prefix-append : (prefix s : Text) → drop_prefix (prefix ++ s) prefix ≡ s
unfolding drop_prefix
drop_prefix-append [] s = refl
drop_prefix-append (c ∷ prefix) s = drop_prefix-append prefix s

has_prefix-append : (prefix s : Text) → has_prefix (prefix ++ s) prefix ≡ true
unfolding has_prefix
has_prefix-append [] s = refl
has_prefix-append (c ∷ prefix) s = ground (arith, has_prefix-append prefix s)

-- Trimming a prefix that is there leaves the rest.
pub trim_prefix-append : (prefix s : Text) → trim_prefix (prefix ++ s) prefix ≡ s
unfolding trim_prefix
trim_prefix-append prefix s = rw (has_prefix-append prefix s) (drop_prefix-append prefix s)

-- A text that has a prefix is the prefix followed by some text.
pub has_prefix-split :
    (s prefix : Text) → has_prefix s prefix ≡ true → (rest : Text) × (s ≡ prefix ++ rest)
unfolding has_prefix
has_prefix-split s [] h = (s, refl)
has_prefix-split [] (d ∷ prefix) h = cc
has_prefix-split (c ∷ s) (d ∷ prefix) h =
    let (rest, e) = has_prefix-split s prefix (ground arith) in
    let same : c ≡ d = ground arith in (rest, cc (same, e))

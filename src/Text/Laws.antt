-- ===== src/Text/Laws.antt =====
-- Equality of texts and letter case.
use namedor.Common.{
  ℕ, ◌≡◌, refl, ap, ◌↔◌, true, [], ◌∷◌, ◌++◌, arith, Bool-cases, inl, inr, ◌⊎◌, ◌≢◌,
}
use mathlib.Core.List.{map-append}
use namedor.Text.{Text, text_eq, lower, upper, to_lower, to_upper, equal_fold}

text_eq_sound : (s t : Text) → text_eq s t ≡ true → s ≡ t
unfolding text_eq
text_eq_sound [] [] h = refl
text_eq_sound [] (d ∷ t) h = ground arith
text_eq_sound (c ∷ s) [] h = ground arith
text_eq_sound (c ∷ s) (d ∷ t) h = ground (arith, text_eq_sound s t)

pub text_eq_refl : (s : Text) → text_eq s s ≡ true
unfolding text_eq
text_eq_refl [] = refl
text_eq_refl (c ∷ s) = ground (arith, text_eq_refl s)

pub text_eq_iff : (s t : Text) → (text_eq s t ≡ true) ↔ (s ≡ t)
text_eq_iff s t = (text_eq_sound s t, λ e. rw e (text_eq_refl t))

pub text_eq_symm : (s t : Text) → text_eq s t ≡ text_eq t s
unfolding text_eq
text_eq_symm [] [] = refl
text_eq_symm [] (d ∷ t) = refl
text_eq_symm (c ∷ s) [] = refl
text_eq_symm (c ∷ s) (d ∷ t) = ground (arith, text_eq_symm s t)

pub text_eq-dec : (s t : Text) → (s ≡ t) ⊎ (s ≢ t)
text_eq-dec s t = elim (Bool-cases (text_eq s t)) [
  | inl e ↦ inl (text_eq_sound s t e)
  | inr e ↦ inr (λ p. ground (arith, text_eq_iff s t, p))
]

lower-lower : (c : ℕ) → lower (lower c) ≡ lower c
unfolding lower
lower-lower c = ground arith

upper-upper : (c : ℕ) → upper (upper c) ≡ upper c
unfolding upper
upper-upper c = ground arith

lower-upper : (c : ℕ) → lower (upper c) ≡ lower c
unfolding lower upper
lower-upper c = ground arith

pub to_lower_idem : (s : Text) → to_lower (to_lower s) ≡ to_lower s
unfolding to_lower
to_lower_idem [] = refl
to_lower_idem (c ∷ s) = cc (lower-lower c, to_lower_idem s)

pub to_upper_idem : (s : Text) → to_upper (to_upper s) ≡ to_upper s
unfolding to_upper
to_upper_idem [] = refl
to_upper_idem (c ∷ s) = cc (upper-upper c, to_upper_idem s)

pub to_lower-to_upper : (s : Text) → to_lower (to_upper s) ≡ to_lower s
unfolding to_lower to_upper
to_lower-to_upper [] = refl
to_lower-to_upper (c ∷ s) = cc (lower-upper c, to_lower-to_upper s)

pub to_lower-append : (s t : Text) → to_lower (s ++ t) ≡ to_lower s ++ to_lower t
unfolding to_lower
to_lower-append s t = map-append lower s t

pub equal_fold_iff : (s t : Text) → (equal_fold s t ≡ true) ↔ (to_lower s ≡ to_lower t)
unfolding equal_fold
equal_fold_iff s t = text_eq_iff (to_lower s) (to_lower t)

-- A case change of either side is not seen.
pub equal_fold-to_upper : (s t : Text) → equal_fold (to_upper s) t ≡ equal_fold s t
unfolding equal_fold
equal_fold-to_upper s t = ap (λ x. text_eq x (to_lower t)) (to_lower-to_upper s)

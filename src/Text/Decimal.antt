-- ===== src/Text/Decimal.antt =====
-- strconv.ParseInt(s, 10, 64) and strconv.FormatInt(n, 10). An error is `none`.
use namedor.Common.{
  ℕ, zero, suc, ◌+◌, ◌-◌, ◌*◌, ◌/◌, ◌%◌, ◌^◌, ◌≤◌, ◌<◌, ◌≡◌, refl, ap, ◌∙◌, Bool, true, false, ◌&&◌,
  Option, none, some, [], ◌∷◌, is_empty, leb, ◌==◌, if◌then◌else◌, arith, Bool-cases, inl, inr, All,
  ℤ, pos, negsuc,
}
use namedor.Text.{Text, is_space}
use namedor.Text.Words.{NoSpace, IsWord}

unfoldable pub scan : Text → ℕ → Option ℕ
scan [] n = some n
scan (c ∷ s) n = if leb b'0' c && leb c b'9' then scan s (n * 10 + (c - b'0')) else none

-- ParseUint without its range check, which is in the callers.
unfoldable pub parse_digits : Text → Option ℕ
unfolding scan
parse_digits s = if is_empty s then none else scan s 0

abbrev pub max_int64 : ℕ
max_int64 = 2 ^ 63 - 1

unfoldable pub in_int64 : Bool → Option ℕ → Option ℤ
in_int64 neg none = none
in_int64 false (some n) = if leb n max_int64 then some (pos n) else none
in_int64 true (some zero) = some (pos 0)
in_int64 true (some (suc n)) = if leb n max_int64 then some (negsuc n) else none

unfoldable pub parse_int : Text → Option ℤ
unfolding in_int64 parse_digits
parse_int [] = none
parse_int (c ∷ s) =
    if c == b'-'
    then in_int64 true (parse_digits s)
    else if c == b'+'
    then in_int64 false (parse_digits s)
    else in_int64 false (parse_digits (c ∷ s))

-- The digits of a number before `out`; each round divides by ten, so that the number is enough fuel.
unfoldable pub digits : ℕ → ℕ → Text → Text
digits zero n out = out
digits (suc fuel) n out =
    let more = digits fuel (n / 10) ((b'0' + n % 10) ∷ out) in if n == 0 then out else more

unfoldable pub format_nat : ℕ → Text
unfolding digits
format_nat n = if n == 0 then b'0' ∷ [] else digits n n []

unfoldable pub format_int : ℤ → Text
unfolding format_nat
format_int (pos n) = format_nat n
format_int (negsuc n) = b'-' ∷ format_nat (suc n)

-- n++ on an int64
unfoldable pub incr_int64 : ℤ → ℤ
incr_int64 (pos n) = if n == max_int64 then negsuc max_int64 else pos (n + 1)
incr_int64 (negsuc zero) = pos 0
incr_int64 (negsuc (suc n)) = negsuc n

scan-digit : (d n : ℕ) (s : Text) → d < 10 → scan ((b'0' + d) ∷ s) n ≡ scan s (n * 10 + d)
unfolding scan
scan-digit d n s h = ground arith

scan-digits : (fuel n : ℕ) (out : Text) → n ≤ fuel → scan (digits fuel n out) 0 ≡ scan out n
unfolding digits
scan-digits zero n out h = ap (scan out) (omega arith)
scan-digits (suc fuel) n out h = elim (Bool-cases (n == 0)) [
  | inl e ↦ rw e (ap (scan out) (ground arith))
  | inr e ↦
      let back : (n / 10) * 10 + (n % 10) ≡ n = omega arith in
      let digit : n % 10 < 10 = omega arith in
      rw e (
        scan-digits fuel (n / 10) ((b'0' + n % 10) ∷ out) (ground arith)
        ∙ (scan-digit (n % 10) (n / 10) out digit ∙ ap (scan out) back))
]

-- The text of digits is one word of digits.
abbrev pub IsDigit : ℕ → Type 0
IsDigit c = (b'0' ≤ c) × (c ≤ b'9')

digits-All : (fuel n : ℕ) (out : Text) → All IsDigit out → All IsDigit (digits fuel n out)
unfolding digits
digits-All zero n out h = h
digits-All (suc fuel) n out h = elim (Bool-cases (n == 0)) [
  | inl e ↦ rw e h
  | inr e ↦ rw e (digits-All fuel (n / 10) ((b'0' + n % 10) ∷ out) ((omega arith, omega arith), h))
]

digits-ne-nil :
    (fuel n : ℕ) (out : Text) → is_empty out ≡ false → is_empty (digits fuel n out) ≡ false
unfolding digits
digits-ne-nil zero n out h = h
digits-ne-nil (suc fuel) n out h = elim (Bool-cases (n == 0)) [
  | inl e ↦ rw e h
  | inr e ↦ rw e (digits-ne-nil fuel (n / 10) ((b'0' + n % 10) ∷ out) refl)
]

digits-ne-nil_pos : (fuel n : ℕ) → (n == 0) ≡ false → n ≤ fuel → is_empty (digits fuel n []) ≡ false
unfolding digits
digits-ne-nil_pos zero n e h = ground arith
digits-ne-nil_pos (suc fuel) n e h = rw e (digits-ne-nil fuel (n / 10) ((b'0' + n % 10) ∷ []) refl)

pub format_nat-All : (n : ℕ) → All IsDigit (format_nat n)
unfolding format_nat
format_nat-All n = elim (Bool-cases (n == 0)) [
  | inl e ↦ rw e ((omega arith, omega arith), tt)
  | inr e ↦ rw e (digits-All n n [] tt)
]

pub format_nat-ne-nil : (n : ℕ) → is_empty (format_nat n) ≡ false
unfolding format_nat
format_nat-ne-nil n = elim (Bool-cases (n == 0)) [
  | inl e ↦ rw e refl
  | inr e ↦ rw e (digits-ne-nil_pos n n e (omega arith))
]

scan-format_nat : (n : ℕ) → scan (format_nat n) 0 ≡ some n
unfolding format_nat
scan-format_nat n = elim (Bool-cases (n == 0)) [
  | inl e ↦ let zero_n : n ≡ 0 = ground arith in rw (zero_n, format_nat) (unfold scan in refl)
  | inr e ↦ rw e (unfold scan in scan-digits n n [] (omega arith))
]

-- ParseUint reads back what FormatUint wrote.
pub parse_digits-format_nat : (n : ℕ) → parse_digits (format_nat n) ≡ some n
unfolding parse_digits
parse_digits-format_nat n = rw (format_nat-ne-nil n) (scan-format_nat n)

parse_int-digits :
    (s : Text) (n : ℕ)
    → All IsDigit s
    → is_empty s ≡ false
    → n ≤ max_int64
    → parse_digits s ≡ some n
    → parse_int s ≡ some (pos n)
unfolding parse_int
parse_int-digits [] n h e small p = cc
parse_int-digits (c ∷ s) n ((low, high), h) e small p = ground arith

parse_int-minus :
    (s : Text) (n : ℕ)
    → n ≤ max_int64
    → parse_digits s ≡ some (suc n)
    → parse_int (b'-' ∷ s) ≡ some (negsuc n)
unfolding parse_int
parse_int-minus s n small p = rw p (ground arith)

-- The range of an int64.
abbrev pub IsInt64 : ℤ → Type 0
IsInt64 (pos n) = n ≤ max_int64
IsInt64 (negsuc n) = n ≤ max_int64

-- ParseInt reads back what FormatInt wrote of an int64.
pub parse_int-format_int : (z : ℤ) → IsInt64 z → parse_int (format_int z) ≡ some z
unfolding format_int
parse_int-format_int (pos n) h =
    parse_int-digits (format_nat n) n (format_nat-All n) (format_nat-ne-nil n) h
      (parse_digits-format_nat n)
parse_int-format_int (negsuc n) h =
    parse_int-minus (format_nat (suc n)) n h (parse_digits-format_nat (suc n))

IsDigit-NoSpace : (s : Text) → All IsDigit s → NoSpace s
IsDigit-NoSpace [] h = tt
IsDigit-NoSpace (c ∷ s) ((low, high), h) = (unfold is_space in ground arith, IsDigit-NoSpace s h)

-- What FormatInt writes is one word.
pub format_int-IsWord : (z : ℤ) → IsWord (format_int z)
unfolding format_int
format_int-IsWord (pos n) = record {
  some_byte = format_nat-ne-nil n;
  no_space = IsDigit-NoSpace (format_nat n) (format_nat-All n);
}
format_int-IsWord (negsuc n) = record {
  some_byte = refl;
  no_space =
      (unfold is_space in refl, IsDigit-NoSpace (format_nat (suc n)) (format_nat-All (suc n)));
}

in_int64-IsInt64 : (neg : Bool) (o : Option ℕ) (z : ℤ) → in_int64 neg o ≡ some z → IsInt64 z
unfolding in_int64
in_int64-IsInt64 neg none z h = cc
in_int64-IsInt64 false (some n) (pos m) h = ground arith
in_int64-IsInt64 false (some n) (negsuc m) h = ground arith
in_int64-IsInt64 true (some zero) (pos m) h = ground arith
in_int64-IsInt64 true (some zero) (negsuc m) h = ground arith
in_int64-IsInt64 true (some (suc n)) (pos m) h = ground arith
in_int64-IsInt64 true (some (suc n)) (negsuc m) h = ground arith

-- What ParseInt returns is an int64.
pub parse_int-IsInt64 : (s : Text) (z : ℤ) → parse_int s ≡ some z → IsInt64 z
unfolding parse_int
parse_int-IsInt64 [] z h = cc
parse_int-IsInt64 (c ∷ s) z h = elim (Bool-cases (c == b'-')) [
  | inl minus ↦ in_int64-IsInt64 true (parse_digits s) z (rw (minus, parse_int) at h)
  | inr other ↦ elim (Bool-cases (c == b'+')) [
    | inl plus ↦ in_int64-IsInt64 false (parse_digits s) z (rw (other, plus, parse_int) at h)
    | inr digit ↦
        in_int64-IsInt64 false (parse_digits (c ∷ s)) z (rw (other, digit, parse_int) at h)
  ]
]

-- ===== src/Text/Atoi.antt =====
-- strconv.Atoi and strconv.ParseUint(s, 10, 32) with the number that they return beside an error.
use namedor.Common.{
  ℕ, zero, suc, ◌+◌, ◌-◌, ◌*◌, ◌^◌, ◌≤◌, ◌≡◌, refl, Bool, true, false, ◌&&◌, Option, none, some, [],
  ◌∷◌, is_empty, leb, ◌==◌, if◌then◌else◌, arith, ℤ, pos, negsuc, All,
}
use namedor.Text.{Text}
use namedor.Text.Decimal.{
  scan, parse_digits, max_int64, format_nat, parse_digits-format_nat, IsDigit, format_nat-All,
  format_int, IsInt64,
}

-- A syntax error, a number out of range, or a number.
pub data Number : Type 0 where
  bad : Number
  too_big : Number
  number : ℕ → Number

-- The loop of ParseUint, which stops at the first digit that leads out of the range.
unfoldable pub scan_max : ℕ → Text → ℕ → Number
scan_max max [] n = number n
scan_max max (c ∷ s) n =
    let m = n * 10 + (c - b'0') in
    let rest = scan_max max s m in
    if leb b'0' c && leb c b'9' then (if leb m max then rest else too_big) else bad

unfoldable pub parse_max : ℕ → Text → Number
unfolding scan_max
parse_max max s = if is_empty s then bad else scan_max max s 0

abbrev pub max_uint32 : ℕ
max_uint32 = 2 ^ 32 - 1

abbrev pub max_uint64 : ℕ
max_uint64 = 2 ^ 64 - 1

-- ParseUint(s, 10, 32): the number where there is no error.
unfoldable pub parse_uint32 : Text → Option ℕ
unfolding parse_max
parse_uint32 s = elim (parse_max max_uint32 s) [ bad ↦ none | too_big ↦ none | number n ↦ some n ]

-- The number that it returns where the error is not looked at.
unfoldable pub uint32_value : Text → ℕ
unfolding parse_max
uint32_value s = elim (parse_max max_uint32 s) [ bad ↦ 0 | too_big ↦ max_uint32 | number n ↦ n ]

unfoldable pub clamp : Bool → Number → ℤ
clamp neg bad = pos 0
clamp false too_big = pos max_int64
clamp true too_big = negsuc max_int64
clamp false (number n) = if leb n max_int64 then pos n else pos max_int64
clamp true (number zero) = pos 0
clamp true (number (suc n)) = if leb n max_int64 then negsuc n else negsuc max_int64

-- The number that Atoi returns where the error is not looked at.
unfoldable pub atoi : Text → ℤ
unfolding clamp parse_max
atoi [] = pos 0
atoi (c ∷ s) =
    if c == b'-'
    then clamp true (parse_max max_uint64 s)
    else if c == b'+'
    then clamp false (parse_max max_uint64 s)
    else clamp false (parse_max max_uint64 (c ∷ s))

scan-le : (s : Text) (n m : ℕ) → scan s n ≡ some m → n ≤ m
unfolding scan
scan-le [] n m e = let same : n ≡ m = cc in omega arith
scan-le (c ∷ s) n m e = ground (arith, scan-le s (n * 10 + (c - b'0')) m)

scan_max-number :
    (max : ℕ) (s : Text) (n m : ℕ) → scan s n ≡ some m → m ≤ max → scan_max max s n ≡ number m
unfolding scan scan_max
scan_max-number max [] n m e h = cc
scan_max-number max (c ∷ s) n m e h =
    ground (arith, scan-le s (n * 10 + (c - b'0')) m, scan_max-number max s (n * 10 + (c - b'0')) m)

-- What is parsed and in the range is the number.
pub parse_max-number :
    (max : ℕ) (s : Text) (m : ℕ) → parse_digits s ≡ some m → m ≤ max → parse_max max s ≡ number m
unfolding parse_digits parse_max
parse_max-number max [] m e h = cc
parse_max-number max (c ∷ s) m e h = scan_max-number max (c ∷ s) 0 m e h

atoi-digits :
    (s : Text) (n : ℕ) → All IsDigit s → parse_digits s ≡ some n → n ≤ max_int64 → atoi s ≡ pos n
unfolding atoi clamp parse_digits
atoi-digits [] n d e h = cc
atoi-digits (c ∷ s) n ((low, high), d) e h =
    let plus : (c == b'+') ≡ false = ground arith in
    let minus : (c == b'-') ≡ false = ground arith in
    let fits : leb n max_int64 ≡ true = ground arith in
    rw (plus, minus, parse_max-number max_uint64 (c ∷ s) n e (omega arith)) (rw (clamp, fits) refl)

-- A number that is printed is read back.
pub atoi-format_nat : (n : ℕ) → n ≤ max_int64 → atoi (format_nat n) ≡ pos n
atoi-format_nat n h = atoi-digits (format_nat n) n (format_nat-All n) (parse_digits-format_nat n) h

-- And so is a negative one.
pub atoi-format_int : (z : ℤ) → IsInt64 z → atoi (format_int z) ≡ z
unfolding format_int atoi
atoi-format_int (pos n) h = atoi-format_nat n (omega arith)
atoi-format_int (negsuc n) h =
    let fits : leb n max_int64 ≡ true = ground arith in
    let digits =
      parse_max-number max_uint64 (format_nat (suc n)) (suc n) (parse_digits-format_nat (suc n))
        (omega arith) in
    rw (atoi, digits) (rw (clamp, fits) refl)

pub parse_uint32-format_nat : (n : ℕ) → n ≤ max_uint32 → parse_uint32 (format_nat n) ≡ some n
unfolding parse_uint32
parse_uint32-format_nat n h =
    rw (parse_uint32, parse_max-number max_uint32 (format_nat n) n (parse_digits-format_nat n) h)
      refl

pub uint32_value-format_nat : (n : ℕ) → n ≤ max_uint32 → uint32_value (format_nat n) ≡ n
unfolding uint32_value
uint32_value-format_nat n h =
    rw (uint32_value, parse_max-number max_uint32 (format_nat n) n (parse_digits-format_nat n) h)
      refl

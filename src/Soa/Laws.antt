-- ===== src/Soa/Laws.antt =====
-- What a bump does to the data of the SOA record.
use mathlib.Core.Path.{subst}
use namedor.Common.{
  ◌+◌, ◌≤◌, ◌≡◌, ap, ◌∙◌, ℤ, pos, negsuc, false, Option, none, some, List, ◌∷◌, length, ltb, arith,
  All, Bool-cases, inl, inr, zero, suc, ◌==◌,
}
use namedor.Text.{Text}
use namedor.Text.Words.{fields, join, fields-join, fields-IsWord, IsWord}
use namedor.Text.Decimal.{
  parse_int, format_int, incr_int64, max_int64, IsInt64, parse_int-format_int, format_int-IsWord,
  parse_int-IsInt64,
}
use namedor.Soa.{next_serial, bump_parts, bump_data}

incr_int64-IsInt64 : (z : ℤ) → IsInt64 z → IsInt64 (incr_int64 z)
unfolding incr_int64
incr_int64-IsInt64 (pos n) h = elim (Bool-cases (n == max_int64)) [
  | inl e ↦ rw e (omega arith)
  | inr e ↦ let small : n + 1 ≤ max_int64 = ground arith in rw e small
]
incr_int64-IsInt64 (negsuc zero) h = omega arith
incr_int64-IsInt64 (negsuc (suc n)) h = omega arith

-- A serial that is an int64 becomes the next one; after the largest int64 it wraps to the smallest.
parse_int-next_serial :
    (now z : ℤ) (serial : Text)
    → parse_int serial ≡ some z
    → parse_int (next_serial now serial) ≡ some (incr_int64 z)
unfolding next_serial
parse_int-next_serial now z serial h =
    rw (h, next_serial)
      (parse_int-format_int (incr_int64 z) (incr_int64-IsInt64 z (parse_int-IsInt64 serial z h)))

next_serial-IsWord : (now : ℤ) (serial : Text) → IsWord (next_serial now serial)
unfolding next_serial
next_serial-IsWord now serial = go (parse_int serial)
  where
    go :
        (o : Option ℤ)
        → IsWord (elim o [ none ↦ format_int now | some n ↦ format_int (incr_int64 n) ])
    go none = format_int-IsWord now
    go (some n) = format_int-IsWord (incr_int64 n)

bump_parts-eq :
    (now : ℤ) (primary hostmaster serial : Text) (rest : List Text)
    → 4 ≤ length rest
    → bump_parts now (primary ∷ hostmaster ∷ serial ∷ rest)
      ≡ some (join (primary ∷ hostmaster ∷ next_serial now serial ∷ rest))
unfolding bump_parts
bump_parts-eq now primary hostmaster serial rest long =
    let enough : ltb (length (primary ∷ hostmaster ∷ serial ∷ rest)) 7 ≡ false = ground arith in
    rw enough

bump_data-eq :
    (now : ℤ) (content primary hostmaster serial : Text) (rest : List Text)
    → fields content ≡ primary ∷ hostmaster ∷ serial ∷ rest
    → 4 ≤ length rest
    → bump_data now content ≡ some (join (primary ∷ hostmaster ∷ next_serial now serial ∷ rest))
unfolding bump_data
bump_data-eq now content primary hostmaster serial rest e long =
    ap (bump_parts now) e ∙ bump_parts-eq now primary hostmaster serial rest long

-- Data with a primary, a hostmaster, a serial and at least four more fields is bumped, the serial is
-- the only field that changes, and a serial n that is an int64 becomes n + 1 (which wraps to the
-- smallest int64 after the largest).
pub bump_data-fields :
    (now z : ℤ) (content primary hostmaster serial : Text) (rest : List Text)
    → fields content ≡ primary ∷ hostmaster ∷ serial ∷ rest
    → 4 ≤ length rest
    → parse_int serial ≡ some z
    → (content' : Text) × (bump_data now content ≡ some content')
      × (fields content' ≡ primary ∷ hostmaster ∷ next_serial now serial ∷ rest)
      × (parse_int (next_serial now serial) ≡ some (incr_int64 z))
bump_data-fields now z content primary hostmaster serial rest e long h =
    let words : All IsWord (primary ∷ hostmaster ∷ serial ∷ rest) =
      subst (All IsWord) e (fields-IsWord content) in
    let new_words : All IsWord (primary ∷ hostmaster ∷ next_serial now serial ∷ rest) =
      (words.0, (words.1.0, (next_serial-IsWord now serial, words.1.1.1))) in
    (
      join (primary ∷ hostmaster ∷ next_serial now serial ∷ rest),
      bump_data-eq now content primary hostmaster serial rest e long,
      fields-join _ new_words,
      parse_int-next_serial now z serial h,
    )

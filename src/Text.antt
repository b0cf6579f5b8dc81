-- ===== src/Text.antt =====
-- Go strings as lists of bytes, and the functions of package `strings` that the program calls.
-- The program's names, types, modes and codes are ASCII, where letter case and white space are
-- those of these definitions; a byte above 127 is left as it is.
pub mod Laws
pub mod Affix
pub mod Words
pub mod Decimal
pub mod Atoi
use Prim.Native.Char.{code}
use Prim.Native.String.{String}
use namedor.Common.{
  zero, suc, length, any, ℕ, ◌+◌, ◌-◌, ◌≡◌, refl, ◌↔◌, Bool, true, false, not, ◌&&◌, ◌||◌, List, [],
  ◌∷◌, ◌++◌, map, leb, ◌==◌, if◌then◌else◌, arith,
}
use mathlib.Core.List.{reverse}

abbrev pub Text : Type 0
Text = List ℕ

-- A literal.
abbrev pub codes : String → Text
codes String.[] = []
codes (String.◌∷◌ c s) = code c ∷ codes s

unfoldable pub text_eq : Text → Text → Bool
text_eq [] [] = true
text_eq [] (d ∷ t) = false
text_eq (c ∷ s) [] = false
text_eq (c ∷ s) (d ∷ t) = c == d && text_eq s t

unfoldable pub lower : ℕ → ℕ
lower c = if leb b'A' c && leb c b'Z' then c + 32 else c

unfoldable pub upper : ℕ → ℕ
upper c = if leb b'a' c && leb c b'z' then c - 32 else c

-- strings.ToLower, strings.ToUpper
unfoldable pub to_lower : Text → Text
unfolding lower
to_lower s = map lower s

unfoldable pub to_upper : Text → Text
unfolding upper
to_upper s = map upper s

-- strings.EqualFold
unfoldable pub equal_fold : Text → Text → Bool
unfolding text_eq to_lower
equal_fold s t = text_eq (to_lower s) (to_lower t)

-- strings.HasSuffix
unfoldable pub has_suffix : Text → Text → Bool
unfolding text_eq
has_suffix [] suffix = text_eq [] suffix
has_suffix (c ∷ s) suffix = text_eq (c ∷ s) suffix || has_suffix s suffix

-- strings.TrimSuffix
unfoldable pub trim_suffix : Text → Text → Text
unfolding text_eq
trim_suffix [] suffix = []
trim_suffix (c ∷ s) suffix =
    let rest = trim_suffix s suffix in if text_eq (c ∷ s) suffix then [] else c ∷ rest

-- strings.HasPrefix
unfoldable pub has_prefix : Text → Text → Bool
has_prefix s [] = true
has_prefix [] (d ∷ prefix) = false
has_prefix (c ∷ s) (d ∷ prefix) = c == d && has_prefix s prefix

unfoldable pub drop_prefix : Text → Text → Text
drop_prefix s [] = s
drop_prefix [] (d ∷ prefix) = []
drop_prefix (c ∷ s) (d ∷ prefix) = drop_prefix s prefix

-- strings.TrimPrefix
unfoldable pub trim_prefix : Text → Text → Text
unfolding has_prefix drop_prefix
trim_prefix s prefix = if has_prefix s prefix then drop_prefix s prefix else s

-- strings.Contains
unfoldable pub contains : Text → Text → Bool
unfolding has_prefix
contains [] part = has_prefix [] part
contains (c ∷ s) part = has_prefix (c ∷ s) part || contains s part

-- strings.ReplaceAll, for a text to replace that is not empty; `skip` is what is left of a match.
unfoldable pub replace_from : Text → Text → ℕ → Text → Text
unfolding has_prefix
replace_from old new skip [] = []
replace_from old new (suc skip) (c ∷ s) = replace_from old new skip s
replace_from old new zero (c ∷ s) =
    let after = replace_from old new (length old - 1) s in
    let kept = replace_from old new zero s in
    if has_prefix (c ∷ s) old then new ++ after else c ∷ kept

unfoldable pub replace_all : Text → Text → Text → Text
unfolding replace_from
replace_all s old new = replace_from old new zero s

-- The text before the first byte of a set, as IndexAny and a slice give it.
unfoldable pub before_any : Text → Text → Text
before_any [] set = []
before_any (c ∷ s) set =
    let rest = before_any s set in if any (λ d. c == d) set then [] else c ∷ rest

-- unicode.IsSpace, below 128
unfoldable pub is_space : ℕ → Bool
is_space c = c == 32 || (leb 9 c && leb c 13)

unfoldable pub trim_left : Text → Text
unfolding is_space
trim_left [] = []
trim_left (c ∷ s) = let rest = trim_left s in if is_space c then rest else c ∷ s

-- strings.TrimSpace
unfoldable pub trim_space : Text → Text
unfolding trim_left
trim_space s = reverse (trim_left (reverse (trim_left s)))

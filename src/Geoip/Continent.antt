-- ===== src/Geoip/Continent.antt =====
-- continentFromCountry of internal/geoip/geoip.go: a table of countries, and a guess by the first
-- letter.
use namedor.Common.{Bool, true, false, ◌&&◌, ◌||◌, List, [], ◌∷◌, any, ltb, ◌==◌, if◌then◌else◌}
use namedor.Text.{Text, codes, text_eq}

unfoldable pub is_one_of : Text → List Text → Bool
is_one_of code table = any (text_eq code) table

abbrev north_america : List Text
north_america = codes "US" ∷ codes "CA" ∷ codes "MX" ∷ []

abbrev europe : List Text
europe =
    codes "GB" ∷ codes "FR" ∷ codes "DE" ∷ codes "IT" ∷ codes "ES" ∷ codes "NL" ∷ codes "RU" ∷ []

abbrev asia : List Text
asia = codes "CN" ∷ codes "JP" ∷ codes "IN" ∷ codes "KR" ∷ codes "SG" ∷ []

abbrev south_america : List Text
south_america = codes "BR" ∷ codes "AR" ∷ codes "CL" ∷ []

abbrev oceania : List Text
oceania = codes "AU" ∷ codes "NZ" ∷ []

abbrev africa : List Text
africa = codes "ZA" ∷ codes "EG" ∷ codes "NG" ∷ []

-- Go's order of strings.
unfoldable pub text_le : Text → Text → Bool
text_le [] t = true
text_le (c ∷ s) [] = false
text_le (c ∷ s) (d ∷ t) = ltb c d || (c == d && text_le s t)

abbrev european_letters : Text
european_letters = codes "DEFGHILMNPRSTUV"

-- The switch on the first letter of a code of at least two.
unfoldable pub guess : Text → Text
unfolding text_le
guess [] = []
guess (c ∷ []) = []
guess (c ∷ d ∷ rest) =
    if c == b'A'
    then (if text_le (codes "AF") (c ∷ d ∷ rest) && text_le (c ∷ d ∷ rest) (codes "AZ")
        then codes "AS"
        else codes "AF")
    else if c == b'B' || c == b'C'
    then codes "SA"
    else if any (λ x. x == c) european_letters
    then codes "EU"
    else []

unfoldable pub continent_from_country : Text → Text
unfolding is_one_of guess
continent_from_country code =
    if is_one_of code north_america
    then codes "NA"
    else if is_one_of code europe
    then codes "EU"
    else if is_one_of code asia
    then codes "AS"
    else if is_one_of code south_america
    then codes "SA"
    else if is_one_of code oceania
    then codes "OC"
    else if is_one_of code africa
    then codes "AF"
    else guess code

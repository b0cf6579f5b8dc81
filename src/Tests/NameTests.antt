-- ===== src/Tests/NameTests.antt =====
-- Names and SOA data on small inputs.
use namedor.Common.{◌≡◌, refl, false, some, List, [], ◌∷◌, ◌++◌, arith, pos}
use namedor.Text.{Text, codes, to_lower, has_suffix, trim_space}
use namedor.Text.Words.{fields, join}
use namedor.Text.Decimal.{parse_int, format_int, incr_int64}
use namedor.Names.{fqdn, to_fqdn, origin, is_apex, dot, dot_at}
use namedor.Names.Laws.{IsLower, fqdn_absolute, to_fqdn-eq-fqdn}
use namedor.Soa.{next_serial, bump_data}
use namedor.Soa.Laws.{bump_data-fields}

www : fqdn (codes "WWW") (codes "Example.com.") ≡ codes "www.example.com."
unfolding fqdn
www = refl

plain_end : has_suffix (codes "www.example.com" ++ dot) dot_at ≡ false
unfolding has_suffix
plain_end = refl

not_apex : is_apex (codes "www.example.com") ≡ false
unfolding is_apex
not_apex = refl

abbrev lower_www : IsLower (codes "www.example.com")
unfolding to_lower
lower_www = (
  refl,
  (
    refl,
    (
      refl,
      (
        refl,
        (refl, (refl, (refl, (refl, (refl, (refl, (refl, (refl, (refl, (refl, (refl, tt))))))))))),
      ),
    ),
  ),
)

no_space : trim_space (codes "www.example.com" ++ dot) ≡ codes "www.example.com" ++ dot
unfolding trim_space
no_space = refl

fqdn_absolute_example :
    (to_fqdn (codes "www.example.com" ++ dot) (codes "example.com")
      ≡ codes "www.example.com" ++ dot)
    × (fqdn (codes "www.example.com" ++ dot) (codes "example.com")
        ≡ codes "www.example.com" ++ dot ++ origin (codes "example.com") ++ dot)
fqdn_absolute_example =
    fqdn_absolute (codes "www.example.com") (codes "example.com") lower_www no_space plain_end
      not_apex

trimmed : trim_space (to_lower (codes "mail")) ≡ to_lower (codes "mail")
unfolding trim_space to_lower
trimmed = refl

mail_plain : has_suffix (to_lower (codes "mail")) dot_at ≡ false
unfolding has_suffix to_lower
mail_plain = refl

mail_relative : has_suffix (to_lower (codes "mail")) dot ≡ false
unfolding has_suffix to_lower
mail_relative = refl

to_fqdn-eq-fqdn_example :
    to_fqdn (codes "mail") (codes "example.com") ≡ fqdn (codes "mail") (codes "example.com")
to_fqdn-eq-fqdn_example =
    to_fqdn-eq-fqdn (codes "mail") (codes "example.com") trimmed mail_plain mail_relative

abbrev soa : Text
soa = codes "ns1.a. host.a. 2025010109  7200 3600 1209600 300"

abbrev rest : List Text
rest = codes "7200" ∷ codes "3600" ∷ codes "1209600" ∷ codes "300" ∷ []

soa_words : fields soa ≡ codes "ns1.a." ∷ codes "host.a." ∷ codes "2025010109" ∷ rest
unfolding fields
soa_words = refl

serial : parse_int (codes "2025010109") ≡ some (pos 2025010109)
unfolding parse_int
serial = refl

soa_bumped : bump_data (pos 0) soa ≡ some (codes "ns1.a. host.a. 2025010110 7200 3600 1209600 300")
unfolding bump_data fields join next_serial parse_int format_int incr_int64
soa_bumped = refl

bump_data-fields_example :
    (content' : Text) × (bump_data (pos 0) soa ≡ some content')
    × (fields content'
        ≡ codes "ns1.a." ∷ codes "host.a." ∷ next_serial (pos 0) (codes "2025010109") ∷ rest)
    × (parse_int (next_serial (pos 0) (codes "2025010109")) ≡ some (incr_int64 (pos 2025010109)))
bump_data-fields_example =
    bump_data-fields (pos 0) (pos 2025010109) soa (codes "ns1.a.") (codes "host.a.")
      (codes "2025010109") rest soa_words (omega arith) serial

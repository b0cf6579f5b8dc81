-- ===== src/Soa.antt =====
-- internal/db/soa.go: the serial of a zone's SOA record after a change. The time, in seconds since
-- 1970, is an argument.
pub mod Laws
use namedor.Common.{
  ℕ, ℤ, Bool, true, false, Option, none, some, List, [], ◌∷◌, ◌++◌, length, ltb, if◌then◌else◌,
}
use namedor.Text.{Text, codes}
use namedor.Text.Words.{fields, join}
use namedor.Text.Decimal.{parse_int, format_int, incr_int64}
use namedor.Names.{origin, dot}
use namedor.Model.{Zone, RrSet, RData}
use namedor.Gorm.{Gorm, ok, err}

-- The new text of the serial: one more, or the time where the old one is no number.
unfoldable pub next_serial : ℤ → Text → Text
next_serial now serial = elim (parse_int serial) [
  | none ↦ format_int now
  | some n ↦ format_int (incr_int64 n)
]

unfoldable pub bump_parts : ℤ → List Text → Option Text
bump_parts now (primary ∷ hostmaster ∷ serial ∷ rest) =
    if ltb (length (primary ∷ hostmaster ∷ serial ∷ rest)) 7
    then none
    else some (join (primary ∷ hostmaster ∷ next_serial now serial ∷ rest))
bump_parts now _ = none

-- The new data of the SOA record; `none` where it has fewer than seven fields and is left alone.
unfoldable pub bump_data : ℤ → Text → Option Text
unfolding bump_parts
bump_data now content = bump_parts now (fields content)

-- The data of a default SOA record.
unfoldable pub default_soa : ℤ → Text → Text
default_soa now apex = join (
    (codes "ns1." ++ apex)
    ∷ (codes "hostmaster." ++ apex)
    ∷ format_int now
    ∷ codes "7200"
    ∷ codes "3600"
    ∷ codes "1209600"
    ∷ codes "300"
    ∷ [])

abbrev pub new_record : Text → RData
new_record content = record {
  id = 0;
  rr_set_id = 0;
  content = content;
  country = none;
  continent = none;
  asn = none;
  subnet = none;
  deleted = false;
}

unfoldable pub default_set : ℤ → Zone → RrSet
unfolding default_soa
default_set now zone =
    let apex = origin zone.name ++ dot in
    record {
      id = 0;
      zone_id = zone.id;
      name = apex;
      type = codes "SOA";
      ttl = 3600;
      records = new_record (default_soa now apex) ∷ [];
      deleted = false;
    }

module _ (gorm : Gorm) (now : ℤ) where
  unfoldable pub bump_record : RData → gorm.Db → gorm.Db
  unfolding bump_data
  bump_record r db = elim (bump_data now r.content) [
    | none ↦ db
    | some content ↦ (gorm.update_data r.id content db).1
  ]

  -- The records of the SOA set that was found; none where there is no set.
  unfoldable pub soa_records : Option RrSet → List RData
  soa_records none = []
  soa_records (some soa) = soa.records

  unfoldable pub bump_first : gorm.Db → List RData → gorm.Db
  unfolding bump_record
  bump_first db [] = db
  bump_first db (r ∷ _) = bump_record r db

  unfoldable pub bump_soa_serial : ℕ → gorm.Db → gorm.Db
  unfolding bump_first soa_records
  bump_soa_serial zone_id db = elim (gorm.find_soa zone_id db) [
    | err e ↦ db
    | ok soa ↦ bump_first db (soa_records soa)
  ]

  unfoldable pub bump_or_create : Zone → Bool → gorm.Db → List RData → gorm.Db
  unfolding bump_record
  bump_or_create zone auto db [] =
      if auto then (gorm.create_rrset (default_set now zone) db).1 else db
  bump_or_create zone auto db (r ∷ _) = bump_record r db

  unfoldable pub bump_soa_serial_auto : Zone → Bool → gorm.Db → gorm.Db
  unfolding bump_or_create soa_records
  bump_soa_serial_auto zone auto db = elim (gorm.find_soa zone.id db) [
    | err e ↦ db
    | ok soa ↦ bump_or_create zone auto db (soa_records soa)
  ]

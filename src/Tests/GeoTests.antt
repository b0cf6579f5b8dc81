-- ===== src/Tests/GeoTests.antt =====
-- The selection of records on a small set.
use namedor.Common.{◌≡◌, refl, true, none, some, List, [], ◌∷◌, Option, pos, if◌then◌else◌}
use namedor.Text.{Text, codes, text_eq, equal_fold}
use namedor.Net.{Addr, Prefix, v4, contains, is_valid}
use namedor.Model.{RData}
use namedor.Geo.{Info, subnet, country, place, select_geo_records}
use namedor.Geo.Spec.{select_by_tier}
use namedor.Geo.Laws.{IsBest, select_geo_records-eq-select_by_tier, select_geo_records-IsBest}
use namedor.Tests.Memory.{plain_record}

-- 10.0.0.0/8 is the one prefix that this parser knows.
abbrev parse_prefix : Text → Option Prefix
parse_prefix s =
    if text_eq s (codes "10.0.0.0/8")
    then some (record { base = v4 0x0a000000; bits = 8 })
    else none

abbrev local_record : RData
local_record = record (plain_record (codes "10.0.0.5")) { subnet = some (codes "10.0.0.0/8") }

abbrev german : RData
german = record (plain_record (codes "192.0.2.9")) { country = some (codes "de") }

abbrev records : List RData
records = plain_record (codes "192.0.2.1") ∷ german ∷ local_record ∷ []

abbrev germany : Info
germany = record { country = codes "DE"; continent = codes "EU"; asn = pos 3320 }

abbrev client : Addr
client = v4 0x0a010203

subnet_first : select_geo_records parse_prefix records client germany ≡ (local_record ∷ [], subnet)
unfolding select_geo_records contains is_valid place text_eq equal_fold
subnet_first = refl

country_next :
    select_geo_records parse_prefix records (v4 0x0b000001) germany ≡ (german ∷ [], country)
unfolding select_geo_records contains is_valid place text_eq equal_fold
country_next = refl

select_geo_records-eq-select_by_tier_example :
    select_geo_records parse_prefix records client germany
    ≡ select_by_tier parse_prefix client germany records
select_geo_records-eq-select_by_tier_example =
    select_geo_records-eq-select_by_tier parse_prefix client germany records

valid : is_valid client ≡ true
unfolding is_valid
valid = refl

select_geo_records-IsBest_example :
    IsBest parse_prefix client germany records
      (select_geo_records parse_prefix records client germany)
select_geo_records-IsBest_example =
    select_geo_records-IsBest parse_prefix client germany records valid refl

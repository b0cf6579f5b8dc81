-- ===== src/Geo.antt =====
-- selectGeoRecords of internal/server/dns/server.go: which records of a set answer a client, by its
-- address and by what the GeoIP provider says of it.
pub mod Spec
pub mod Laws
use namedor.Common.{
  ℕ, ℤ, Bool, true, false, not, ◌&&◌, Option, none, some, List, [], ◌∷◌, ◌++◌, is_empty, is_none,
  is_zero, int_eq, if◌then◌else◌,
}
use namedor.Text.{Text, text_eq, equal_fold}
use namedor.Net.{Addr, Prefix, is_valid, contains}
use namedor.Model.{RData}

-- geoip.Info
pub record Info : Type 0 where
  pub country : Text
  pub continent : Text
  pub asn : ℤ

-- The rule that chose the records: the string beside them.
pub data Rule : Type 0 where
  nothing subnet asn country continent generic all : Rule

-- The five lists that the loop fills.
pub record Buckets : Type 0 where
  pub subnet_match : List RData
  pub asn_match : List RData
  pub country_match : List RData
  pub continent_match : List RData
  pub generic_match : List RData

abbrev pub no_buckets : Buckets
no_buckets = record {
  subnet_match = [];
  asn_match = [];
  country_match = [];
  continent_match = [];
  generic_match = [];
}

-- A record with no target.
unfoldable pub is_generic : RData → Bool
is_generic r = is_none r.country && is_none r.continent && is_none r.asn && is_none r.subnet

-- `r.Country != nil && g.Country != "" && EqualFold(*r.Country, g.Country)`, and so for continents.
unfoldable pub code_matches : Option Text → Text → Bool
code_matches none found = false
code_matches (some code) found = not (is_empty found) && equal_fold code found

unfoldable pub asn_matches : Option ℤ → ℤ → Bool
asn_matches none found = false
asn_matches (some n) found = not (is_zero found) && int_eq n found

-- netip.ParsePrefix is an argument.
module _ (parse_prefix : Text → Option Prefix) where
  unfoldable pub subnet_matches : Option Text → Addr → Bool
  subnet_matches none ip = false
  subnet_matches (some s) ip = elim (parse_prefix s) [
    | none ↦ false
    | some p ↦ contains p.base p.bits ip
  ]

  -- One round of the loop.
  unfoldable pub place : Addr → Info → Buckets → RData → Buckets
  unfolding subnet_matches asn_matches code_matches is_generic
  place ip g b r =
      if subnet_matches r.subnet ip
      then record b { subnet_match = b.subnet_match ++ r ∷ [] }
      else if asn_matches r.asn g.asn
      then record b { asn_match = b.asn_match ++ r ∷ [] }
      else if code_matches r.country g.country
      then record b { country_match = b.country_match ++ r ∷ [] }
      else if code_matches r.continent g.continent
      then record b { continent_match = b.continent_match ++ r ∷ [] }
      else if is_generic r
      then record b { generic_match = b.generic_match ++ r ∷ [] }
      else b

  unfoldable pub place_all : Addr → Info → Buckets → List RData → Buckets
  place_all ip g b [] = b
  place_all ip g b (r ∷ recs) = place_all ip g (place ip g b r) recs

  -- The first list that is not empty.
  unfoldable pub choose : Buckets → List RData → List RData × Rule
  choose b recs =
      if not (is_empty b.subnet_match)
      then (b.subnet_match, subnet)
      else if not (is_empty b.asn_match)
      then (b.asn_match, asn)
      else if not (is_empty b.country_match)
      then (b.country_match, country)
      else if not (is_empty b.continent_match)
      then (b.continent_match, continent)
      else if not (is_empty b.generic_match)
      then (b.generic_match, generic)
      else (recs, all)

  -- The loop for a client with no address.
  unfoldable pub generic_records : List RData → List RData
  unfolding is_generic
  generic_records [] = []
  generic_records (r ∷ recs) =
      let rest = generic_records recs in if is_generic r then r ∷ rest else rest

  unfoldable pub select_geo_records : List RData → Addr → Info → List RData × Rule
  unfolding place_all choose generic_records
  select_geo_records recs ip g =
      if is_empty recs
      then (recs, nothing)
      else if not (is_valid ip)
      then (let out = generic_records recs in
          if not (is_empty out) then (out, generic) else (recs, all))
      else choose (place_all ip g no_buckets recs) recs

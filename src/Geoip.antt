-- ===== src/Geoip.antt =====
-- internal/geoip/geoip.go: which database file serves which kind of address, and what a lookup makes
-- of it. The readers of MMDB files are the interface `Library`; the file system is an argument: what
-- `load` finds at its path.
pub mod Continent
pub mod Laws
pub mod Download
pub mod Provider
use namedor.Common.{
  ℕ, pos, Bool, true, false, not, ◌&&◌, ◌||◌, Option, none, some, List, [], ◌∷◌, is_none, is_empty,
  if◌then◌else◌, ℤ,
}
use namedor.Text.{Text, codes, to_lower, contains, has_suffix}
use namedor.Net.{Addr, is_6}
use namedor.Geo.{Info}
use namedor.Geoip.Continent.{continent_from_country}

-- The two packages that read MMDB files. A query that fails is `none`; a country is its code with
-- the code of its continent.
pub record Library : Type 1 where
  pub Handle : Type 0
  pub city : Handle → Addr → Option (Text × Text)
  pub country : Handle → Addr → Option (Text × Text)
  pub asn : Handle → Addr → Option ℕ
  pub raw_country_code : Handle → Addr → Option Text
  pub raw_country : Handle → Addr → Option (Text × Text)
  pub raw_asn : Handle → Addr → Option ℕ

pub data Kind : Type 0 where
  countries networks : Kind

abbrev pub or_else : {A : Type 0} → Option A → Option A → Option A
or_else none b = b
or_else (some a) b = some a

module _ (lib : Library) where
  -- dbReader: a reader of one of the two packages, with the type of its database.
  pub data DbReader : Type 0 where
    geoip2_reader : lib.Handle → (db_type : Text) → DbReader
    raw_reader : lib.Handle → (db_type : Text) → DbReader

  pub record Maxmind : Type 0 where
    pub country4 : Option DbReader
    pub country6 : Option DbReader
    pub asn4 : Option DbReader
    pub asn6 : Option DbReader

  unfoldable pub type_of : DbReader → Text
  type_of (geoip2_reader h db_type) = db_type
  type_of (raw_reader h db_type) = db_type

  unfoldable pub reader_for : Maxmind → Addr → Kind → Option DbReader
  reader_for m ip countries =
      if is_6 ip then or_else m.country6 m.country4 else or_else m.country4 m.country6
  reader_for m ip networks = if is_6 ip then or_else m.asn6 m.asn4 else or_else m.asn4 m.asn6

  abbrev pub no_country : Text × Text
  no_country = ([], [])

  abbrev pub or_no_country : Option (Text × Text) → Text × Text
  or_no_country none = no_country
  or_no_country (some found) = found

  abbrev pub derived : Text → Text × Text
  derived code = (code, continent_from_country code)

  -- The record of DBIP, where it has a country, or that of MaxMind.
  unfoldable pub raw_codes : lib.Handle → Addr → Option Text → Text × Text
  raw_codes h ip none = or_no_country (lib.raw_country h ip)
  raw_codes h ip (some code) =
      if is_empty code then or_no_country (lib.raw_country h ip) else derived code

  unfoldable pub country_codes : Option DbReader → Addr → Text × Text
  unfolding raw_codes
  country_codes none ip = no_country
  country_codes (some (geoip2_reader h db_type)) ip =
      or_no_country (if contains db_type (codes "city") then lib.city h ip else lib.country h ip)
  country_codes (some (raw_reader h db_type)) ip = raw_codes h ip (lib.raw_country_code h ip)

  abbrev pub or_zero : Option ℕ → ℤ
  or_zero none = pos 0
  or_zero (some n) = pos n

  unfoldable pub network_number : Option DbReader → Addr → ℤ
  network_number none ip = pos 0
  network_number (some (geoip2_reader h db_type)) ip = or_zero (lib.asn h ip)
  network_number (some (raw_reader h db_type)) ip = or_zero (lib.raw_asn h ip)

  unfoldable pub lookup_info : Maxmind → Addr → Info
  unfolding reader_for country_codes network_number
  lookup_info m ip =
      let (country, continent) = country_codes (reader_for m ip countries) ip in
      record {
        country = country;
        continent = continent;
        asn = network_number (reader_for m ip networks) ip;
      }

  unfoldable pub is_6_hint : Text → Bool
  is_6_hint name =
      contains name (codes "ipv6")
      || contains name (codes "-6")
      || contains name (codes "_6")
      || contains name (codes "-v6")
      || has_suffix name (codes "6.mmdb")

  unfoldable pub has_networks : Text → Text → Bool
  has_networks db_type name = contains db_type (codes "asn") || contains name (codes "asn")

  unfoldable pub has_countries : Text → Text → Bool
  has_countries db_type name =
      contains db_type (codes "country")
      || contains name (codes "country")
      || contains db_type (codes "city")
      || contains name (codes "city")

  -- Where the reader of a file goes; `name` is in lower case.
  unfoldable pub store_reader : Text → DbReader → Maxmind → Maxmind
  unfolding is_6_hint has_networks has_countries type_of
  store_reader name r m =
      if has_networks (type_of r) name
      then (if is_6_hint name then record m { asn6 = some r } else record m { asn4 = some r })
      else if has_countries (type_of r) name
      then (if is_6_hint name
          then record m { country6 = some r }
          else record m { country4 = some r })
      else m

  -- An entry of the directory, with the reader of the file where one of the packages opens it.
  pub record Entry : Type 0 where
    pub name : Text
    pub is_dir : Bool
    pub reader : Option DbReader

  abbrev pub store_opened : Text → Option DbReader → Maxmind → Maxmind
  store_opened name none m = m
  store_opened name (some r) m = store_reader name r m

  unfoldable pub scan_entry : Entry → Maxmind → Maxmind
  unfolding store_reader
  scan_entry e m =
      if e.is_dir
      then m
      else if not (has_suffix (to_lower e.name) (codes ".mmdb"))
      then m
      else store_opened (to_lower e.name) e.reader m

  unfoldable pub scan : List Entry → Maxmind → Maxmind
  unfolding scan_entry
  scan [] m = m
  scan (e ∷ entries) m = scan entries (scan_entry e m)

  -- The four fallbacks between the families, in their order.
  unfoldable pub fall_back : Maxmind → Maxmind
  fall_back m =
      let country4 = or_else m.country4 m.country6 in
      let asn4 = or_else m.asn4 m.asn6 in
      record {
        country4 = country4;
        country6 = or_else m.country6 country4;
        asn4 = asn4;
        asn6 = or_else m.asn6 asn4;
      }

  unfoldable pub is_unloaded : Maxmind → Bool
  is_unloaded m = is_none m.country4 && is_none m.country6 && is_none m.asn4 && is_none m.asn6

  -- What is at the path: nothing, a directory, which may not be readable, or a file.
  pub data Found : Type 0 where
    missing : Found
    directory : Option (List Entry) → Found
    file : Option DbReader → Found

  -- Whether the load succeeded, and the readers after it.
  unfoldable pub load_readers : Found → Maxmind → Bool × Maxmind
  unfolding scan fall_back is_unloaded
  load_readers missing m = (false, m)
  load_readers (directory none) m = (false, m)
  load_readers (directory (some entries)) m =
      let m' = fall_back (scan entries m) in (not (is_unloaded m'), m')
  load_readers (file none) m = (false, m)
  load_readers (file (some r)) m = (true, record m { country4 = some r; country6 = some r })

-- ===== src/Tests/SyncTests.antt =====
-- A slave's synchronisation with its own REST API, and GeoIP files.
use namedor.Common.{ℕ, pos, ◌≡◌, ◌≢◌, refl, Bool, true, false, Option, none, some, [], ◌∷◌, ◌++◌}
use namedor.Text.{Text, codes, text_eq, has_suffix, to_lower, contains, has_prefix}
use namedor.Net.{Addr, Prefix, v4, is_6}
use namedor.Rest.Sync.{SyncData}
use namedor.Rest.Handlers.{RestConfig, World}
use namedor.Rest.Access.{AccessConfig}
use namedor.Replication.{SyncConfig, done, sync_once, fetch_from_master}
use namedor.Replication.Laws.{Delivery, answered, own_server, sync_once_refused}
use namedor.Geoip.{
  Library, Maxmind, raw_reader, countries, reader_for, fall_back, Found, missing, directory,
  load_readers, scan, scan_entry, store_reader, is_unloaded, is_6_hint, has_networks, has_countries,
  type_of,
}
use namedor.Geoip.Provider.{Provider, load_again}
use namedor.Geoip.Provider.Laws.{IsIn, load_again-closed}
use namedor.Geoip.Continent.{continent_from_country, is_one_of, guess, text_le}
use namedor.Tests.Memory.{memory, tables}

abbrev pub no_cidr : Text → Option Prefix
no_cidr s = none

abbrev pub no_ip : Text → Option Addr
no_ip s = none

-- The hash of a token is its text between brackets.
abbrev pub compare_hash : Text → Text → Bool
compare_hash hash s = text_eq hash (codes "<" ++ s ++ codes ">")

abbrev pub plain_access : AccessConfig
plain_access = record { allowed_cidrs = []; api_token = codes "secret"; api_token_hash = [] }

abbrev hashed_access : AccessConfig
hashed_access = record { allowed_cidrs = []; api_token = []; api_token_hash = codes "<secret>" }

abbrev pub rest_config : RestConfig
rest_config = record { default_ttl = 300; auto_soa_on_missing = true }

abbrev world : World memory
world = record { db = tables; dns_server = none }

-- The master answers with no zones.
abbrev master : Text → Text → World memory → Option (ℕ × Option SyncData) × World memory
master url header w = (some (200, some (record { zones = []; templates = [] })), w)

abbrev pub slave_config : SyncConfig
slave_config = record {
  master_url = codes "http://master:8080";
  master_token = codes "secret";
  api_token = [];
  rest_listen = codes ":8080";
}

wrong_hash : compare_hash (codes "<secret>") [] ≡ false
unfolding text_eq
wrong_hash = refl

-- Every post arrives and is answered.
abbrev pub arrives : Text → World memory → Delivery
arrives url w = answered

sync_once_refused_example :
    ((sync_once
        (World memory)
        master
        (own_server no_cidr no_ip compare_hash memory rest_config
          (pos 0)
          hashed_access
          (codes "127.0.0.1")
          master
          arrives
          slave_config)
        slave_config
        world).0
      ≢ done tt)
    × ((sync_once
          (World memory)
          master
          (own_server no_cidr no_ip compare_hash memory rest_config
            (pos 0)
            hashed_access
            (codes "127.0.0.1")
            master
            arrives
            slave_config)
          slave_config
          world).1
        ≡ (fetch_from_master
            (World memory)
            master
            (own_server no_cidr no_ip compare_hash memory rest_config
              (pos 0)
              hashed_access
              (codes "127.0.0.1")
              master
              arrives
              slave_config)
            slave_config
            world).1)
sync_once_refused_example =
    sync_once_refused no_cidr no_ip compare_hash memory rest_config (pos 0) hashed_access
      (codes "127.0.0.1") master arrives slave_config world refl wrong_hash refl

-- Files of one country each; the handle is its code.
abbrev files : Library
files = record {
  Handle = Text;
  city = λ h ip. some (h, []);
  country = λ h ip. some (h, []);
  asn = λ h ip. some 64500;
  raw_country_code = λ h ip. some h;
  raw_country = λ h ip. none;
  raw_asn = λ h ip. none;
}

abbrev found : Found files
found = directory (
    some (
      record {
        name = codes "dbip-country.MMDB";
        is_dir = false;
        reader = some (raw_reader (codes "DE") (codes "dbip"));
      }
      ∷ []))

abbrev unloaded : Maxmind files
unloaded = record { country4 = none; country6 = none; asn4 = none; asn6 = none }

loaded : (load_readers files found unloaded).0 ≡ true
unfolding load_readers scan scan_entry fall_back is_unloaded to_lower has_suffix store_reader
    is_6_hint has_networks has_countries type_of contains has_prefix text_eq
loaded = refl

abbrev one_family : Maxmind files
one_family = record unloaded { country4 = some (raw_reader (codes "DE") (codes "dbip")) }

germany_is_in_europe : continent_from_country (codes "DE") ≡ codes "EU"
unfolding continent_from_country is_one_of text_eq
germany_is_in_europe = refl

-- Andorra is not in the table.
andorra_is_guessed : continent_from_country (codes "AD") ≡ codes "AF"
unfolding continent_from_country is_one_of text_eq guess text_le
andorra_is_guessed = refl

-- The directory has gone when the files are read again.
abbrev provider : Provider files
provider = record { readers = one_family; closed = [] }

load_again-closed_example :
    IsIn files (raw_reader (codes "DE") (codes "dbip")) (load_again files missing provider).1.closed
load_again-closed_example =
    load_again-closed files missing provider (v4 1) countries
      (raw_reader (codes "DE") (codes "dbip")) (unfold load_again load_readers in refl)
      (unfold load_again load_readers reader_for is_6 in refl)

-- ===== src/Geoip/Provider.antt =====
-- NewFromPath of internal/geoip/geoip.go around its load: when the files are fetched first, what a
-- reload closes, and what becomes of a load that fails. Whether a handle is closed is the list of the
-- readers that were closed.
pub mod Laws
use namedor.Common.{
  pos, ◌≡◌, refl, Bool, true, false, not, ◌&&◌, Option, none, some, List, [], ◌∷◌, ◌++◌, any,
  is_empty, is_positive, if◌then◌else◌, ℤ, inl, inr, ◌⊎◌, Bool-cases, arith, sym, ◌∙◌,
}
use namedor.Text.{Text, codes, to_lower, has_suffix}
use namedor.Net.{Addr, is_6}
use namedor.Geo.{Info}
use namedor.Geoip.{
  Library, or_else, Kind, countries, networks, DbReader, Maxmind, Entry, Found, missing, directory,
  file, load_readers, is_unloaded, lookup_info, reader_for,
}

module _ (lib : Library) where
  unfoldable pub is_mmdb : Entry lib → Bool
  is_mmdb e = not e.is_dir && has_suffix (to_lower e.name) (codes ".mmdb")

  -- Whether the path has no file to load; an entry list that cannot be read is empty.
  unfoldable pub lacks_files : Found lib → Bool
  unfolding is_mmdb
  lacks_files missing = true
  lacks_files (directory none) = true
  lacks_files (directory (some entries)) = not (any is_mmdb entries)
  lacks_files (file r) = true

  unfoldable pub downloads_first : List Text → ℤ → Found lib → Bool
  unfolding lacks_files
  downloads_first urls interval found =
      is_positive interval && not (is_empty urls) && lacks_files found

  abbrev pub no_readers : Maxmind lib
  no_readers = record { country4 = none; country6 = none; asn4 = none; asn6 = none }

  -- The readers in use and those that were closed.
  pub record Provider : Type 0 where
    pub readers : Maxmind lib
    pub closed : List (DbReader lib)

  abbrev pub opened : Option (DbReader lib) → List (DbReader lib)
  opened none = []
  opened (some r) = r ∷ []

  unfoldable pub in_use : Maxmind lib → List (DbReader lib)
  in_use m = opened m.country4 ++ (opened m.country6 ++ (opened m.asn4 ++ opened m.asn6))

  -- load: the readers are closed first.
  unfoldable pub load_again : Found lib → Provider → Bool × Provider
  unfolding in_use
  load_again found p =
      let (loaded, m) = load_readers lib found p.readers in
      (loaded, record { readers = m; closed = in_use p.readers ++ p.closed })

  -- NewFromPath: a provider, or none, for which the server takes the one that knows nothing.
  unfoldable pub new_from_path : Found lib → Option Provider
  unfolding load_again
  new_from_path found =
      let (loaded, p) = load_again found (record { readers = no_readers; closed = [] }) in
      if loaded then some p else none

  -- The ticks of the reload and of the download after it, each with what is then at the path.
  unfoldable pub provider_after : List (Found lib) → Provider → Provider
  unfolding load_again
  provider_after [] p = p
  provider_after (found ∷ ticks) p = provider_after ticks (load_again found p).1

  -- NewServer and serveDNS: what is known of an address.
  unfoldable pub info_of : Option Provider → Addr → Info
  info_of none ip = record { country = []; continent = []; asn = pos 0 }
  info_of (some p) ip = lookup_info lib p.readers ip

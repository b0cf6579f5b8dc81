-- ===== src/Geoip/Laws.antt =====
-- What a load guarantees to the lookups after it.
use namedor.Common.{◌≡◌, refl, true, false, none, some, arith, is_none, ◌⊎◌}
use namedor.Net.{Addr}
use namedor.Geoip.{
  Library, Kind, countries, networks, Maxmind, reader_for, fall_back, lookup_info, is_unloaded,
  Found, missing, directory, file, load_readers,
}

module _ (lib : Library) where
  -- Filling a missing family with the readers of the other one does not change which reader serves
  -- an address: reader_for does the same by itself.
  reader_for-fall_back :
      (m : Maxmind lib) (ip : Addr) (kind : Kind)
      → reader_for lib (fall_back lib m) ip kind ≡ reader_for lib m ip kind
  unfolding reader_for fall_back
  reader_for-fall_back m ip countries = ground arith
  reader_for-fall_back m ip networks = ground arith

  -- After a load that succeeded there is a reader of one kind for every address, of either family.
  load_readers-reader_for :
      (found : Found lib) (m : Maxmind lib) (ip : Addr)
      → (load_readers lib found m).0 ≡ true
      → (is_none (reader_for lib (load_readers lib found m).1 ip countries) ≡ false)
        ⊎ (is_none (reader_for lib (load_readers lib found m).1 ip networks) ≡ false)
  unfolding load_readers reader_for is_unloaded
  load_readers-reader_for missing m ip h = cc
  load_readers-reader_for (directory none) m ip h = cc
  load_readers-reader_for (directory (some entries)) m ip h = ground arith
  load_readers-reader_for (file none) m ip h = cc
  load_readers-reader_for (file (some r)) m ip h = ground arith

  -- A lookup after a scan of a directory says the same with and without the fallbacks.
  lookup_info-fall_back :
      (m : Maxmind lib) (ip : Addr) → lookup_info lib (fall_back lib m) ip ≡ lookup_info lib m ip
  unfolding lookup_info
  lookup_info-fall_back m ip =
      rw (reader_for-fall_back m ip countries, reader_for-fall_back m ip networks) refl

-- ===== src/ZoneCache.antt =====
-- internal/server/dns/zone_cache.go: the zones that the DNS server read last, with the time of the
-- reading. A time is a number of nanoseconds; `none` is Go's zero time, from which any real time is
-- further than a cache's ttl. A nil slice of zones is `none` as a result of Get.
pub mod Laws
use namedor.Common.{
  ℕ, ◌-◌, Bool, true, false, not, ◌&&◌, ◌||◌, Option, none, some, List, [], ◌∷◌, is_empty, ltb, leb,
  if◌then◌else◌,
}
use namedor.Model.{Zone}

pub record ZoneCache : Type 0 where
  pub zones : List Zone
  pub last_fetch : Option ℕ
  pub ttl : ℕ

unfoldable pub new : ℕ → ZoneCache
new ttl = record { zones = []; last_fetch = none; ttl = ttl }

-- `time.Since(last) < ttl`
unfoldable pub is_recent : ℕ → Option ℕ → ℕ → Bool
is_recent now none ttl = false
is_recent now (some last) ttl = ltb (now - last) ttl

unfoldable pub get : ℕ → ZoneCache → Option (List Zone)
unfolding is_recent
get now zc =
    if is_recent now zc.last_fetch zc.ttl && not (is_empty zc.zones) then some zc.zones else none

unfoldable pub set : ℕ → List Zone → ZoneCache → ZoneCache
set now zones zc = record zc { zones = zones; last_fetch = some now }

unfoldable pub invalidate : ZoneCache → ZoneCache
invalidate zc = record zc { zones = []; last_fetch = none }

-- `len(zones) == 0 || time.Since(last) >= ttl`
unfoldable pub is_expired : ℕ → ZoneCache → Bool
unfolding is_recent
is_expired now zc = is_empty zc.zones || not (is_recent now zc.last_fetch zc.ttl)

-- ===== src/ZoneCache/Laws.antt =====
-- What the DNS server may rely on of its zone cache.
use namedor.Common.{
  ℕ, ◌+◌, ◌≡◌, ◌↔◌, refl, true, none, some, List, arith, not, if◌then◌else◌, is_empty, ltb, ◌&&◌,
}
use namedor.Model.{Zone}
use namedor.ZoneCache.{ZoneCache, get, set, invalidate, is_expired}

-- After a Set at time `now`, a Get `age` nanoseconds later hands out those zones exactly while the
-- age is below the ttl and there is at least one zone; else it hands out none.
get-set :
    (zc : ZoneCache) (now age : ℕ) (zones : List Zone)
    → get (now + age) (set now zones zc)
      ≡ (if ltb age zc.ttl && not (is_empty zones) then some zones else none)
unfolding get set
get-set zc now age zones = ground arith

-- After an invalidation nothing is handed out, whatever the time, until the next Set.
pub get-invalidate : (zc : ZoneCache) (now : ℕ) → get now (invalidate zc) ≡ none
unfolding get invalidate
get-invalidate zc now = refl

-- IsExpired holds at a time exactly when Get at that time hands out nothing.
is_expired_iff : (zc : ZoneCache) (now : ℕ) → (is_expired now zc ≡ true) ↔ (get now zc ≡ none)
unfolding is_expired get
is_expired_iff zc now = ground arith

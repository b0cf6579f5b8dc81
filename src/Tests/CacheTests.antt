-- ===== src/Tests/CacheTests.antt =====
-- The response cache and the zone cache on small inputs.
use namedor.Common.{ℕ, ◌≤◌, arith, ◌≡◌, ◌≢◌, refl, sym, ◌∙◌, false, none, some, List, [], ◌∷◌}
use namedor.Text.{codes, text_eq}
use namedor.Text.Laws.{text_eq_iff}
use namedor.Assoc.{fetch, write}
use namedor.Cache.{Cache, new, set, get, evict}
use namedor.Cache.Laws.{IsValid}
use namedor.Cache.History.{Call, setting, getting, run, call, latest, get-run}
use namedor.Cache.Race.{
  Shared, Step, set_step, expired_step, Reach, start, later, Reach-IsValid, get-delete_section-set,
}
use namedor.ZoneCache.{ZoneCache}
use namedor.Tests.Memory.{example_zone}

abbrev calls : List (Call ℕ)
calls = getting 60 (codes "b") ∷ setting 3 50 (codes "a") 9 10 ∷ setting 0 10 (codes "b") 8 90 ∷ []

calls_hit : (get 60 (codes "a") (run 2 calls)).0 ≡ some 9
unfolding get run call set new evict text_eq fetch write
calls_hit = refl

get-run_example :
    (exp : ℕ) × (latest (codes "a") calls ≡ some (record { value = 9; expires_at = exp }))
    × (60 ≤ exp)
get-run_example = get-run 2 calls 60 (codes "a") 9 calls_hit

abbrev empty : Cache ℕ
empty = new 2

different : text_eq (codes "a") (codes "b") ≡ false
unfolding text_eq
different = refl

a_ne_b : codes "a" ≢ codes "b"
a_ne_b e = cc (sym different ∙ (text_eq_iff (codes "a") (codes "b")).1 e)

abbrev empty_shared : Shared ℕ
empty_shared = record { cache = empty; pending = [] }

abbrev after_set : Shared ℕ
after_set = record empty_shared { cache = set 0 5 (codes "a") 1 10 empty_shared.cache }

Reach-IsValid_example : IsValid after_set.cache × (after_set.cache.size ≡ 2)
Reach-IsValid_example =
    Reach-IsValid {s = after_set} (later start (set_step empty_shared 0 5 (codes "a") 1 10))

abbrev expired : Shared ℕ
expired = record after_set { pending = codes "a" ∷ [] }

was_set : fetch (codes "a") after_set.cache.entries ≡ some (record { value = 1; expires_at = 15 })
unfolding set evict fetch write text_eq new
was_set = refl

-- A goroutine has read the item at the time 20.
expired_reached : Reach 2 expired
expired_reached = later {s = after_set} (later start (set_step empty_shared 0 5 (codes "a") 1 10)) (
    expired_step after_set 20 (codes "a") (record { value = 1; expires_at = 15 }) was_set
      (omega arith))

get-delete_section-set_example :
    (mid end : Shared ℕ) × Step expired mid
    × Step mid end
    × Reach 2 end
    × ((get 26 (codes "a") mid.cache).0 ≡ some 7)
    × ((get 26 (codes "a") end.cache).0 ≡ none)
    × (end.pending ≡ [])
get-delete_section-set_example =
    get-delete_section-set [] [] (codes "a") expired_reached refl 0 25 26 7 10 (omega arith)

abbrev full : Cache ℕ
full = set 0 5 (codes "b") 1 10 (new 1)

abbrev roomy : Cache ℕ
roomy = record { entries = (codes "b", record { value = 1; expires_at = 15 }) ∷ []; size = 4 }

abbrev zone_cache : ZoneCache
zone_cache = record { zones = example_zone ∷ []; last_fetch = some 100; ttl = 50 }

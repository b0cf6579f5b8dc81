-- ===== src/Cache/History.antt =====
-- The cache against the history of its calls: what a Get may return, whatever was evicted.
use namedor.Common.{
  ℕ, ◌+◌, ◌≤◌, ◌≡◌, refl, none, some, List, [], ◌∷◌, arith, Option, length, if◌then◌else◌, inl, ◌⊎◌,
  ◌%◌,
}
use namedor.Text.{Text, text_eq}
use namedor.Assoc.{fetch}
use namedor.Cache.{Item, Cache, new, evict, set, get_item, get}
use namedor.Assoc.Laws.{fetch-write, fetch-remove, fetch-drop_at}
use namedor.Cache.Laws.{IsValid, set-IsValid, get-IsValid, new-IsValid}

module _ {ℓ} (V : Type ℓ) where
  -- A call on the cache: at a time, with the entry that an eviction would hit.
  pub data Call : Type ℓ where
    setting : (pick now : ℕ) (key : Text) (value : V) (ttl : ℕ) → Call
    getting : (now : ℕ) (key : Text) → Call

module _ {ℓ} {V : Type ℓ} where
  unfoldable pub call : Call V → Cache V → Cache V
  call (setting pick now key value ttl) c = set pick now key value ttl c
  call (getting now key) c = (get now key c).1

  -- The calls in order, the latest first in the list.
  unfoldable pub run : ℕ → List (Call V) → Cache V
  run size [] = new size
  run size (x ∷ calls) = call x (run size calls)

  -- What the latest Set of a key wrote, with its time of expiry.
  unfoldable pub latest : Text → List (Call V) → Option (Item V)
  latest j [] = none
  latest j (setting pick now key value ttl ∷ calls) =
      if text_eq key j
      then some (record { value = value; expires_at = now + ttl })
      else latest j calls
  latest j (getting now key ∷ calls) = latest j calls

  call-IsValid : (x : Call V) (c : Cache V) → IsValid c → IsValid (call x c)
  unfolding call
  call-IsValid (setting pick now key value ttl) c v = set-IsValid pick now key value ttl c v
  call-IsValid (getting now key) c v = get-IsValid now key c v

  -- After any calls on a new cache its keys are distinct and it holds at most `size` entries (one
  -- where `size` is 0).
  pub run-IsValid : (size : ℕ) (calls : List (Call V)) → IsValid (run size calls)
  unfolding run
  run-IsValid size [] = new-IsValid size
  run-IsValid size (x ∷ calls) = call-IsValid x (run size calls) (run-IsValid size calls)

  fetch-evict :
      (pick : ℕ) (j : Text) (c : Cache V)
      → IsValid c
      → (fetch j (evict pick c) ≡ fetch j c.entries) ⊎ (fetch j (evict pick c) ≡ none)
  unfolding evict
  fetch-evict pick j c v =
      ground (arith, fetch-drop_at (pick % length c.entries) j c.entries v.distinct)

  fetch-set :
      (pick now : ℕ) (key j : Text) (value : V) (ttl : ℕ) (c : Cache V)
      → fetch j (set pick now key value ttl c).entries ≡ (
          if text_eq key j
          then some (record { value = value; expires_at = now + ttl })
          else fetch j (evict pick c))
  unfolding set
  fetch-set pick now key j value ttl c = fetch-write key j _ (evict pick c)

  fetch-get :
      (now : ℕ) (key j : Text) (c : Cache V)
      → (fetch j (get now key c).1.entries ≡ fetch j c.entries)
        ⊎ (fetch j (get now key c).1.entries ≡ none)
  unfolding get
  fetch-get now key j c = go (fetch key c.entries)
    where
      go :
          (o : Option (Item V))
          → (fetch j (get_item key o now c).1.entries ≡ fetch j c.entries)
            ⊎ (fetch j (get_item key o now c).1.entries ≡ none)
      go none = inl refl
      go (some item) = ground (arith, fetch-remove key j c.entries)

  -- What the cache holds under a key is what the latest Set of the key wrote.
  pub fetch-run :
      (size : ℕ) (calls : List (Call V)) (j : Text)
      → (fetch j (run size calls).entries ≡ latest j calls)
        ⊎ (fetch j (run size calls).entries ≡ none)
  unfolding run call latest new fetch
  fetch-run size [] j = inl refl
  fetch-run size (setting pick now key value ttl ∷ calls) j = ground (
    arith,
    fetch-set pick now key j value ttl (run size calls),
    fetch-evict pick j (run size calls) (run-IsValid size calls),
    fetch-run size calls j,
  )
  fetch-run size (getting now key ∷ calls) j =
      ground (arith, fetch-get now key j (run size calls), fetch-run size calls j)

  -- Whatever the calls before, their times and the evictions: a value that Get returns is the one
  -- that the latest Set of the key wrote, and the time of the Get is not past its expiry.
  pub get-run :
      (size : ℕ) (calls : List (Call V)) (now : ℕ) (key : Text) (value : V)
      → (get now key (run size calls)).0 ≡ some value
      → (exp : ℕ) × (latest key calls ≡ some (record { value = value; expires_at = exp }))
        × (now ≤ exp)
  unfolding get
  get-run size calls now key value h = go (fetch key (run size calls).entries) refl h
    where
      go :
          (o : Option (Item V))
          → fetch key (run size calls).entries ≡ o
          → (get_item key o now (run size calls)).0 ≡ some value
          → (exp : ℕ) × (latest key calls ≡ some (record { value = value; expires_at = exp }))
            × (now ≤ exp)
      go none e p = cc
      go (some item) e p = (item.expires_at, ground (arith, fetch-run size calls key), ground arith)

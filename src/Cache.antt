-- ===== src/Cache.antt =====
-- internal/cache/cache.go: a map from keys to values with a time of expiry, and a bound on its size.
-- Go's map is an association list whose keys are distinct (`IsValid`). `for k := range data` starts
-- at an arbitrary entry: the entry is the argument `pick`. A time is a number of nanoseconds.
pub mod Laws
pub mod History
pub mod Race
use namedor.Common.{
  ℕ, ◌+◌, ◌%◌, Bool, true, false, not, Option, none, some, List, [], ◌∷◌, length, drop_at, ltb, leb,
  if◌then◌else◌,
}
use namedor.Text.{Text}
use namedor.Assoc.{fetch, remove, write}

module _ {ℓ} (V : Type ℓ) where
  pub record Item : Type ℓ where
    pub value : V
    pub expires_at : ℕ

  pub record Cache : Type ℓ where
    pub entries : List (Text × Item)
    pub size : ℕ

module _ {ℓ} {V : Type ℓ} where
  unfoldable pub new : ℕ → Cache V
  new size = record { entries = []; size = size }

  -- The room that Set makes: one arbitrary entry goes when the map is full.
  unfoldable pub evict : ℕ → Cache V → List (Text × Item V)
  evict pick c =
      if leb c.size (length c.entries)
      then drop_at (pick % length c.entries) c.entries
      else c.entries

  unfoldable pub set : ℕ → ℕ → Text → V → ℕ → Cache V → Cache V
  unfolding evict write
  set pick now key value ttl c = record c {
    entries = write key (record { value = value; expires_at = now + ttl }) (evict pick c);
  }

  -- What Get does with the item that it read: `time.Now().After(it.expiresAt)`.
  unfoldable pub get_item : Text → Option (Item V) → ℕ → Cache V → Option V × Cache V
  get_item key none now c = (none, c)
  get_item key (some item) now c =
      if ltb item.expires_at now
      then (none, record c { entries = remove key c.entries })
      else (some item.value, c)

  unfoldable pub get : ℕ → Text → Cache V → Option V × Cache V
  unfolding get_item fetch remove
  get now key c = get_item key (fetch key c.entries) now c

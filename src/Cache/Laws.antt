-- ===== src/Cache/Laws.antt =====
-- The cache's invariant, and what one Get sees after one Set.
use native.Mathlib.Nat.{mod-lt}
use namedor.Common.{
  ℕ, suc, ◌+◌, ◌%◌, ◌≤◌, ◌<◌, ◌≡◌, ◌≢◌, none, some, List, [], ◌∷◌, arith, Option, length, drop_at,
  if◌then◌else◌, Bool-cases, inl, inr, ◌⊎◌, ltb, leb,
}
use namedor.Text.{Text}
use namedor.Text.Laws.{text_eq_iff, text_eq_refl}
use namedor.Assoc.{fetch}
use namedor.Cache.{Item, Cache, new, evict, set, get_item, get}
use namedor.Assoc.Laws.{
  Distinct, fetch-write, fetch-drop_at, Distinct-drop_at, Distinct-write, Distinct-remove,
  length-write-le, length-remove-le, length-drop_at,
}

module _ {ℓ} {V : Type ℓ} where
  -- The keys are distinct, and there are at most `size` entries, or one where `size` is 0.
  pub record IsValid (c : Cache V) : Type ℓ where
    pub distinct : Distinct c.entries
    pub bounded : length c.entries ≤ c.size + (if ltb 0 c.size then 0 else 1)

  pub evict-Distinct : (pick : ℕ) (c : Cache V) → IsValid c → Distinct (evict pick c)
  unfolding evict
  evict-Distinct pick c v = elim (Bool-cases (leb c.size (length c.entries))) [
    | inl e ↦ rw e (Distinct-drop_at (pick % length c.entries) c.entries v.distinct)
    | inr e ↦ rw e v.distinct
  ]

  room :
      (pick size : ℕ) (xs : List (Text × Item V))
      → length xs ≤ size + (if ltb 0 size then 0 else 1)
      → length (if leb size (length xs) then drop_at (pick % length xs) xs else xs) + 1
        ≤ size + (if ltb 0 size then 0 else 1)
  room pick size [] h = ground arith
  room pick size (x ∷ xs) h = elim (Bool-cases (leb size (suc (length xs)))) [
    | inl e ↦
        let below : pick % suc (length xs) < suc (length xs) = mod-lt pick (omega arith) in
        rw e (omega (arith, length-drop_at (pick % suc (length xs)) (x ∷ xs) below))
    | inr e ↦ ground arith
  ]

  evict-room :
      (pick : ℕ) (c : Cache V)
      → IsValid c
      → length (evict pick c) + 1 ≤ c.size + (if ltb 0 c.size then 0 else 1)
  unfolding evict
  evict-room pick c v = room pick c.size c.entries v.bounded

  -- Set keeps the invariant, whichever entry is evicted: the cache never outgrows its size.
  pub set-IsValid :
      (pick now : ℕ) (key : Text) (value : V) (ttl : ℕ) (c : Cache V)
      → IsValid c
      → IsValid (set pick now key value ttl c)
  unfolding set
  set-IsValid pick now key value ttl c v = record {
    distinct = Distinct-write key _ (evict pick c) (evict-Distinct pick c v);
    bounded = omega (
      arith,
      length-write-le key (record { value = value; expires_at = now + ttl }) (evict pick c),
      evict-room pick c v,
    );
  }

  -- Get keeps it too.
  pub get-IsValid : (now : ℕ) (key : Text) (c : Cache V) → IsValid c → IsValid (get now key c).1
  unfolding get
  get-IsValid now key c v = go (fetch key c.entries)
    where
      go : (o : Option (Item V)) → IsValid (get_item key o now c).1
      go none = v
      go (some item) = elim (Bool-cases (ltb item.expires_at now)) [
        | inl e ↦ rw e (record {
          distinct = Distinct-remove key c.entries v.distinct;
          bounded = omega (arith, v.bounded, length-remove-le key c.entries);
        })
        | inr e ↦ rw e v
      ]

  -- A Get of the key that a Set wrote at time `now` returns the value at every time up to
  -- `now + ttl`, this one included, and nothing later; whichever entry was evicted.
  pub get-set_self :
      (pick now next : ℕ) (key : Text) (value : V) (ttl : ℕ) (c : Cache V)
      → (get next key (set pick now key value ttl c)).0
        ≡ (if leb next (now + ttl) then some value else none)
  unfolding set get
  get-set_self pick now next key value ttl c = rw (fetch-write, text_eq_refl key) (ground arith)

  -- A Get of another key returns what it returned before the Set, or nothing, where its entry was
  -- evicted; the cache was valid.
  get-set_ne :
      (pick now later : ℕ) (key j : Text) (value : V) (ttl : ℕ) (c : Cache V)
      → IsValid c
      → key ≢ j
      → ((get later j (set pick now key value ttl c)).0 ≡ (get later j c).0)
        ⊎ ((get later j (set pick now key value ttl c)).0 ≡ none)
  unfolding set get evict
  get-set_ne pick now later key j value ttl c v h = ground (
    arith,
    text_eq_iff key j,
    fetch-write key j (record { value = value; expires_at = now + ttl }) c.entries,
    fetch-write key j (record { value = value; expires_at = now + ttl })
        (drop_at (pick % length c.entries) c.entries),
    fetch-drop_at (pick % length c.entries) j c.entries v.distinct,
  )

  -- Below its size the cache evicts nothing.
  get-set_room :
      (pick now later : ℕ) (key j : Text) (value : V) (ttl : ℕ) (c : Cache V)
      → length c.entries < c.size
      → key ≢ j
      → (get later j (set pick now key value ttl c)).0 ≡ (get later j c).0
  unfolding set get evict
  get-set_room pick now later key j value ttl c small h = ground (
    arith,
    text_eq_iff key j,
    fetch-write key j (record { value = value; expires_at = now + ttl }) c.entries,
  )

pub new-IsValid {ℓ} : {V : Type ℓ} (size : ℕ) → IsValid (new {V = V} size)
unfolding new
new-IsValid size = record { distinct = tt; bounded = ground arith }

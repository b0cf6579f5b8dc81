-- ===== src/Cache/Race.antt =====
-- Get releases the read lock before it takes the write lock, so that calls of other goroutines may
-- come between its read and its delete. Here a goroutine that has read an expired item is a pending
-- delete of the key, and every interleaving of the locked sections is a sequence of steps.
use namedor.Common.{ℕ, ◌+◌, ◌≤◌, ◌<◌, ◌∙◌, ◌≡◌, refl, none, some, List, [], ◌∷◌, arith, ◌++◌}
use namedor.Text.{Text}
use namedor.Text.Laws.{text_eq_refl}
use namedor.Assoc.{fetch, remove}
use namedor.Cache.{Item, Cache, new, set, get}
use namedor.Assoc.Laws.{Distinct-remove, length-remove-le, fetch-remove}
use namedor.Cache.Laws.{get-set_self, IsValid, set-IsValid, new-IsValid}

module _ {ℓ} (V : Type ℓ) where
  pub record Shared : Type ℓ where
    pub cache : Cache V
    pub pending : List Text

module _ {ℓ} {V : Type ℓ} where
  -- The write-locked section at the end of a Get that found an expired item.
  unfoldable pub delete_section : Text → Cache V → Cache V
  delete_section key c = record c { entries = remove key c.entries }

  -- One locked section of one goroutine.
  pub data Step : Shared V → Shared V → Type ℓ where
    set_step :
        (s : Shared V) (pick now : ℕ) (key : Text) (value : V) (ttl : ℕ)
        → Step s (record s { cache = set pick now key value ttl s.cache })
    expired_step :
        (s : Shared V) (now : ℕ) (key : Text) (item : Item V)
        → fetch key s.cache.entries ≡ some item
        → item.expires_at < now
        → Step s (record s { pending = key ∷ s.pending })
    delete_step :
        (s : Shared V) (before : List Text) (key : Text) (after : List Text)
        → s.pending ≡ before ++ key ∷ after
        → Step s (record { cache = delete_section key s.cache; pending = before ++ after })

  pub data Reach (size : ℕ) : Shared V → Type ℓ where
    start : Reach size (record { cache = new size; pending = [] })
    later : {s t : Shared V} → Reach size s → Step s t → Reach size t

  Step-IsValid : {s t : Shared V} → Step s t → IsValid s.cache → IsValid t.cache
  unfolding delete_section
  Step-IsValid (set_step s pick now key value ttl) v = set-IsValid pick now key value ttl s.cache v
  Step-IsValid (expired_step s now key item f e) v = v
  Step-IsValid (delete_step s before key after p) v = record {
    distinct = Distinct-remove key s.cache.entries v.distinct;
    bounded = omega (arith, v.bounded, length-remove-le key s.cache.entries);
  }

  Step-size : {s t : Shared V} → Step s t → t.cache.size ≡ s.cache.size
  unfolding delete_section set
  Step-size (set_step s pick now key value ttl) = refl
  Step-size (expired_step s now key item f e) = refl
  Step-size (delete_step s before key after p) = refl

  -- Under every interleaving of Set and Get the keys stay distinct and the cache stays within the
  -- size that it was made with (one entry where that is 0).
  pub Reach-IsValid :
      {size : ℕ} {s : Shared V} → Reach size s → IsValid s.cache × (s.cache.size ≡ size)
  unfolding new
  Reach-IsValid {size} start = (new-IsValid size, refl)
  Reach-IsValid (later r st) =
      let (v, e) = Reach-IsValid r in (Step-IsValid st v, omega (arith, Step-size st, e))

  -- The race: where a goroutine has read an expired item of the key and its delete is still to come,
  -- a Set of the key by another goroutine and then that delete are two steps after which a Get of
  -- the key misses, at a time when the item that was Set has not expired and when, between the two
  -- steps, a Get would have returned it.
  pub get-delete_section-set :
      {size : ℕ} {s : Shared V} (before after : List Text) (key : Text)
      → Reach size s
      → s.pending ≡ before ++ key ∷ after
      → (pick now next : ℕ) (value : V) (ttl : ℕ) → next ≤ now + ttl
      → (mid end : Shared V) × Step s mid
        × Step mid end
        × Reach size end
        × ((get next key mid.cache).0 ≡ some value)
        × ((get next key end.cache).0 ≡ none)
        × (end.pending ≡ before ++ after)
  unfolding delete_section set get
  get-delete_section-set {s = s} before after key run waits pick now next value ttl soon =
      let mid : Shared V = record s { cache = set pick now key value ttl s.cache } in
      let end : Shared V = record {
        cache = delete_section key mid.cache;
        pending = before ++ after;
      } in
      let writes : Step s mid = set_step s pick now key value ttl in
      let deletes : Step mid end = delete_step mid before key after waits in
      (
        mid,
        end,
        writes,
        deletes,
        later (later run writes) deletes,
        get-set_self pick now next key value ttl s.cache ∙ ground arith,
        rw (fetch-remove, text_eq_refl key) refl,
        refl,
      )

-- ===== src/Assoc.antt =====
-- Go's maps with string keys, as the response cache and the sessions of the web panel use them, and
-- the parameters of a request: association lists.
pub mod Laws
use namedor.Common.{Bool, true, false, Option, none, some, List, [], ◌∷◌, if◌then◌else◌}
use namedor.Text.{Text, text_eq}

module _ {ℓ} {A : Type ℓ} where
  -- A read of the map.
  unfoldable pub fetch : Text → List (Text × A) → Option A
  fetch key [] = none
  fetch key ((k, item) ∷ entries) = if text_eq k key then some item else fetch key entries

  -- delete(data, key)
  unfoldable pub remove : Text → List (Text × A) → List (Text × A)
  remove key [] = []
  remove key ((k, item) ∷ entries) =
      let rest = remove key entries in if text_eq k key then rest else (k, item) ∷ rest

  -- data[key] = item
  unfoldable pub write : Text → A → List (Text × A) → List (Text × A)
  write key item [] = (key, item) ∷ []
  write key item ((k, old) ∷ entries) =
      if text_eq k key then (k, item) ∷ entries else (k, old) ∷ write key item entries

-- ===== src/Web/Panel/Answers.antt =====
-- Predicates that hold of whatever a handler of the panel answers, step by step.
use namedor.Common.{ℕ, ◌≡◌, refl, Option, none, some}
use namedor.Text.{Text}
use namedor.Gorm.{Result, ok, err}
use namedor.Web.Panel.{Reply, Page, message, answer, with_id, found, done}

module _ {Db : Type 0} (P : Reply × Db → Type 0) where
  pub with_id-All :
      (o : Option ℕ) (page : Page) (db : Db) (next : ℕ → Reply × Db)
      → P (answer 400 page db)
      → ((id : ℕ) → P (next id))
      → P (with_id o page db next)
  unfolding with_id
  with_id-All none page db next h k = h
  with_id-All (some id) page db next h k = k id

  pub found-All :
      {A : Type 0} (o : Result A) (key : Text) (db : Db) (next : A → Reply × Db)
      → P (answer 404 (message key) db)
      → ((a : A) → P (next a))
      → P (found o key db next)
  unfolding found
  found-All (err e) key db next h k = h
  found-All (ok a) key db next h k = k a

  pub done-All :
      {A : Type 0} (o : Result A × Db) (key : Text) (next : A → Db → Reply × Db)
      → ((db : Db) → P (answer 500 (message key) db))
      → ((a : A) (db : Db) → P (next a db))
      → P (done o key next)
  unfolding done
  done-All (err e, db) key next h k = h db
  done-All (ok a, db) key next h k = k a db

module _ {Db : Type 0} where
  -- The database is as it was.
  unfoldable pub Keeps : Db → Reply × Db → Type 0
  Keeps db out = out.1 ≡ db

  pub answer-Keeps : (status : ℕ) (page : Page) (db : Db) → Keeps db (answer status page db)
  unfolding Keeps
  answer-Keeps status page db = refl

-- What follows a statement matters only where it is run.
pub done_cong :
    {Db A : Type 0} (out : Result A × Db) (key : Text) (f g : A → Db → Reply × Db)
    → ((a : A) → f a out.1 ≡ g a out.1)
    → done out key f ≡ done out key g
unfolding done
done_cong (err e, db) key f g same = refl
done_cong (ok a, db) key f g same = same a

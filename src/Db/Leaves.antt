-- ===== src/Db/Leaves.antt =====
-- What holds of the database after an action, whether it returned or threw.
use key_page.Prelude.{◌≡◌, refl, Bool, true, false, Option, none, some}
use key_page.Http.{HttpError}
use key_page.Db.Rows.{Db}
use key_page.Db.Action.{Result, ok, err, Action, go_on, throw_if, require}

pub record Leaves {ℓ} {A : Type 0} (P : Db → Type ℓ) (r : Result A × Db) : Type ℓ where
  pub at : P r.1

module _ {ℓ} {P : Db → Type ℓ} {A : Type 0} where
  pub Leaves-end : (a : Result A) (db : Db) → P db → Leaves P (a, db)
  Leaves-end a db h = record { at = h }

module _ {ℓ} {P : Db → Type ℓ} where
  pub Leaves-check : (b : Bool) (e : HttpError) (db : Db) → P db → Leaves P (throw_if b e db)
  unfolding throw_if
  Leaves-check true e db h = record { at = h }
  Leaves-check false e db h = record { at = h }

module _ {ℓ} {P : Db → Type ℓ} {A B : Type 0} where
  pub Leaves-bind :
      (r : Result A × Db) (rest : A → Action B)
      → Leaves P r
      → ((a : A) (db : Db) → P db → Leaves P (rest a db))
      → Leaves P (go_on r rest)
  Leaves-bind (ok a, db) rest h k = k a db h.at
  Leaves-bind (err e, db) rest h k = record { at = h.at }

  pub Leaves-require :
      (o : Option A) (e : HttpError) (db : Db) (rest : A → Action B)
      → P db
      → ((a : A) → Leaves P (rest a db))
      → Leaves P (go_on (require o e db) rest)
  unfolding require
  Leaves-require none e db rest h k = record { at = h }
  Leaves-require (some a) e db rest h k = k a

module _ {ℓ} {P : Db → Type ℓ} {B : Type 0} where
  pub Leaves-throw_if :
      (b : Bool) (e : HttpError) (db : Db) (rest : Unit {0} → Action B)
      → P db
      → (b ≡ false → Leaves P (rest tt db))
      → Leaves P (go_on (throw_if b e db) rest)
  unfolding throw_if
  Leaves-throw_if true e db rest h k = record { at = h }
  Leaves-throw_if false e db rest h k = k refl

module _ {ℓ} {P : Db → Type ℓ} {A : Type 0} where
  pub Leaves-found : (o : Option A) (e : HttpError) (db : Db) → P db → Leaves P (require o e db)
  unfolding require
  Leaves-found none e db h = record { at = h }
  Leaves-found (some a) e db h = record { at = h }

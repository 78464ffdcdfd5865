-- ===== src/Db/Ensures.antt =====
-- What holds after an action that returned, with one rule for each way to build an action.
use key_page.Prelude.{Bool, true, false, ◌≡◌, refl, subst, Option, none, some}
use key_page.Http.{HttpError}
use key_page.Db.Rows.{Db}
use key_page.Db.Action.{Result, ok, err, Action, go_on, roll_back, transaction, throw_if, require}
use key_page.Db.Laws.{Keeps}

abbrev pub Holds {ℓ} : {A : Type 0} → (A → Db → Type ℓ) → Result A × Db → Type ℓ
Holds Q (ok a, db) = Q a db
Holds Q (err e, db) = Unit

-- if `r` returned, `Q` holds of its result and of the state that it left
pub record Ensures {ℓ} {A : Type 0} (r : Result A × Db) (Q : A → Db → Type ℓ) : Type ℓ where
  pub at : Holds Q r

module _ {ℓ} {A : Type 0} (Q : A → Db → Type ℓ) where
  pub Ensures-ok : (a : A) (db : Db) → Q a db → Ensures (ok a, db) Q
  Ensures-ok a db q = record { at = q }

  pub Ensures-eq-ok : (r : Result A × Db) (a : A) (db : Db) → Ensures r Q → r ≡ (ok a, db) → Q a db
  Ensures-eq-ok r a db h e = subst (Holds Q) e h.at

  pub Ensures-if :
      (b : Bool) (r s : Result A × Db)
      → (b ≡ true → Ensures r Q)
      → (b ≡ false → Ensures s Q)
      → Ensures (elim b [ true ↦ r | false ↦ s ]) Q
  Ensures-if true r s hr hs = hr refl
  Ensures-if false r s hr hs = hs refl

module _ {ℓ} {A B : Type 0} {Q : B → Db → Type ℓ} where
  -- a first part with a postcondition of its own
  pub Ensures-bind :
      (R : A → Db → Type ℓ) (r : Result A × Db) (rest : A → Action B)
      → Ensures r R
      → ((a : A) (db : Db) → R a db → Ensures (rest a db) Q)
      → Ensures (go_on r rest) Q
  Ensures-bind R (ok a, db) rest h k = k a db h.at
  Ensures-bind R (err e, db) rest h k = record { at = tt }

  pub Ensures-require :
      (o : Option A) (e : HttpError) (db : Db) (rest : A → Action B)
      → ((a : A) → o ≡ some a → Ensures (rest a db) Q)
      → Ensures (go_on (require o e db) rest) Q
  unfolding require
  Ensures-require none e db rest k = record { at = tt }
  Ensures-require (some a) e db rest k = k a refl

module _ {ℓ} {Q : Unit {0} → Db → Type ℓ} where
  -- the same where the check is the last part
  pub Ensures-check :
      (b : Bool) (e : HttpError) (db : Db) → (b ≡ false → Q tt db) → Ensures (throw_if b e db) Q
  unfolding throw_if
  Ensures-check true e db k = record { at = tt }
  Ensures-check false e db k = record { at = k refl }

module _ {ℓ} {B : Type 0} {Q : B → Db → Type ℓ} where
  pub Ensures-throw_if :
      (b : Bool) (e : HttpError) (db : Db) (rest : Unit {0} → Action B)
      → (b ≡ false → Ensures (rest tt db) Q)
      → Ensures (go_on (throw_if b e db) rest) Q
  unfolding throw_if
  Ensures-throw_if true e db rest k = record { at = tt }
  Ensures-throw_if false e db rest k = k refl

  pub Ensures-transaction :
      (m : Action B) (db : Db) → Ensures (m db) Q → Ensures (transaction m db) Q
  Ensures-transaction m db h = roll_back_case (m db) h
    where
      roll_back_case : (r : Result B × Db) → Ensures r Q → Ensures (roll_back db r) Q
      roll_back_case (ok b, db') h = h
      roll_back_case (err e, db') h = record { at = tt }

  pub Ensures-mono :
      (r : Result B × Db) (R : B → Db → Type ℓ)
      → Ensures r R
      → ((b : B) (db : Db) → R b db → Q b db)
      → Ensures r Q
  Ensures-mono (ok b, db) R h k = record { at = k b db h.at }
  Ensures-mono (err e, db) R h k = record { at = tt }

-- A transaction keeps what its body establishes when it returns: a throw undoes the rest.
pub Keeps-commit {ℓ} :
    {A : Type 0} (P : Db → Type ℓ) (m : Action A)
    → ((db : Db) → P db → Ensures (m db) (λ _ db'. P db'))
    → Keeps P (transaction m)
Keeps-commit {A} P m h = record { at = λ db p. commit_case db (m db) p (h db p) }
  where
    commit_case :
        (db : Db) (r : Result A × Db) → P db → Ensures r (λ _ db'. P db') → P (roll_back db r).1
    commit_case db (ok a, db') p h = h.at
    commit_case db (err e, db') p h = p

-- from every state with `P`, a return of the action relates the two states by `Q`
pub record Commits {ℓ} {A : Type 0} (P : Db → Type ℓ) (Q : Db → A → Db → Type ℓ) (m : Action A)
    : Type ℓ where
  pub at : (db : Db) → P db → Ensures (m db) (Q db)

pub Commits-transaction {ℓ} :
    {A : Type 0} (P : Db → Type ℓ) (Q : Db → A → Db → Type ℓ) (m : Action A)
    → ((db : Db) → P db → Ensures (m db) (Q db))
    → Commits P Q (transaction m)
Commits-transaction P Q m h = record { at = λ db p. Ensures-transaction m db (h db p) }

-- what does not depend on the end of the action
pub Ensures-const {ℓ} : {A : Type 0} {K : Type ℓ} (r : Result A × Db) → K → Ensures r (λ _ _. K)
Ensures-const (ok a, db) k = record { at = k }
Ensures-const (err e, db) k = record { at = tt }

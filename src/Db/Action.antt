-- ===== src/Db/Action.antt =====
-- Actions on the database: handlers and repository functions, which read and write the tables and
-- may throw.
use key_page.Prelude.{Bool, true, false, Option, none, some}
use key_page.Http.{HttpError}
use key_page.Db.Rows.{Db}

pub data Result (A : Type 0) : Type 0 where
  ok : A → Result A
  err : HttpError → Result A

abbrev pub Action : Type 0 → Type 0
Action A = Db → Result A × Db

abbrev pub pure : {A : Type 0} → A → Action A
pure a db = (ok a, db)

abbrev pub throw : {A : Type 0} → HttpError → Action A
throw e db = (err e, db)

abbrev pub read : {A : Type 0} → (Db → A) → Action A
read f db = (ok (f db), db)

abbrev pub write : (Db → Db) → Action (Unit {0})
write f db = (ok tt, f db)

-- `m`, with the state that it leaves, then the rest of the block
abbrev pub go_on : {A B : Type 0} → Result A × Db → (A → Action B) → Result B × Db
go_on (ok a, db) rest = rest a db
go_on (err e, db) rest = (err e, db)

infixl 5 ◌>>=◌ ◌>>◌
abbrev pub ◌>>=◌ : {A B : Type 0} → Action A → (A → Action B) → Action B
◌>>=◌ m rest db = go_on (m db) rest

abbrev pub ◌>>◌ : {B : Type 0} → Action (Unit {0}) → Action B → Action B
◌>>◌ m rest db = go_on (m db) (λ _. rest)

-- a throw undoes the writes
abbrev pub roll_back : {A : Type 0} → Db → Result A × Db → Result A × Db
roll_back before (ok a, db) = (ok a, db)
roll_back before (err e, db) = (err e, before)

abbrev pub transaction : {A : Type 0} → Action A → Action A
transaction m db = roll_back db (m db)

-- `if (refused) throw e;`
unfoldable pub throw_if : Bool → HttpError → Action (Unit {0})
throw_if true e = throw e
throw_if false e = pure tt

-- `if (value === undefined) throw e;`, and the value from there on
unfoldable pub require : {A : Type 0} → Option A → HttpError → Action A
require none e = throw e
require (some a) e = pure a

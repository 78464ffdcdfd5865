-- ===== src/Db/Laws.antt =====
-- What an action keeps.
use key_page.Db.Rows.{Db}
use key_page.Db.Action.{Action}

-- `m` keeps `P`, whether it returns or throws
pub record Keeps {ℓ} {A : Type 0} (P : Db → Type ℓ) (m : Action A) : Type ℓ where
  pub at : (db : Db) → P db → P (m db).1

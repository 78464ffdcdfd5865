-- ===== src/Auth/Throttle/Frame.antt =====
-- The throttle writes to its own rows alone.
use key_page.Prelude.{ℕ, ◌≡◌, refl, Option, none, some, Bool-cases, inl, inr, ltb}
use key_page.Db.Rows.{Db, AuthThrottleRow, ThrottleScope, login, recovery}
use key_page.Auth.Throttle.{throttle_row, set_throttle_row, assert_row, assert_not_locked}

-- the other tables are as they were
pub record Throttled (db db' : Db) : Type 0 where
  pub rest :
      db'
      ≡ record db { login_throttle = db'.login_throttle; recovery_throttle = db'.recovery_throttle }

pub set_throttle_row-Throttled :
    (scope : ThrottleScope) (row : AuthThrottleRow) (db : Db)
    → Throttled db (set_throttle_row scope row db)
set_throttle_row-Throttled login row db = record { rest = refl }
set_throttle_row-Throttled recovery row db = record { rest = refl }

pub assert_not_locked-Throttled :
    (scope : ThrottleScope) (now : ℕ) (db : Db) → Throttled db (assert_not_locked scope now db).1
unfolding assert_not_locked assert_row
assert_not_locked-Throttled scope now db = by_lock (throttle_row scope db).locked_until
  where
    by_lock : (o : Option ℕ) → Throttled db (assert_row scope now (throttle_row scope db) o db).1
    by_lock none = record { rest = refl }
    by_lock (some until) = elim (Bool-cases (ltb now until)) [
      | inl e ↦ rw e (record { rest = refl })
      | inr e ↦ rw e (set_throttle_row-Throttled scope _ db)
    ]

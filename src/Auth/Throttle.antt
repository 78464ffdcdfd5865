-- ===== src/Auth/Throttle.antt =====
-- apps/api/src/auth/throttle.ts: the lockout after failed logins and recovery claims, and
-- resolveThrottleConfig of apps/api/src/settings.ts, which is passed in here as a record.
-- `now` is the reading of the clock that a call makes. JavaScript's differences of times may be
-- negative where those of ℕ stop at 0; the tests below give the same answer for both.
pub mod Frame
pub mod Lockout
pub mod Locked
use key_page.Prelude.{
  ℕ, suc, ◌+◌, ◌-◌, ◌*◌, ◌/◌, Bool, true, false, ◌||◌, Option, none, some, ltb, leb, if◌then◌else◌,
}
use key_page.Http.{rate_limited}
use key_page.Db.Rows.{Db, AuthThrottleRow, ThrottleScope, login, recovery}
use key_page.Db.Action.{Action, ok, err, pure, throw, read, write, ◌>>=◌, ◌>>◌}

-- ThrottleConfig
pub record ThrottleConfig : Type 0 where
  pub max_attempts : ℕ
  pub lockout_seconds : ℕ
  pub failure_window_seconds : ℕ

-- LockoutState
pub record LockoutState : Type 0 where
  pub locked : Bool
  pub retry_after_seconds : ℕ

-- `SELECT … WHERE scope = ?` and `UPDATE auth_throttle SET … WHERE scope = ?`
abbrev pub throttle_row : ThrottleScope → Db → AuthThrottleRow
throttle_row login db = db.login_throttle
throttle_row recovery db = db.recovery_throttle

abbrev pub set_throttle_row : ThrottleScope → AuthThrottleRow → Db → Db
set_throttle_row login row db = record db { login_throttle = row }
set_throttle_row recovery row db = record db { recovery_throttle = row }

-- `Math.ceil((until - now) / 1000)` where `now < until`
abbrev pub seconds_until : ℕ → ℕ → ℕ
seconds_until until now = (until - now + 999) / 1000

unlocked : LockoutState
unlocked = record { locked = false; retry_after_seconds = 0 }

lockout_state : Option ℕ → ℕ → LockoutState
unfolding unlocked
lockout_state none now = unlocked
lockout_state (some until) now =
    if ltb now until
    then record { locked = true; retry_after_seconds = seconds_until until now }
    else unlocked

-- readLockout
unfoldable pub read_lockout : ThrottleScope → ℕ → Action LockoutState
unfolding lockout_state
read_lockout scope now = read (λ db. lockout_state (throttle_row scope db).locked_until now)

assert_row : ThrottleScope → ℕ → AuthThrottleRow → Option ℕ → Action (Unit {0})
assert_row scope now row none = pure tt
assert_row scope now row (some until) =
    if ltb now until
    then throw (rate_limited "Too many attempts. Try again later." (seconds_until until now))
    else write (set_throttle_row scope (record row { locked_until = none; failed_count = 0 }))

-- assertNotLocked
unfoldable pub assert_not_locked : ThrottleScope → ℕ → Action (Unit {0})
unfolding assert_row
assert_not_locked scope now = do
  row ← read (throttle_row scope)
  assert_row scope now row row.locked_until

-- the two UPDATE statements that count a failure, and the one that locks
first_failure : ℕ → AuthThrottleRow → AuthThrottleRow
first_failure now row = record row {
  failed_count = 1;
  first_failed_at = some now;
  last_failed_at = some now;
  locked_until = none;
}

next_failure : ℕ → AuthThrottleRow → AuthThrottleRow
next_failure now row = record row { failed_count = row.failed_count + 1; last_failed_at = some now }

lock_out : ThrottleConfig → ℕ → AuthThrottleRow → AuthThrottleRow
lock_out config now row = record row {
  failed_count = 0;
  first_failed_at = none;
  last_failed_at = some now;
  locked_until = some (now + config.lockout_seconds * 1000);
  lockout_count = row.lockout_count + 1;
}

is_locked : Option ℕ → ℕ → Bool
is_locked none now = false
is_locked (some until) now = ltb now until

-- no failure yet, or the first one lies longer back than the window
window_over : ThrottleConfig → ℕ → Option ℕ → Bool
window_over config now none = true
window_over config now (some first) = ltb (config.failure_window_seconds * 1000) (now - first)

-- the row after a failure, and the attempts that remain, where the maximum is at least 1
unfoldable pub fail_row : ThrottleConfig → ℕ → AuthThrottleRow → AuthThrottleRow × ℕ
unfolding is_locked window_over first_failure next_failure lock_out
fail_row config now row =
    if is_locked row.locked_until now
    then (row, 0)
    else if window_over config now row.first_failed_at
    then (first_failure now row, config.max_attempts - 1)
    else if leb config.max_attempts (row.failed_count + 1)
    then (lock_out config now row, 0)
    else (next_failure now row, config.max_attempts - (row.failed_count + 1))

-- recordFailure
unfoldable pub record_failure : ThrottleScope → ThrottleConfig → ℕ → Action ℕ
unfolding fail_row
record_failure scope config now db =
    let (row, remaining) = fail_row config now (throttle_row scope db) in
    (ok remaining, set_throttle_row scope row db)

unfoldable pub reset_row : AuthThrottleRow → AuthThrottleRow
reset_row row = record row {
  failed_count = 0;
  first_failed_at = none;
  last_failed_at = none;
  locked_until = none;
}

-- resetThrottle
unfoldable pub reset_throttle : ThrottleScope → Action (Unit {0})
unfolding reset_row
reset_throttle scope = write (λ db. set_throttle_row scope (reset_row (throttle_row scope db)) db)

-- ===== src/Auth/Throttle/Locked.antt =====
-- What a locked scope still lets happen, and until when.
use key_page.Prelude.{
  ℕ, ◌+◌, ◌*◌, ◌≤◌, ◌<◌, ◌≡◌, refl, ◌⊎◌, inl, inr, true, false, Option, none, some, arith, ltb,
  Bool-cases,
}
use key_page.Http.{rate_limited}
use key_page.Db.Rows.{Db, AuthThrottleRow, ThrottleScope, login, recovery}
use key_page.Db.Action.{Result, ok, err}
use key_page.Auth.Throttle.{
  ThrottleConfig, LockoutState, throttle_row, set_throttle_row, seconds_until, assert_row,
  assert_not_locked, fail_row, record_failure, read_lockout, lockout_state,
}

set_same :
    (scope : ThrottleScope) (db : Db) → set_throttle_row scope (throttle_row scope db) db ≡ db
set_same login db = refl
set_same recovery db = refl

fail_row_locked :
    (config : ThrottleConfig) (now until : ℕ) (row : AuthThrottleRow)
    → row.locked_until ≡ some until
    → now < until
    → fail_row config now row ≡ (row, 0)
unfolding fail_row
fail_row_locked config now until row e h = ground arith

assert_row_locked :
    (scope : ThrottleScope) (now until : ℕ) (row : AuthThrottleRow) (db : Db)
    → now < until
    → assert_row scope now row (some until) db
      ≡ (err (rate_limited "Too many attempts. Try again later." (seconds_until until now)), db)
unfolding assert_row
assert_row_locked scope now until row db h = let e : ltb now until ≡ true = ground arith in rw e

assert_row_over :
    (scope : ThrottleScope) (now until : ℕ) (row : AuthThrottleRow) (db : Db)
    → until ≤ now
    → (assert_row scope now row (some until) db).0 ≡ ok tt
unfolding assert_row
assert_row_over scope now until row db h = let e : ltb now until ≡ false = ground arith in rw e

-- While a scope is locked, a failure is not counted and changes nothing, and `assert_not_locked`
-- throws without a write; the wait that its error names is at least one second and is enough: after
-- that many seconds the scope passes.
pub locked_scope :
    (scope : ThrottleScope) (config : ThrottleConfig) (now until : ℕ) (db : Db)
    → (throttle_row scope db).locked_until ≡ some until
    → now < until
    → let wait = seconds_until until now in
      (record_failure scope config now db ≡ (ok 0, db))
      × (assert_not_locked scope now db
          ≡ (err (rate_limited "Too many attempts. Try again later." wait), db))
      × (0 < wait)
      × ((assert_not_locked scope (now + wait * 1000) db).0 ≡ ok tt)
unfolding record_failure assert_not_locked
locked_scope scope config now until db e h = (
  rw (fail_row_locked config now until (throttle_row scope db) e h, set_same scope db),
  rw e (assert_row_locked scope now until (throttle_row scope db) db h),
  omega arith,
  rw e (
      assert_row_over scope (now + seconds_until until now * 1000) until (throttle_row scope db) db
        (omega arith)),
)

abbrev pub Agrees : LockoutState → Db → Result (Unit {0}) × Db → Type 0
Agrees s db asserted =
    ((s.locked ≡ true)
      × (asserted
          ≡ (err (rate_limited "Too many attempts. Try again later." s.retry_after_seconds), db)))
    ⊎ ((s.locked ≡ false) × (s.retry_after_seconds ≡ 0) × (asserted.0 ≡ ok tt))

assert_row-Agrees :
    (scope : ThrottleScope) (now : ℕ) (row : AuthThrottleRow) (db : Db) (o : Option ℕ)
    → Agrees (lockout_state o now) db (assert_row scope now row o db)
unfolding lockout_state assert_row
assert_row-Agrees scope now row db none = inr (refl, refl, refl)
assert_row-Agrees scope now row db (some until) = elim (Bool-cases (ltb now until)) [
  | inl e ↦ rw e (inl (refl, refl))
  | inr e ↦ rw e (inr (refl, refl, refl))
]

-- The status that the browser is shown agrees with the check that a request meets at the same time:
-- either it says locked, and the check throws with the same wait and writes nothing, or it says
-- unlocked with no wait, and the check passes.
pub read_lockout-Agrees :
    (scope : ThrottleScope) (now : ℕ) (db : Db)
    → (s : LockoutState) × (read_lockout scope now db ≡ (ok s, db))
      × Agrees s db (assert_not_locked scope now db)
unfolding read_lockout assert_not_locked
read_lockout-Agrees scope now db = (
  lockout_state (throttle_row scope db).locked_until now,
  refl,
  assert_row-Agrees scope now (throttle_row scope db) db (throttle_row scope db).locked_until,
)

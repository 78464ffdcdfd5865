-- ===== src/Auth/Throttle/Lockout.antt =====
-- When the throttle locks, for how long, and what a locked scope still lets happen.
use key_page.Prelude.{ℕ, ◌+◌, ◌*◌, ◌-◌, ◌≤◌, ◌<◌, ◌≡◌, none, some, List, [], ◌∷◌, arith, length}
use key_page.Tables.{All}
use key_page.Db.Rows.{AuthThrottleRow}
use key_page.Auth.Throttle.{ThrottleConfig, fail_row, reset_row}

-- the row after failures at these times
unfoldable pub after_failures : ThrottleConfig → List ℕ → AuthThrottleRow → AuthThrottleRow
after_failures config [] row = row
after_failures config (now ∷ times) row = after_failures config times (fail_row config now row).0

abbrev pub last : ℕ → List ℕ → ℕ
last t [] = t
last t (u ∷ times) = last u times

-- no time lies further back than the window after the first failure
abbrev pub InWindow : ThrottleConfig → ℕ → List ℕ → Type 0
InWindow config first times = All (λ t. t - first ≤ config.failure_window_seconds * 1000) times

-- a row that counts failures since `first`
record Counts (first n : ℕ) (row : AuthThrottleRow) : Type 0 where
  unlocked : row.locked_until ≡ none
  since : row.first_failed_at ≡ some first
  counted : row.failed_count ≡ n

module _ (config : ThrottleConfig) (first : ℕ) where
  fail_row-Counts :
      (t n : ℕ) (row : AuthThrottleRow)
      → Counts first n row
      → t - first ≤ config.failure_window_seconds * 1000
      → n + 1 < config.max_attempts
      → Counts first (n + 1) (fail_row config t row).0
  unfolding fail_row
  fail_row-Counts t n row c near few = ground arith

  fail_row-lock :
      (t n : ℕ) (row : AuthThrottleRow)
      → Counts first n row
      → t - first ≤ config.failure_window_seconds * 1000
      → n + 1 ≡ config.max_attempts
      → (fail_row config t row).0.locked_until ≡ some (t + config.lockout_seconds * 1000)
  unfolding fail_row
  fail_row-lock t n row c near full = ground arith

  after_failures-lock :
      (t : ℕ) (times : List ℕ) (n : ℕ) (row : AuthThrottleRow)
      → Counts first n row
      → InWindow config first (t ∷ times)
      → n + length (t ∷ times) ≡ config.max_attempts
      → (after_failures config (t ∷ times) row).locked_until
        ≡ some (last t times + config.lockout_seconds * 1000)
  unfolding after_failures
  after_failures-lock t [] n row c (near, _) full = fail_row-lock t n row c near (omega arith)
  after_failures-lock t (u ∷ times) n row c (near, more) full =
      after_failures-lock u times (n + 1) (fail_row config t row).0
        (fail_row-Counts t n row c near (omega arith)) more (omega arith)

  after_failures-Counts :
      (times : List ℕ) (n : ℕ) (row : AuthThrottleRow)
      → Counts first n row
      → InWindow config first times
      → n + length times < config.max_attempts
      → Counts first (n + length times) (after_failures config times row)
  unfolding after_failures
  after_failures-Counts [] n row c w few = record {
    unlocked = c.unlocked;
    since = c.since;
    counted = omega (arith, c.counted);
  }
  after_failures-Counts (t ∷ times) n row c (near, more) few =
      let later =
        after_failures-Counts times (n + 1) (fail_row config t row).0
          (fail_row-Counts t n row c near (omega arith)) more (omega arith) in
      record {
        unlocked = later.unlocked;
        since = later.since;
        counted = omega (arith, later.counted);
      }

reset-fail-Counts :
    (config : ThrottleConfig) (t : ℕ) (row : AuthThrottleRow)
    → Counts t 1 (fail_row config t (reset_row row)).0
unfolding fail_row reset_row
reset-fail-Counts config t row = ground arith

-- After a reset, the failure that reaches `max_attempts`, of at least two, locks for the lockout's
-- time counted from that last failure, if every failure lies in the window after the first.
pub failures-lock :
    (config : ThrottleConfig) (row : AuthThrottleRow) (first t : ℕ) (times : List ℕ)
    → InWindow config first (t ∷ times)
    → length (first ∷ t ∷ times) ≡ config.max_attempts
    → (after_failures config (first ∷ t ∷ times) (reset_row row)).locked_until
      ≡ some (last t times + config.lockout_seconds * 1000)
unfolding after_failures
failures-lock config row first t times near full =
    after_failures-lock config first t times 1 _ (reset-fail-Counts config first row) near
      (omega arith)

-- After a reset, fewer failures than `max_attempts` in the window lock nothing, and are counted.
pub failures-count :
    (config : ThrottleConfig) (row : AuthThrottleRow) (first : ℕ) (times : List ℕ)
    → InWindow config first times
    → length (first ∷ times) < config.max_attempts
    → let r = after_failures config (first ∷ times) (reset_row row) in
      (r.locked_until ≡ none) × (r.failed_count ≡ length (first ∷ times))
unfolding after_failures
failures-count config row first times near few =
    let c =
      after_failures-Counts config first times 1 _ (reset-fail-Counts config first row) near
        (omega arith) in
    (c.unlocked, omega (arith, c.counted))

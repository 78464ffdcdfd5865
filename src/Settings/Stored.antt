-- ===== src/Settings/Stored.antt =====
-- What a change of the settings stores.
use key_page.Prelude.{
  ℕ, zero, suc, ◌+◌, ◌*◌, ◌≤◌, ◌<◌, ◌≡◌, refl, ap, ◌∙◌, String, Bool, true, false, Option, none,
  some, List, [], ◌∷◌, arith, ◌==◌, ◌/◌, if◌then◌else◌,
}
use native.Mathlib.Nat.{mul_left_comm, mul-add-div_right, div-eq_of_lt, add-zero}
use key_page.Tables.{find, update, any}
use key_page.Db.Action.{ok}
use key_page.Settings.{
  Finite, power, whole, clamp, round, nearest, clamp_idle_minutes, SettingRow, is_value,
  is_idle_minutes_option, parsed, given, setting, value_of, clamped, first_of,
  read_idle_timeout_setting, describe_idle_timeout, write_idle_timeout_setting, app_settings,
  is_env, patch_settings, database,
}

module _ (key : String) (row : SettingRow) (named : (row.key == key) ≡ true) where
  find-update :
      (rows : List SettingRow)
      → any (λ r. r.key == key) rows ≡ true
      → find (λ r. r.key == key) (update (λ r. r.key == key) (λ r. row) rows) ≡ some row
  unfolding find any update
  find-update [] h = absurd (ground (arith, h))
  find-update (r ∷ rows) h = ground (arith, h, named, find-update rows)

  find-written :
      (b : Bool) (rows : List SettingRow)
      → any (λ r. r.key == key) rows ≡ b
      → find
          (λ r. r.key == key)
          (if b then update (λ r. r.key == key) (λ r. row) rows else row ∷ rows)
        ≡ some row
  unfolding find
  find-written true rows h = find-update rows h
  find-written false rows h = rw named refl

power-positive : (k : ℕ) → 0 < power k
power-positive zero = omega arith
power-positive (suc k) = omega (arith, power-positive k)

half_rounds : (p n : ℕ) → 0 < p → (2 * (n * p) + p) / (2 * p) ≡ n
half_rounds p n h =
    let double : 0 < 2 * p = omega (arith, h) in
    ap (λ x. (x + p) / (2 * p)) (mul_left_comm 2 n p)
    ∙ mul-add-div_right double n p
    ∙ ap (λ x. n + x) (div-eq_of_lt (omega (arith, h)))
    ∙ add-zero n

nearest-is_value : (n : ℕ) (x : Finite) → is_value n x ≡ true → nearest x ≡ n
unfolding nearest is_value
nearest-is_value n x h =
    let value : x.numerator ≡ n * power x.halvings = ground (arith, h) in
    rw value (half_rounds (power x.halvings) n (power-positive x.halvings))

-- the whole number that an option is
option_of : (x : Finite) → is_idle_minutes_option x ≡ true → (15 ≤ nearest x) × (nearest x ≤ 30)
unfolding is_idle_minutes_option
option_of x h = ground (
  arith,
  h,
  nearest-is_value 15 x,
  nearest-is_value 20 x,
  nearest-is_value 25 x,
  nearest-is_value 30 x,
)

clamp-whole : (n : ℕ) → 15 ≤ n → n ≤ 30 → clamp_idle_minutes (whole n) ≡ n
unfolding clamp_idle_minutes clamp round nearest
clamp-whole n l u = let exact : (2 * n + 1) / 2 ≡ n = omega arith in rw exact (ground (arith, l, u))

module _ (number : String → Option Finite) (environment : String → Option String)
    (number_text : ℕ → String) where
  not_env :
      (rows : List SettingRow)
      → parsed number (given (environment "KEYPAGE_SESSION_IDLE_MINUTES")) ≡ none
      → is_env (describe_idle_timeout number environment rows).1 ≡ false
  unfolding describe_idle_timeout clamped is_env first_of
  not_env rows unset = rw unset (from_table (read_idle_timeout_setting number rows))
    where
      from_table : (o : Option ℕ) → is_env (first_of number 20 none o).1 ≡ false
      from_table none = refl
      from_table (some n) = refl

  describe-write :
      (minutes : Finite) (now : String) (rows : List SettingRow)
      → ((n : ℕ) → number (number_text n) ≡ some (whole n))
      → is_idle_minutes_option minutes ≡ true
      → parsed number (given (environment "KEYPAGE_SESSION_IDLE_MINUTES")) ≡ none
      → describe_idle_timeout number environment
          (write_idle_timeout_setting number environment number_text minutes now rows)
        ≡ (nearest minutes, database)
  unfolding describe_idle_timeout clamped read_idle_timeout_setting setting value_of first_of parsed
      write_idle_timeout_setting
  describe-write minutes now rows reads option unset =
      let (l, u) = option_of minutes option in
      rw
        (
          unset,
          find-written "session_idle_minutes"
              (record {
                key = "session_idle_minutes";
                value = number_text (nearest minutes);
                updated_at = now;
              })
              refl _ rows refl,
          reads (nearest minutes),
          clamp-whole (nearest minutes) l u,
        )
        refl

  -- A change of the idle time to one of the options, where the environment sets none and a number
  -- that is written as a text reads back as itself, is stored and takes effect: the answer, and every
  -- later description, has those minutes, from the database.
  pub patch_settings-describe :
      (minutes : Finite) (now : String) (rows : List SettingRow)
      → ((n : ℕ) → number (number_text n) ≡ some (whole n))
      → is_idle_minutes_option minutes ≡ true
      → parsed number (given (environment "KEYPAGE_SESSION_IDLE_MINUTES")) ≡ none
      → let r = patch_settings number environment number_text minutes now rows in
        (r.0 ≡ ok (app_settings number environment r.1))
        × (describe_idle_timeout number environment r.1 ≡ (nearest minutes, database))
  unfolding patch_settings
  patch_settings-describe minutes now rows reads option unset =
      rw (option, not_env rows unset) (refl, describe-write minutes now rows reads option unset)

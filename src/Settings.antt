-- ===== src/Settings.antt =====
-- apps/api/src/settings.ts and apps/api/src/routes/settings.ts: the limits that the environment and
-- the table app_settings set. `Number(…)` of a text is a parameter, with the finite numbers as they
-- are in binary; the environment is a function. The session of a settings request is checked before.
pub mod Bounds
pub mod Stored
use key_page.Prelude.{
  ℕ, zero, suc, ◌+◌, ◌-◌, ◌*◌, ◌/◌, String, Bool, true, false, not, ◌||◌, ◌&&◌, Option, none, some,
  List, [], ◌∷◌, ◌==◌, ◌=ℕ◌, leb, ltb, if◌then◌else◌,
}
use key_page.Http.{HttpError, invalid_request}
use key_page.Tables.{find, update, any}
use key_page.Db.Rows.{ℤ, pos, negsuc}
use key_page.Db.Action.{Result, ok, err}
use key_page.Auth.Throttle.{ThrottleConfig}

abbrev pub power : ℕ → ℕ
power zero = 1
power (suc k) = 2 * power k

-- a finite number: the numerator over 2 to the power of `halvings`, with its sign
pub record Finite : Type 0 where
  pub negative : Bool
  pub numerator : ℕ
  pub halvings : ℕ

abbrev pub whole : ℕ → Finite
whole n = record { negative = false; numerator = n; halvings = 0 }

abbrev negate : ℕ → ℤ
negate zero = pos zero
negate (suc n) = negsuc n

-- the nearest whole number to `numerator / 2 ^ halvings`, upwards from a half
unfoldable pub nearest : Finite → ℕ
nearest x = (2 * x.numerator + power x.halvings) / (2 * power x.halvings)

-- `Math.round`, where a half goes upwards also below 0
unfoldable pub round : Finite → ℤ
unfolding nearest
round x = elim x.negative [
  | false ↦ pos (nearest x)
  | true ↦ negate ((2 * x.numerator + power x.halvings - 1) / (2 * power x.halvings))
]

-- `Math.min(max, Math.max(min, value))`, with whole bounds that are not negative
unfoldable pub clamp : (min max : ℕ) → ℤ → ℕ
clamp min max (negsuc n) = if leb min max then min else max
clamp min max (pos n) =
    let least = if leb min n then n else min in if leb least max then least else max

-- clampIdleMinutes
unfoldable pub clamp_idle_minutes : Finite → ℕ
clamp_idle_minutes minutes = clamp 15 30 (round minutes)

-- clampClipboardClearSeconds, with the bounds of packages/shared/src/key-entries.ts
unfoldable pub clamp_clipboard_clear_seconds : Finite → ℕ
clamp_clipboard_clear_seconds seconds = clamp 5 300 (round seconds)

-- the value of a finite number is the whole number n
unfoldable pub is_value : ℕ → Finite → Bool
is_value n x = (x.numerator =ℕ n * power x.halvings) && (not x.negative || x.numerator =ℕ 0)

-- isIdleMinutesOption
unfoldable pub is_idle_minutes_option : Finite → Bool
is_idle_minutes_option minutes =
    is_value 15 minutes || is_value 20 minutes || is_value 25 minutes || is_value 30 minutes

-- a row of app_settings, where `key` is the primary key
pub record SettingRow : Type 0 where
  pub key : String
  pub value : String
  pub updated_at : String

-- IdleTimeoutSource
pub data IdleTimeoutSource : Type 0 where
  env database default : IdleTimeoutSource

unfoldable pub is_env : IdleTimeoutSource → Bool
is_env env = true
is_env database = false
is_env default = false

-- AppSettingsResponse
pub record AppSettings : Type 0 where
  pub session_idle_minutes : ℕ
  pub session_idle_source : IdleTimeoutSource
  pub clipboard_clear_seconds : ℕ

unfoldable pub value_of : Option SettingRow → Option String
value_of none = none
value_of (some row) = some row.value

-- the value of a key in app_settings
unfoldable pub setting : String → List SettingRow → Option String
setting key rows = value_of (find (λ r. r.key == key) rows)

-- a variable that is there and not empty
unfoldable pub given : Option String → Option String
given none = none
given (some s) = if s == "" then none else some s

module _ (number : String → Option Finite) where
  -- `Number.isFinite(Number(…))` of a text that may not be there
  unfoldable pub parsed : Option String → Option Finite
  parsed none = none
  parsed (some s) = number s

  unfoldable pub clamped : (Finite → ℕ) → Option Finite → Option ℕ
  clamped f none = none
  clamped f (some x) = some (f x)

  -- readIdleTimeoutSetting
  unfoldable pub read_idle_timeout_setting : List SettingRow → Option ℕ
  read_idle_timeout_setting rows =
      clamped clamp_idle_minutes (parsed (setting "session_idle_minutes" rows))

  unfoldable pub first_of : ℕ → Option ℕ → Option ℕ → ℕ × IdleTimeoutSource
  first_of fallback (some n) stored = (n, env)
  first_of fallback none (some n) = (n, database)
  first_of fallback none none = (fallback, default)

  module _ (environment : String → Option String) where
    -- describeIdleTimeout
    unfoldable pub describe_idle_timeout : List SettingRow → ℕ × IdleTimeoutSource
    describe_idle_timeout rows =
        first_of 20
          (clamped clamp_idle_minutes (parsed (given (environment "KEYPAGE_SESSION_IDLE_MINUTES"))))
          (read_idle_timeout_setting rows)

    -- resolveIdleTimeoutSeconds
    unfoldable pub resolve_idle_timeout_seconds : List SettingRow → ℕ
    resolve_idle_timeout_seconds rows = (describe_idle_timeout rows).0 * 60

    -- resolveClipboardClearSeconds
    unfoldable pub resolve_clipboard_clear_seconds : List SettingRow → ℕ
    resolve_clipboard_clear_seconds rows =
        (first_of 30
          (clamped clamp_clipboard_clear_seconds
            (parsed (given (environment "KEYPAGE_CLIPBOARD_CLEAR_SECONDS"))))
          (clamped clamp_clipboard_clear_seconds
            (parsed (setting "clipboard_clear_seconds" rows)))).0

    -- the end of readPositiveIntEnv: `parsed <= 0` falls back, and the rest is rounded
    unfoldable pub round_positive : ℕ → Option Finite → ℕ
    round_positive fallback none = fallback
    round_positive fallback (some x) =
        if x.negative || x.numerator =ℕ 0 then fallback else nearest x

    -- readPositiveIntEnv
    unfoldable pub read_positive_int_env : String → ℕ → ℕ
    read_positive_int_env name fallback =
        round_positive fallback (parsed (given (environment name)))

    -- resolveThrottleConfig
    unfoldable pub resolve_throttle_config : ThrottleConfig
    resolve_throttle_config = record {
      max_attempts = read_positive_int_env "KEYPAGE_LOGIN_MAX_ATTEMPTS" 5;
      lockout_seconds = read_positive_int_env "KEYPAGE_LOGIN_LOCKOUT_MINUTES" 5 * 60;
      failure_window_seconds = read_positive_int_env "KEYPAGE_LOGIN_FAILURE_WINDOW_SECONDS" 900;
    }

    -- buildAppSettingsResponse
    unfoldable pub app_settings : List SettingRow → AppSettings
    app_settings rows = record {
      session_idle_minutes = (describe_idle_timeout rows).0;
      session_idle_source = (describe_idle_timeout rows).1;
      clipboard_clear_seconds = resolve_clipboard_clear_seconds rows;
    }

    module _ (number_text : ℕ → String) where
      -- writeIdleTimeoutSetting; a value that is an option is not negative
      unfoldable pub write_idle_timeout_setting :
          Finite → (now : String) → List SettingRow → List SettingRow
      write_idle_timeout_setting minutes now rows =
          let row : SettingRow = record {
            key = "session_idle_minutes";
            value = number_text (nearest minutes);
            updated_at = now;
          } in
          if any (λ r. r.key == "session_idle_minutes") rows
          then update (λ r. r.key == "session_idle_minutes") (λ r. row) rows
          else row ∷ rows

      abbrev not_an_option : HttpError
      not_an_option =
          invalid_request "Invalid sessionIdleMinutes" (
            record { field = "sessionIdleMinutes"; message = "must be one of 15, 20, 25, 30" } ∷ [])

      abbrev set_by_server : HttpError
      set_by_server = invalid_request "Session timeout is set by the server" (
          record {
            field = "sessionIdleMinutes";
            message =
                "KEYPAGE_SESSION_IDLE_MINUTES is set on the server; unset it to change the timeout here";
          }
          ∷ [])

      -- PATCH / of the settings, with the rows that it leaves
      unfoldable pub patch_settings :
          Finite → (now : String) → List SettingRow → Result AppSettings × List SettingRow
      patch_settings minutes now rows =
          if not (is_idle_minutes_option minutes)
          then (err not_an_option, rows)
          else if is_env (describe_idle_timeout rows).1
          then (err set_by_server, rows)
          else (
            ok (app_settings (write_idle_timeout_setting minutes now rows)),
            write_idle_timeout_setting minutes now rows,
          )

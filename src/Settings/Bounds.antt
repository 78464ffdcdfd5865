-- ===== src/Settings/Bounds.antt =====
-- The bounds of the settings.
use key_page.Prelude.{ℕ, ◌*◌, ◌≤◌, String, Option, none, some, List, arith}
use key_page.Db.Rows.{ℤ, pos, negsuc}
use key_page.Settings.{
  Finite, clamp, round, clamp_idle_minutes, clamp_clipboard_clear_seconds, SettingRow, parsed,
  given, setting, clamped, first_of, read_idle_timeout_setting, describe_idle_timeout,
  resolve_idle_timeout_seconds, resolve_clipboard_clear_seconds,
}

clamp_bounds : (min max : ℕ) (z : ℤ) → min ≤ max → (min ≤ clamp min max z) × (clamp min max z ≤ max)
unfolding clamp
clamp_bounds min max (pos n) h = ground (arith, h)
clamp_bounds min max (negsuc n) h = ground (arith, h)

clamped_bounds :
    (number : String → Option Finite) (f : Finite → ℕ) (lo hi fallback : ℕ) (a b : Option Finite)
    → ((x : Finite) → (lo ≤ f x) × (f x ≤ hi))
    → lo ≤ fallback
    → fallback ≤ hi
    → let v = (first_of number fallback (clamped number f a) (clamped number f b)).0 in
      (lo ≤ v) × (v ≤ hi)
unfolding first_of clamped
clamped_bounds number f lo hi fallback (some x) b h l u = h x
clamped_bounds number f lo hi fallback none (some y) h l u = h y
clamped_bounds number f lo hi fallback none none h l u = (l, u)

-- Whatever the environment and the table hold, also where they hold no number, a session is idle for
-- 15 to 30 minutes at most, and the clipboard is cleared after 5 to 300 seconds.
pub settings_bounds :
    (number : String → Option Finite) (environment : String → Option String)
    (rows : List SettingRow)
    → (15 * 60 ≤ resolve_idle_timeout_seconds number environment rows)
      × (resolve_idle_timeout_seconds number environment rows ≤ 30 * 60)
      × (5 ≤ resolve_clipboard_clear_seconds number environment rows)
      × (resolve_clipboard_clear_seconds number environment rows ≤ 300)
unfolding resolve_idle_timeout_seconds resolve_clipboard_clear_seconds describe_idle_timeout
    read_idle_timeout_setting clamp_idle_minutes clamp_clipboard_clear_seconds
settings_bounds number environment rows =
    let (a, b) =
      clamped_bounds number clamp_idle_minutes 15 30 20
        (parsed number (given (environment "KEYPAGE_SESSION_IDLE_MINUTES")))
        (parsed number (setting "session_idle_minutes" rows))
        (λ x. clamp_bounds 15 30 (round x) (omega arith)) (omega arith) (omega arith) in
    let (c, d) =
      clamped_bounds number clamp_clipboard_clear_seconds 5 300 30
        (parsed number (given (environment "KEYPAGE_CLIPBOARD_CLEAR_SECONDS")))
        (parsed number (setting "clipboard_clear_seconds" rows))
        (λ x. clamp_bounds 5 300 (round x) (omega arith)) (omega arith) (omega arith) in
    (omega (arith, a), omega (arith, b), c, d)

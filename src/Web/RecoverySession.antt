-- ===== src/Web/RecoverySession.antt =====
-- apps/web/src/vault/recovery-session.ts: the recovered master key between the claim of a recovery
-- code and the reset. A key is a number that stands for its array of bytes, and `wiped` has the keys
-- that were zeroized. An attempt is what `beginComplete` returned, with its own `settled`.
pub mod Single
pub mod Wiped
use key_page.Prelude.{
  ℕ, zero, suc, ◌+◌, String, Bool, true, false, not, ◌&&◌, ◌||◌, Option, none, some, List, [], ◌∷◌,
  ◌++◌, ◌=ℕ◌, if◌then◌else◌, is_some,
}
use key_page.Tables.{any, count}
use key_page.Db.Rows.{KeyEntryRow}

-- RecoverySessionStart, and `held`
pub record Held : Type 0 where
  pub ticket : String
  pub challenge_nonce_b64 : String
  pub entries : List KeyEntryRow
  pub master_key : ℕ

-- RecoveryAttempt
pub record Attempt : Type 0 where
  pub content : Held
  pub captured_epoch : ℕ
  pub settled : Bool

pub record Session : Type 0 where
  pub held : Option Held
  pub epoch : ℕ
  pub attempts : List Attempt
  pub wiped : List ℕ

-- createRecoverySession
unfoldable pub fresh : Session
fresh = record { held = none; epoch = 0; attempts = []; wiped = [] }

-- `if (held) zeroize(held.masterKey);`
unfoldable pub wipe_held : Option Held → List ℕ → List ℕ
wipe_held none wiped = wiped
wipe_held (some h) wiped = h.master_key ∷ wiped

unfoldable pub start : Held → Session → Session
start input s = record s {
  held = some input;
  epoch = suc s.epoch;
  wiped = wipe_held s.held s.wiped;
}

unfoldable pub is_active : Session → Bool
is_active s = is_some s.held

unfoldable pub check_out : Option Held → Session → Session
check_out none s = s
check_out (some h) s = record s {
  held = none;
  attempts = record { content = h; captured_epoch = s.epoch; settled = false } ∷ s.attempts;
}

-- beginComplete: the new attempt is the first of the list
unfoldable pub begin_complete : Session → Session
begin_complete s = check_out s.held s

unfoldable pub nth : ℕ → List Attempt → Option Attempt
nth i [] = none
nth zero (a ∷ rest) = some a
nth (suc i) (a ∷ rest) = nth i rest

-- `settled = true`
unfoldable pub settle : ℕ → List Attempt → List Attempt
settle i [] = []
settle zero (a ∷ rest) = record a { settled = true } ∷ rest
settle (suc i) (a ∷ rest) = a ∷ settle i rest

unfoldable pub wipe_attempt : ℕ → Attempt → Session → Session
wipe_attempt i a s = record s {
  attempts = settle i s.attempts;
  wiped = a.content.master_key ∷ s.wiped;
}

unfoldable pub restore_attempt : ℕ → Attempt → Session → Session
restore_attempt i a s = record s { attempts = settle i s.attempts; held = some a.content }

unfoldable pub succeed : ℕ → Option Attempt → Session → Session × Bool
succeed i none s = (s, false)
succeed i (some a) s =
    if a.settled then (s, false) else (wipe_attempt i a s, a.captured_epoch =ℕ s.epoch)

-- succeeded, of the i-th attempt from the last, with its result
unfoldable pub succeeded : ℕ → Session → Session × Bool
succeeded i s = succeed i (nth i s.attempts) s

unfoldable pub fail : ℕ → Option Attempt → Session → Session
fail i none s = s
fail i (some a) s =
    if a.settled
    then s
    else if a.captured_epoch =ℕ s.epoch
    then restore_attempt i a s
    else wipe_attempt i a s

-- failed, of the i-th attempt from the last
unfoldable pub failed : ℕ → Session → Session
failed i s = fail i (nth i s.attempts) s

-- openTicket
unfoldable pub open_ticket : Session → Option String
open_ticket s = elim s.held [ none ↦ none | some h ↦ some h.ticket ]

unfoldable pub clear : Session → Session
clear s = record s { held = none; epoch = suc s.epoch; wiped = wipe_held s.held s.wiped }

-- what a page can do with the session
pub data Op : Type 0 where
  starts : Held → Op
  begins clears : Op
  succeeds fails : ℕ → Op

unfoldable pub step : Op → Session → Session
step (starts h) s = start h s
step begins s = begin_complete s
step clears s = clear s
step (succeeds i) s = (succeeded i s).0
step (fails i) s = failed i s

unfoldable pub run : List Op → Session → Session
run [] s = s
run (op ∷ ops) s = run ops (step op s)

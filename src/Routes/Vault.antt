-- ===== src/Routes/Vault.antt =====
-- The other handlers of apps/api/src/routes/vault.ts: the status, the session, its challenge, touch
-- and lock, and the recovery by a code. What a handler draws is in its arguments. A cookie that a
-- reply sets or clears is not part of the database.
use key_page.Prelude.{ℕ, ◌-◌, ◌/◌, String, Bool, true, false, not, Option, none, some, is_none}
use key_page.Http.{invalid_recovery_code, setup_required}
use key_page.Db.Rows.{KdfParams, VaultAuthRow, login, recovery}
use key_page.Db.Action.{Action, pure, throw, read, throw_if, ◌>>=◌, ◌>>◌}
use key_page.Keys.Repo.{get_vault_auth}
use key_page.Auth.Throttle.{LockoutState, assert_not_locked, record_failure, read_lockout}
use key_page.Auth.Challenges.{IssuedLoginChallenge, create_login_challenge}
use key_page.Auth.Sessions.{
  SessionRequest, SessionResolution, resolved, refused, resolve_session, require_session,
  touch_session,
}
use key_page.Auth.Vault.{is_vault_initialized, count_unused_recovery_codes}
use key_page.Auth.Claim.{NewTicket, RecoveryClaim, claim_recovery_code, cancel_recovery_ticket}
use key_page.Routes.Request.{validate_stored_key_hex}
use key_page.Routes.Proof.{truthy, require_auth_stored_key}
use key_page.Routes.Login.{Server, revoke_resolved}

-- VaultStatusResponse; its session says the same as `authenticated`, with the idle timeout
pub record Status : Type 0 where
  pub initialized : Bool
  pub kdf : Option KdfParams
  pub recovery_codes_remaining : ℕ
  pub key_version : ℕ
  pub lockout : LockoutState
  pub recovery_lockout : LockoutState
  pub authenticated : Bool
  pub proof_ready : Bool

-- VaultSessionResponse
pub record SessionResponse : Type 0 where
  pub authenticated : Bool
  pub idle_timeout_seconds : ℕ
  pub idle_seconds_remaining : ℕ
  pub absolute_expires_at : Option ℕ

abbrev pub is_authenticated : SessionResolution → Bool
is_authenticated (resolved s) = true
is_authenticated (refused why) = false

status_of : Option VaultAuthRow → ℕ → LockoutState → LockoutState → Bool → Status
status_of none remaining lockout recovery_lockout authenticated = record {
  initialized = false;
  kdf = none;
  recovery_codes_remaining = 0;
  key_version = 0;
  lockout = lockout;
  recovery_lockout = recovery_lockout;
  authenticated = false;
  proof_ready = false;
}
status_of (some vault) remaining lockout recovery_lockout authenticated = record {
  initialized = true;
  kdf = some vault.kdf;
  recovery_codes_remaining = remaining;
  key_version = vault.key_version;
  lockout = lockout;
  recovery_lockout = recovery_lockout;
  authenticated = authenticated;
  proof_ready = not (is_none (truthy vault.auth_stored_key));
}

-- `Math.max(0, idleSeconds - elapsed)`, where subtraction stops at 0
unfoldable pub session_response : ℕ → ℕ → SessionResolution → SessionResponse
session_response idle_seconds now (refused why) = record {
  authenticated = false;
  idle_timeout_seconds = idle_seconds;
  idle_seconds_remaining = 0;
  absolute_expires_at = none;
}
session_response idle_seconds now (resolved s) = record {
  authenticated = true;
  idle_timeout_seconds = idle_seconds;
  idle_seconds_remaining = idle_seconds - (now - s.last_seen_at) / 1000;
  absolute_expires_at = some s.absolute_expires_at;
}

unfoldable pub claimed : {A : Type 0} → Server → ℕ → Option A → Action A
claimed server now (some claim) = pure claim
claimed server now none = do
  attempts_remaining ← record_failure recovery server.throttle now
  throw (invalid_recovery_code attempts_remaining)

module _ (server : Server) (now : ℕ) where
  unfoldable pub resolve : SessionRequest → Action SessionResolution
  resolve req = resolve_session server.platform.sha256_hex req server.idle_timeout_seconds now

  -- buildStatusResponse
  unfoldable pub status : SessionRequest → Action Status
  unfolding resolve status_of
  status req = do
    resolution ← resolve req
    vault ← get_vault_auth
    remaining ← read count_unused_recovery_codes
    lockout ← read_lockout login now
    recovery_lockout ← read_lockout recovery now
    pure (status_of vault remaining lockout recovery_lockout (is_authenticated resolution))

  -- buildSessionResponse
  unfoldable pub session : SessionRequest → Action SessionResponse
  unfolding resolve
  session req = do
    resolution ← resolve req
    pure (session_response server.idle_timeout_seconds now resolution)

  -- /login/challenge
  unfoldable pub login_challenge : (id nonce : String) → Action IssuedLoginChallenge
  login_challenge id nonce = do
    initialized ← read is_vault_initialized
    throw_if (not initialized) setup_required
    assert_not_locked login now
    key ← require_auth_stored_key
    create_login_challenge login id nonce now

  -- /session/touch, with its `requireSession`
  unfoldable pub touch : SessionRequest → Action (Unit {0})
  touch req = do
    s ← require_session server.platform.sha256_hex req server.idle_timeout_seconds now
    touch_session s.id now

  -- /lock
  unfoldable pub lock : SessionRequest → Action (Unit {0})
  unfolding resolve
  lock req = do resolution ← resolve req; revoke_resolved resolution now

  -- /recovery/claim
  unfoldable pub recovery_claim : (lookup_hash : String) → NewTicket → Action RecoveryClaim
  unfolding claimed
  recovery_claim lookup_hash new = do
    initialized ← read is_vault_initialized
    throw_if (not initialized) setup_required
    assert_not_locked recovery now
    validate_stored_key_hex server.platform lookup_hash "lookupHash"
    result ← claim_recovery_code server.platform.sha256_hex lookup_hash new now
    claimed server now result

  -- /recovery/cancel
  unfoldable pub recovery_cancel : (recovery_ticket : String) → Action (Unit {0})
  recovery_cancel recovery_ticket = do
    cancelled ← cancel_recovery_ticket server.platform.sha256_hex recovery_ticket now
    pure tt

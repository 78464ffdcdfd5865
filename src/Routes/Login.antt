-- ===== src/Routes/Login.antt =====
-- The `/login` handler of apps/api/src/routes/vault.ts.
pub mod Admits
pub mod Proven
use Prim.Native.String
use key_page.Prelude.{
  ℕ, String, Bool, true, false, not, ◌||◌, Option, none, some, List, [], ◌∷◌, ◌==◌, is_none,
  if◌then◌else◌,
}
use key_page.Http.{HttpError, invalid_request, invalid_credentials, setup_required}
use key_page.Db.Rows.{Db, VaultAuthRow, login}
use key_page.Db.Action.{
  Result, ok, err, Action, pure, throw, read, throw_if, require, transaction, ◌>>=◌, ◌>>◌,
}
use key_page.Keys.Repo.{get_vault_auth}
use key_page.Auth.Throttle.{ThrottleConfig, assert_not_locked, reset_throttle}
use key_page.Auth.Sessions.{
  SessionRequest, SessionInfo, NewSession, SessionResolution, resolved, refused, resolve_session,
  revoke_session, create_session,
}
use key_page.Auth.Vault.{is_vault_initialized}
use key_page.Routes.Request.{Platform, validate_client_proof_b64}
use key_page.Routes.Proof.{
  truthy, incorrect_password, LoginProof, verify_login_proof, revoke_open_recovery_tickets,
}

-- the body of the request: `authKeyB64` is refused wherever it stands
pub record LoginBody : Type 0 where
  pub challenge_id : Option String
  pub nonce_b64 : Option String
  pub client_proof_b64 : Option String
  pub has_auth_key : Bool

pub record LoginResult : Type 0 where
  pub info : SessionInfo
  pub key_version : ℕ

-- VaultLoginResponse, with what the server knows of the platform and of the settings
pub record Server : Type 0 where
  pub platform : Platform
  pub throttle : ThrottleConfig
  pub idle_timeout_seconds : ℕ

-- `currentVault?.auth_stored_key !== storedKeyHex` refuses
unfoldable pub with_key : String → Option VaultAuthRow → Option VaultAuthRow
with_key stored_key_hex none = none
with_key stored_key_hex (some vault) = elim vault.auth_stored_key [
  | none ↦ none
  | some key ↦ if key == stored_key_hex then some vault else none
]

unfoldable pub revoke_resolved : SessionResolution → ℕ → Action (Unit {0})
revoke_resolved (resolved s) now = revoke_session s.id now
revoke_resolved (refused why) now = pure tt

unfoldable pub is_invalid_credentials : HttpError → Bool
is_invalid_credentials (invalid_credentials n) = true
is_invalid_credentials e = false

-- the `catch` of finishLogin
unfoldable pub catch_credentials : {A : Type 0} → ThrottleConfig → ℕ → Result A × Db → Result A × Db
catch_credentials config now (err e, db) =
    if is_invalid_credentials e then incorrect_password config now db else (err e, db)
catch_credentials config now (ok a, db) = (ok a, db)

all_given : Option String → Option String → Option String → Option LoginProof
all_given none nonce_b64 client_proof_b64 = none
all_given (some id) none client_proof_b64 = none
all_given (some id) (some nonce) none = none
all_given (some id) (some nonce) (some client_proof) =
    some (record { challenge_id = id; nonce_b64 = nonce; client_proof_b64 = client_proof })

-- challengeId, nonceB64 and clientProofB64, each there and not empty
unfoldable pub proof_of : LoginBody → Option LoginProof
unfolding all_given
proof_of body =
    all_given (truthy body.challenge_id) (truthy body.nonce_b64) (truthy body.client_proof_b64)

abbrev proof_required : HttpError
proof_required = invalid_request "Login proof is required" (
    record {
      field = "clientProofB64";
      message = "challengeId, nonceB64, and clientProofB64 are required";
    }
    ∷ [])

abbrev secret_sent : HttpError
secret_sent =
    invalid_request "Client-only secret material is not accepted"
      (record { field = "authKeyB64"; message = "must never be sent to the server" } ∷ [])

abbrev legacy_vault : HttpError
legacy_vault =
    invalid_request
      "Legacy vault login cannot cross the zero-knowledge boundary; recover or re-setup."
      (record { field = "auth"; message = "challenge proof enrollment is required" } ∷ [])

module _ (server : Server) (req : SessionRequest) (new : NewSession) (now : ℕ) where
  -- the transaction of finishLogin
  unfoldable pub open_session : (stored_key_hex : String) → Action LoginResult
  open_session stored_key_hex = do
    found ← get_vault_auth
    vault ← require (with_key stored_key_hex found) (invalid_credentials 0)
    current ← resolve_session server.platform.sha256_hex req server.idle_timeout_seconds now
    revoke_resolved current now
    revoke_open_recovery_tickets now
    info ← create_session server.platform.sha256_hex req new server.idle_timeout_seconds now
    pure (record { info = info; key_version = vault.key_version })

  -- finishLogin
  unfoldable pub finish_login : (stored_key_hex : String) → Action LoginResult
  finish_login stored_key_hex db =
      catch_credentials server.throttle now (transaction (open_session stored_key_hex) db)

  unfoldable pub login_with_key : LoginBody → (stored_key_hex : String) → Action LoginResult
  login_with_key body stored_key_hex = do
    proof ← require (proof_of body) proof_required
    validate_client_proof_b64 server.platform proof.client_proof_b64 "clientProofB64"
    verify_login_proof server.platform server.throttle proof stored_key_hex now
    reset_throttle login
    finish_login stored_key_hex

  -- the handler
  unfoldable pub log_in : LoginBody → Action LoginResult
  log_in body = do
    initialized ← read is_vault_initialized
    throw_if (not initialized) setup_required
    assert_not_locked login now
    throw_if body.has_auth_key secret_sent
    found ← get_vault_auth
    vault ← require found setup_required
    stored_key_hex ← require (truthy vault.auth_stored_key) legacy_vault
    login_with_key body stored_key_hex

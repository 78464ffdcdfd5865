-- ===== src/Routes/Setup.antt =====
-- POST /setup of apps/api/src/routes/vault.ts, with isLoopbackAddress of
-- apps/api/src/plugins/loopback.ts.
pub mod Checked
pub mod FirstBoot
pub mod Once
use key_page.Prelude.{
  ℕ, String, Bool, true, false, not, ◌&&◌, ◌||◌, Option, none, some, List, ◌==◌, or_else,
}
use key_page.Http.{https_required, vault_already_initialized, invalid_setup_token, internal_error}
use key_page.Db.Rows.{Db, KdfParams}
use key_page.Db.Action.{Result, ok, err, Action, pure, read, throw_if, require, ◌>>=◌, ◌>>◌}
use key_page.Keys.Repo.{get_vault_auth}
use key_page.Auth.SetupToken.{SetupGate, verify_token, consume_token}
use key_page.Auth.Sessions.{SessionRequest, SessionInfo, NewSession, create_session}
use key_page.Auth.Vault.{ProofKeys, Envelope, is_vault_initialized, initialize_vault}
use key_page.Auth.Rotation.{NewVault}
use key_page.Routes.Request.{Platform, validate_stored_key_hex}
use key_page.Routes.Kdf.{validate_kdf_params, validate_recovery_envelopes}
use key_page.Routes.Login.{Server}

-- IPV4_LOOPBACK in isLoopbackAddress
unfoldable pub is_loopback_address : String → Bool
is_loopback_address address =
    address == "127.0.0.1" || address == "::1" || address == "::ffff:127.0.0.1"

-- how the request came, and what the options of the routes allow
pub record Transport : Type 0 where
  pub require_https_setup : Bool
  pub allow_insecure_local_setup : Bool
  pub protocol : String
  pub remote_address : Option String

-- the first condition of the handler
unfoldable pub is_insecure : Transport → Bool
unfolding is_loopback_address
is_insecure t =
    t.require_https_setup
    && not (t.protocol == "https")
    && not (t.allow_insecure_local_setup && is_loopback_address (or_else t.remote_address ""))

pub record SetupBody : Type 0 where
  pub setup_token : String
  pub kdf : KdfParams
  pub proof_keys : ProofKeys
  pub recovery_codes : List Envelope

-- VaultSetupResponse
pub record SetupResponse : Type 0 where
  pub key_version : ℕ
  pub info : SessionInfo

-- the four checks that the setup, the reset and the password change share
unfoldable pub validate_new_keys :
    Platform → KdfParams → ProofKeys → List Envelope → Action (Unit {0})
validate_new_keys p kdf keys codes = do
  validate_kdf_params p kdf "kdf"
  validate_stored_key_hex p keys.auth_stored_key_hex "authStoredKeyHex"
  validate_stored_key_hex p keys.recovery_stored_key_hex "recoveryStoredKeyHex"
  validate_recovery_envelopes p codes

module _ (server : Server) (now : ℕ) where
  -- up to the call of `initializeVault`
  unfoldable pub claim_vault :
      Transport → SetupGate → SetupBody → (code_id : ℕ → String) → Action (Unit {0})
  claim_vault transport gate body code_id = do
    throw_if (is_insecure transport) https_required
    validate_new_keys server.platform body.kdf body.proof_keys body.recovery_codes
    initialized ← read is_vault_initialized
    throw_if initialized vault_already_initialized
    throw_if (not (verify_token server.platform.sha256_hex gate body.setup_token now))
        invalid_setup_token
    initialize_vault body.kdf body.proof_keys body.recovery_codes code_id now

  -- after `consume`, which the handler awaits
  unfoldable pub first_session : SessionRequest → NewSession → Action SetupResponse
  first_session req new = do
    info ← create_session server.platform.sha256_hex req new server.idle_timeout_seconds now
    row ← get_vault_auth
    vault ← require row internal_error
    pure (record { key_version = vault.key_version; info = info })

  unfoldable pub after_claim :
      SessionRequest
      → NewSession
      → SetupGate
      → Result (Unit {0}) × Db
      → (Result SetupResponse × Db) × SetupGate
  after_claim req new gate (ok done, db) = (first_session req new db, consume_token gate)
  after_claim req new gate (err e, db) = ((err e, db), gate)

  -- the handler, with the gate that it leaves
  unfoldable pub setup :
      Transport
      → SetupGate
      → SetupBody
      → SessionRequest
      → NewVault
      → Db
      → (Result SetupResponse × Db) × SetupGate
  setup transport gate body req new db =
      after_claim req new.session gate (claim_vault transport gate body new.code_id db)

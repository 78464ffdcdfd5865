-- ===== src/Routes/Rekey.antt =====
-- The handlers of apps/api/src/routes/vault.ts that replace keys: POST /recovery/reset, POST
-- /password and POST /recovery-codes, with the `requireSession` of the last two.
use key_page.Prelude.{ℕ, suc, String, Bool, not, Option, none, some, List, [], ◌∷◌}
use key_page.Http.{
  HttpError, invalid_request, invalid_recovery_ticket, setup_required, internal_error,
}
use key_page.Db.Rows.{login}
use key_page.Db.Action.{Action, pure, throw, throw_if, require, ◌>>=◌, ◌>>◌}
use key_page.Keys.Repo.{get_vault_auth, ReencryptedEntry}
use key_page.Shared.Proof.{recovery_auth_message, verify_client_proof, ◌+++◌}
use key_page.Auth.Throttle.{assert_not_locked, reset_throttle}
use key_page.Auth.Sessions.{SessionRequest, require_session}
use key_page.Auth.Vault.{Envelope}
use key_page.Auth.Rotation.{
  Material, NewVault, RotationResult, reset_vault_from_recovery, change_master_password,
  regenerate_recovery_codes,
}
use key_page.Routes.Request.{Platform, validate_client_proof_b64}
use key_page.Routes.Kdf.{validate_recovery_envelopes}
use key_page.Routes.Validate.{validate_cipher_payload, with_entry_field_prefix}
use key_page.Routes.Proof.{truthy, LoginProof, require_auth_stored_key, verify_login_proof}
use key_page.Routes.Login.{Server}
use key_page.Routes.Setup.{validate_new_keys}

-- the `forEach` over the entries
unfoldable pub validate_ciphers : Platform → List ReencryptedEntry → ℕ → Action (Unit {0})
validate_ciphers p [] index = pure tt
validate_ciphers p (entry ∷ entries) index = do
  with_entry_field_prefix p index (validate_cipher_payload p entry.cipher)
  validate_ciphers p entries (suc index)

-- the checks of a body, in the order of both handlers
unfoldable pub validate_material : Platform → Material → Action (Unit {0})
validate_material p material = do
  validate_new_keys p material.kdf material.proof_keys material.recovery_codes
  validate_ciphers p material.entries 0

pub record ResetBody : Type 0 where
  pub recovery_ticket : String
  pub challenge_nonce_b64 : Option String
  pub recovery_client_proof_b64 : Option String
  pub material : Material

abbrev missing : String → String → HttpError
missing headline field =
    invalid_request headline
      (record { field = field; message = "must have required property '" +++ field +++ "'" } ∷ [])

-- verifyClientProof may throw, which is an internal error
unfoldable pub accepted_reset : Option Bool → Action (Unit {0})
accepted_reset none = throw internal_error
accepted_reset (some b) = throw_if (not b) invalid_recovery_ticket

-- `if (vault.recovery_stored_key) { … }`
unfoldable pub require_master_key_proof : Platform → Option String → ResetBody → Action (Unit {0})
require_master_key_proof p none body = pure tt
require_master_key_proof p (some key) body = do
  proof ←
      require (truthy body.recovery_client_proof_b64)
        (missing "Recovery reset requires a masterKey proof." "recoveryClientProofB64")
  nonce ←
      require (truthy body.challenge_nonce_b64)
        (missing "Recovery reset requires the claim challenge nonce." "challengeNonceB64")
  validate_client_proof_b64 p proof "recoveryClientProofB64"
  accepted_reset (
      verify_client_proof p.crypto (p.codes key) (recovery_auth_message body.recovery_ticket nonce)
        (p.from_base64 proof))

module _ (server : Server) (now : ℕ) (req : SessionRequest) where
  -- POST /recovery/reset
  unfoldable pub recovery_reset : ResetBody → NewVault → Action RotationResult
  recovery_reset body new = do
    validate_material server.platform body.material
    row ← get_vault_auth
    vault ← require row setup_required
    require_master_key_proof server.platform (truthy vault.recovery_stored_key) body
    reset_vault_from_recovery server.platform.sha256_hex body.recovery_ticket
        body.challenge_nonce_b64 body.material req new server.idle_timeout_seconds now

  -- `verifyLoginProof` with the vault's key, then `resetThrottle`
  unfoldable pub prove_login : LoginProof → Action (Unit {0})
  prove_login proof = do
    stored_key_hex ← require_auth_stored_key
    verify_login_proof server.platform server.throttle proof stored_key_hex now
    reset_throttle login

  -- POST /password
  unfoldable pub password : LoginProof → Material → NewVault → Action RotationResult
  password proof material new = do
    s ← require_session server.platform.sha256_hex req server.idle_timeout_seconds now
    assert_not_locked login now
    validate_client_proof_b64 server.platform proof.client_proof_b64 "currentClientProofB64"
    validate_material server.platform material
    prove_login proof
    change_master_password server.platform.sha256_hex material req new server.idle_timeout_seconds
        now

  -- POST /recovery-codes, with the codes that remain and the key version
  unfoldable pub recovery_codes :
      LoginProof → (key_version : ℕ) → List Envelope → (code_id : ℕ → String) → Action (ℕ × ℕ)
  recovery_codes proof key_version codes code_id = do
    s ← require_session server.platform.sha256_hex req server.idle_timeout_seconds now
    assert_not_locked login now
    validate_client_proof_b64 server.platform proof.client_proof_b64 "clientProofB64"
    validate_recovery_envelopes server.platform codes
    prove_login proof
    regenerate_recovery_codes s.id key_version codes code_id now

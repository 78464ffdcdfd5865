-- ===== src/Routes/Proof.antt =====
-- The proofs that a request must bring: verifyLoginProof of apps/api/src/routes/vault.ts, and
-- apps/api/src/keys/key-write-proof.ts.
use key_page.Prelude.{
  ℕ, String, Bool, true, false, not, Option, none, some, [], ◌∷◌, ◌==◌, if◌then◌else◌,
}
use key_page.Http.{
  HttpError, invalid_request, invalid_credentials, setup_required, unauthenticated, internal_error,
}
use key_page.Tables.{update}
use key_page.Db.Rows.{VaultAuthRow, LoginChallengeRow, login, key_write}
use key_page.Db.Action.{Action, pure, throw, write, throw_if, require, ◌>>=◌}
use key_page.Keys.Repo.{get_vault_auth}
use key_page.Shared.Bytes.{hex_encode}
use key_page.Shared.Proof.{login_auth_message, verify_client_proof, ◌+++◌}
use key_page.Auth.Throttle.{ThrottleConfig, record_failure}
use key_page.Auth.Challenges.{consume_login_challenge}
use key_page.Auth.Vault.{is_open, consume}
use key_page.Routes.Request.{Platform}

-- a text that is there and not empty is truthy
abbrev pub truthy : Option String → Option String
truthy none = none
truthy (some s) = if s == "" then none else some s

-- requireAuthStoredKey, with the key that its result has
unfoldable pub require_auth_stored_key : Action String
require_auth_stored_key = do
  found ← get_vault_auth
  vault ← require found setup_required
  require (truthy vault.auth_stored_key) (
      invalid_request "This vault must enroll via Master Password login before using proofs." (
        record {
          field = "auth";
          message = "auth_stored_key is missing; migrate with an unused recovery code";
        }
        ∷ []))

-- the failure is recorded, and its rest of attempts is in the error
unfoldable pub incorrect_password : {A : Type 0} → ThrottleConfig → ℕ → Action A
incorrect_password config now = do
  attempts_remaining ← record_failure login config now
  throw (invalid_credentials attempts_remaining)

-- `!challenge || !verifyClientProof(…)`, which may throw itself
unfoldable pub is_proven : Option LoginChallengeRow → Option Bool → Action Bool
is_proven none verified = pure false
is_proven (some c) none = throw internal_error
is_proven (some c) (some b) = pure b

unfoldable pub require_proven : ThrottleConfig → ℕ → Bool → Action (Unit {0})
require_proven config now true = pure tt
require_proven config now false = incorrect_password config now

-- what the browser sends to prove that it knows the Master Password
pub record LoginProof : Type 0 where
  pub challenge_id : String
  pub nonce_b64 : String
  pub client_proof_b64 : String

unfoldable pub check_login_proof : Platform → LoginProof → (stored_key_hex : String) → Option Bool
check_login_proof p proof stored_key_hex =
    verify_client_proof p.crypto (p.codes stored_key_hex)
      (login_auth_message proof.challenge_id proof.nonce_b64) (p.from_base64 proof.client_proof_b64)

-- verifyLoginProof
unfoldable pub verify_login_proof :
    Platform → ThrottleConfig → LoginProof → (stored_key_hex : String) → ℕ → Action (Unit {0})
verify_login_proof p config proof stored_key_hex now = do
  challenge ← consume_login_challenge proof.challenge_id proof.nonce_b64 login now
  proven ← is_proven challenge (check_login_proof p proof stored_key_hex)
  require_proven config now proven

-- revokeOpenRecoveryTickets
unfoldable pub revoke_open_recovery_tickets : ℕ → Action (Unit {0})
revoke_open_recovery_tickets now =
    write (λ db. record db {
      recovery_tickets = update (is_open now) (consume now) db.recovery_tickets;
    })

abbrev pub proof_failure : HttpError
proof_failure = unauthenticated

-- keyEntryWriteAuthMessage
unfoldable pub key_entry_write_auth_message :
    Platform → (challenge_id nonce method path body_json : String) → String
key_entry_write_auth_message p challenge_id nonce method path body_json =
    "key-write:"
    +++ challenge_id
    +++ ":"
    +++ nonce
    +++ ":"
    +++ p.to_upper_case method
    +++ ":"
    +++ path
    +++ ":"
    +++ p.from_codes (hex_encode (p.crypto.sha256 (p.crypto.utf8 body_json)))

-- the headers of a key-write proof, each once and not empty, with the method and the body as sent
pub record KeyWriteHeaders : Type 0 where
  pub challenge_id : Option String
  pub nonce : Option String
  pub proof : Option String
  pub method : String
  pub raw_body : Option String

-- verifyClientProof may throw, which is an internal error
unfoldable pub accepted : Option Bool → Action (Unit {0})
accepted none = throw internal_error
accepted (some b) = throw_if (not b) proof_failure

abbrev stored_key_of : Option VaultAuthRow → Option String
stored_key_of none = none
stored_key_of (some vault) = truthy vault.auth_stored_key

-- requireKeyWriteProof
unfoldable pub require_key_write_proof :
    Platform → KeyWriteHeaders → (path : String) → ℕ → Action (Unit {0})
require_key_write_proof p headers path now = do
  challenge_id ← require (truthy headers.challenge_id) proof_failure
  nonce ← require (truthy headers.nonce) proof_failure
  proof ← require (truthy headers.proof) proof_failure
  found ← consume_login_challenge challenge_id nonce key_write now
  vault ← get_vault_auth
  challenge ← require found proof_failure
  stored_key ← require (stored_key_of vault) proof_failure
  raw_body ← require headers.raw_body proof_failure
  accepted (
      verify_client_proof p.crypto (p.codes stored_key)
        (key_entry_write_auth_message p challenge_id nonce headers.method path raw_body)
        (p.from_base64 proof))

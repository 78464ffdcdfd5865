-- ===== src/Shared/Proof.antt =====
-- packages/shared/src/auth-proof.ts: possession proofs in the manner of SCRAM. HMAC-SHA256, SHA-256
-- and the UTF-8 encoder are those of @noble/hashes and of the platform, and are parameters; a proof
-- that is thrown away (`fill(0)`) leaves nothing to model.
pub mod Laws
use Prim.Native.String
use key_page.Prelude.{
  ℕ, ◌<◌, ◌≡◌, String, Bool, true, false, not, ◌||◌, Option, none, some, List, ◌=ℕ◌, if◌then◌else◌,
  length,
}
use key_page.Tables.{All}
use key_page.Shared.Bytes.{bytes_equal, xor_bytes, hex_encode, hex_decode, is_stored_key_hex}

-- A hash has 32 bytes.
abbrev pub IsHash : List ℕ → Type 0
IsHash bytes = (length bytes ≡ 32) × All (λ b. b < 256) bytes

pub record Crypto : Type 0 where
  pub hmac_sha256 : (key message : List ℕ) → List ℕ
  pub sha256 : List ℕ → List ℕ
  pub utf8 : String → List ℕ
  pub hmac_sha256-IsHash : (key message : List ℕ) → IsHash (hmac_sha256 key message)
  pub sha256-IsHash : (bytes : List ℕ) → IsHash (sha256 bytes)

abbrev pub login_client_key_label : String
login_client_key_label = "keypage:v1:login-client-key"

abbrev pub recovery_client_key_label : String
recovery_client_key_label = "keypage:v1:recovery-client-key"

abbrev pub client_proof_bytes : ℕ
client_proof_bytes = 32

infixr 65 ◌+++◌
abbrev pub ◌+++◌ : String → String → String
s +++ t = String.◌++◌ s t

-- loginAuthMessage
unfoldable pub login_auth_message : (challenge_id nonce : String) → String
login_auth_message challenge_id nonce = "login:" +++ challenge_id +++ ":" +++ nonce

-- recoveryAuthMessage
unfoldable pub recovery_auth_message : (recovery_ticket challenge_nonce : String) → String
recovery_auth_message recovery_ticket challenge_nonce =
    "recovery:" +++ recovery_ticket +++ ":" +++ challenge_nonce

module _ (c : Crypto) where
  open c use {hmac_sha256, sha256, utf8}

  client_key : List ℕ → String → List ℕ
  client_key secret label = hmac_sha256 secret (utf8 label)

  -- storedKeyFromSecret
  unfoldable pub stored_key_from_secret : List ℕ → String → List ℕ
  unfolding client_key
  stored_key_from_secret secret label = sha256 (client_key secret label)

  -- storedKeyHexFromSecret
  unfoldable pub stored_key_hex_from_secret : List ℕ → String → List ℕ
  unfolding stored_key_from_secret
  stored_key_hex_from_secret secret label = hex_encode (stored_key_from_secret secret label)

  -- createClientProof
  unfoldable pub create_client_proof : List ℕ → String → String → Option (List ℕ)
  unfolding stored_key_from_secret
  create_client_proof secret label auth_message =
      xor_bytes (client_key secret label)
        (hmac_sha256 (stored_key_from_secret secret label) (utf8 auth_message))

  check_key : List ℕ → Option (List ℕ) → Option Bool
  check_key stored_key none = none
  check_key stored_key (some key) = some (bytes_equal (sha256 key) stored_key)

  check_proof : String → List ℕ → Option (List ℕ) → Option Bool
  unfolding check_key
  check_proof auth_message proof none = none
  check_proof auth_message proof (some stored_key) =
      check_key stored_key (xor_bytes proof (hmac_sha256 stored_key (utf8 auth_message)))

  -- verifyClientProof
  unfoldable pub verify_client_proof : (stored_key_hex : List ℕ) → String → List ℕ → Option Bool
  unfolding check_proof
  verify_client_proof stored_key_hex auth_message client_proof =
      if not (is_stored_key_hex stored_key_hex) || not (length client_proof =ℕ client_proof_bytes)
      then some false
      else check_proof auth_message client_proof (hex_decode stored_key_hex)

-- ===== src/Routes/Kdf.antt =====
-- apps/api/src/auth/kdf-params.ts: the bounds of the key derivation, and the envelopes of the
-- recovery codes. The numbers of a request are whole here. Node's Buffer decodes any text, so the
-- code's `catch` is never reached.
pub mod Bounds
use key_page.Prelude.{
  ℕ, suc, String, Bool, true, false, not, ◌||◌, Option, none, some, List, [], ◌∷◌, ◌=ℕ◌, ltb,
  is_none, length,
}
use key_page.Http.{HttpError, invalid_request}
use key_page.Tables.{contains}
use key_page.Db.Rows.{KdfParams, argon2id, pbkdf2_sha256}
use key_page.Db.Action.{Action, pure, throw_if, require, ◌>>=◌, ◌>>◌}
use key_page.Shared.Bytes.{is_stored_key_hex}
use key_page.Shared.Proof.{◌+++◌}
use key_page.Auth.Vault.{Envelope}
use key_page.Routes.Request.{Platform}

abbrev pub kdf_salt_bytes : ℕ
kdf_salt_bytes = 16

abbrev pub recovery_code_count : ℕ
recovery_code_count = 10

-- AES_GCM_IV_BYTES + DERIVED_KEY_BYTES + AES_GCM_TAG_BYTES
abbrev pub wrapped_master_key_bytes : ℕ
wrapped_master_key_bytes = 60

-- rejectKdf
unfoldable pub reject_kdf : String → String → String → HttpError
reject_kdf headline field message =
    invalid_request headline (record { field = field; message = message } ∷ [])

abbrev kdf_headline : String
kdf_headline = "Invalid KDF parameters"

abbrev codes_headline : String
codes_headline = "Invalid recovery codes"

module _ (p : Platform) where
  -- validateSaltB64
  unfoldable pub validate_salt_b64 : String → String → Action (Unit {0})
  validate_salt_b64 salt field = throw_if (not (length (p.from_base64 salt) =ℕ kdf_salt_bytes)) (
      reject_kdf ("Invalid " +++ field +++ ": salt must decode to 16 bytes") field
        "salt must decode to exactly 16 bytes")

  -- requireInRange
  unfoldable pub require_in_range : (value min max : ℕ) → String → Action (Unit {0})
  require_in_range value min max field = throw_if (ltb value min || ltb max value) (
      reject_kdf kdf_headline field
        ("must be between " +++ p.number_text min +++ " and " +++ p.number_text max))

  -- validateArgon2idParams
  unfoldable pub validate_argon2id_params : KdfParams → String → Action (Unit {0})
  validate_argon2id_params kdf prefix = do
    memory ←
        require kdf.memory_kib
          (reject_kdf kdf_headline (prefix +++ ".memoryKiB") "required for argon2id")
    parallelism ←
        require kdf.parallelism
          (reject_kdf kdf_headline (prefix +++ ".parallelism") "required for argon2id")
    require_in_range memory 19456 262144 (prefix +++ ".memoryKiB")
    require_in_range kdf.iterations 2 10 (prefix +++ ".iterations")
    require_in_range parallelism 1 4 (prefix +++ ".parallelism")

  -- validatePbkdf2Params
  unfoldable pub validate_pbkdf2_params : KdfParams → String → Action (Unit {0})
  validate_pbkdf2_params kdf prefix = do
    throw_if (not (is_none kdf.memory_kib))
        (reject_kdf kdf_headline (prefix +++ ".memoryKiB") "must be absent for pbkdf2-sha256")
    throw_if (not (is_none kdf.parallelism))
        (reject_kdf kdf_headline (prefix +++ ".parallelism") "must be absent for pbkdf2-sha256")
    require_in_range kdf.iterations 300000 5000000 (prefix +++ ".iterations")

  -- validateKdfParams; the request's schema allows the two algorithms alone
  unfoldable pub validate_kdf_params : KdfParams → String → Action (Unit {0})
  validate_kdf_params kdf prefix = do
    validate_salt_b64 kdf.salt_b64 (prefix +++ ".saltB64")
    elim kdf.algorithm [
      | argon2id ↦ validate_argon2id_params kdf prefix
      | pbkdf2_sha256 ↦ validate_pbkdf2_params kdf prefix
    ]

  -- the loop of validateRecoveryEnvelopes, with the lookup hashes so far
  unfoldable pub check_envelopes : List Envelope → ℕ → List String → Action (Unit {0})
  check_envelopes [] index seen = pure tt
  check_envelopes (e ∷ es) index seen = do
    let prefix = "recoveryCodes[" +++ p.number_text index +++ "]"
    throw_if (not (is_stored_key_hex (p.codes e.lookup_hash)))
        (reject_kdf codes_headline (prefix +++ ".lookupHash") "must be 64 lowercase hex characters")
    throw_if (contains e.lookup_hash seen)
        (reject_kdf codes_headline (prefix +++ ".lookupHash") "lookup hashes must be unique")
    throw_if (not (length (p.from_base64 e.wrapped_master_key_b64) =ℕ wrapped_master_key_bytes)) (
        reject_kdf codes_headline (prefix +++ ".wrappedMasterKeyB64")
          "must decode to exactly 60 bytes")
    validate_kdf_params e.kdf (prefix +++ ".kdf")
    check_envelopes es (suc index) (e.lookup_hash ∷ seen)

  -- validateRecoveryEnvelopes
  unfoldable pub validate_recovery_envelopes : List Envelope → Action (Unit {0})
  validate_recovery_envelopes codes = do
    throw_if (not (length codes =ℕ recovery_code_count))
        (reject_kdf codes_headline "recoveryCodes" "expected exactly 10 recovery codes")
    check_envelopes codes 0 []

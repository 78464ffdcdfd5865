-- ===== src/Routes/Validate.antt =====
-- apps/api/src/keys/validate.ts, beside the id: ciphertexts, the fields of an entry as HTTP errors,
-- and the timestamps of an import.
use key_page.Prelude.{
  ℕ, String, Bool, true, false, not, Option, none, some, List, [], ◌∷◌, ◌++◌, map, ◌=ℕ◌, ltb,
  length,
}
use key_page.Http.{HttpError, Detail, invalid_request}
use key_page.Db.Rows.{Db, CipherPayload}
use key_page.Db.Action.{Result, ok, err, Action, pure, throw, throw_if, ◌>>◌}
use key_page.Keys.Repo.{CipherInput}
use key_page.Shared.Proof.{◌+++◌}
use key_page.Shared.Fields.{
  field_of, message_of, Checked, valid, invalid, FieldsInput, Fields, normalize_fields,
}
use key_page.Routes.Request.{Platform}

abbrev pub aes_gcm_iv_bytes : ℕ
aes_gcm_iv_bytes = 12

-- 1 + AES_GCM_TAG_BYTES
abbrev pub min_ciphertext_bytes : ℕ
min_ciphertext_bytes = 17

-- KEY_ENTRY_CIPHERTEXT_B64_MAX
abbrev pub key_entry_ciphertext_b64_max : ℕ
key_entry_ciphertext_b64_max = 8192

abbrev pub detail_if : Bool → String → String → List Detail
detail_if true field message = record { field = field; message = message } ∷ []
detail_if false field message = []

unfoldable pub details_or_ok : String → List Detail → Action (Unit {0})
details_or_ok headline [] = pure tt
details_or_ok headline (d ∷ ds) = throw (invalid_request headline (d ∷ ds))

-- the `throw` of withFieldHttpError
unfoldable pub to_http : {A : Type 0} → Checked A → Action A
to_http (valid a) = pure a
to_http (invalid message issues) = throw (
    invalid_request message
      (map (λ i. record { field = field_of i; message = message_of i }) issues))

unfoldable pub prefix_details : String → HttpError → HttpError
prefix_details prefix (invalid_request headline details) =
    invalid_request headline
      (map (λ d. record { field = prefix +++ d.field; message = d.message }) details)
prefix_details prefix e = e

unfoldable pub map_error : {A : Type 0} → (HttpError → HttpError) → Result A × Db → Result A × Db
map_error f (ok a, db) = (ok a, db)
map_error f (err e, db) = (err (f e), db)

module _ (p : Platform) where
  -- withEntryFieldPrefix, in apps/api/src/routes/vault.ts and key-entries.ts
  unfoldable pub with_entry_field_prefix : {A : Type 0} → ℕ → Action A → Action A
  with_entry_field_prefix index m db =
      map_error (prefix_details ("entries[" +++ p.number_text index +++ "].")) (m db)

  -- cipherPayloadDetails; the algorithm has one value
  unfoldable pub cipher_payload_details : CipherPayload → List Detail
  cipher_payload_details cipher =
      let iv_length = length (p.from_base64 cipher.iv_b64) in
      let ciphertext_length = length (p.from_base64 cipher.ciphertext_b64) in
      detail_if (not (iv_length =ℕ aes_gcm_iv_bytes)) "cipher.ivB64"
        "must decode to exactly 12 bytes"
      ++ (detail_if (ltb ciphertext_length min_ciphertext_bytes) "cipher.ciphertextB64"
            "must decode to at least 17 bytes"
          ++ detail_if (ltb key_entry_ciphertext_b64_max ciphertext_length) "cipher.ciphertextB64"
              "must decode to at most 8192 bytes")

  -- validateCipherPayload
  unfoldable pub validate_cipher_payload : CipherPayload → Action (Unit {0})
  validate_cipher_payload cipher = details_or_ok "Invalid cipher" (cipher_payload_details cipher)

  -- validateCipherInput; a key version is whole
  unfoldable pub validate_cipher_input : CipherInput → Action (Unit {0})
  validate_cipher_input cipher = details_or_ok "Invalid cipher" (
      cipher_payload_details cipher.payload
      ++ detail_if (ltb cipher.key_version 1) "cipher.keyVersion" "must be a positive integer")

  -- normalizeKeyEntryWriteFields
  unfoldable pub normalize_key_entry_write_fields : FieldsInput → Action Fields
  normalize_key_entry_write_fields input = to_http (normalize_fields p.text input)

  -- normalizeImportTimestamp
  unfoldable pub normalize_import_timestamp : Option String → String → Action (Option String)
  normalize_import_timestamp none field = pure none
  normalize_import_timestamp (some value) field = do
    throw_if (ltb 40 (p.text.length_of value)) (
        invalid_request "Invalid import timestamp"
          (record { field = field; message = "must be a string of at most 40 characters" } ∷ []))
    throw_if (not (p.is_date value)) (
        invalid_request "Invalid import timestamp"
          (record { field = field; message = "must be a valid ISO timestamp" } ∷ []))
    pure (some value)

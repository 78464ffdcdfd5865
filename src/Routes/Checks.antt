-- ===== src/Routes/Checks.antt =====
-- The checks of a request in apps/api/src write nothing: what holds of the database before one holds
-- after it, whether it passes or throws.
use key_page.Prelude.{ℕ, suc, String, Bool, Option, none, some, List, [], ◌∷◌}
use key_page.Http.{HttpError, Detail}
use key_page.Db.Rows.{Db, KdfParams, KdfAlgorithm, argon2id, pbkdf2_sha256, CipherPayload}
use key_page.Db.Action.{Result, ok, err, Action}
use key_page.Db.Leaves.{
  Leaves, Leaves-end, Leaves-bind, Leaves-check, Leaves-require, Leaves-throw_if,
}
use key_page.Auth.Vault.{Envelope, ProofKeys}
use key_page.Auth.Rotation.{Material}
use key_page.Keys.Repo.{ReencryptedEntry, CipherInput}
use key_page.Shared.Fields.{Checked, valid, invalid, FieldsInput}
use key_page.Routes.Request.{
  Platform, validate_stored_key_hex, validate_client_proof_b64, validate_key_entry_id,
}
use key_page.Routes.Kdf.{
  validate_salt_b64, require_in_range, validate_argon2id_params, validate_pbkdf2_params,
  validate_kdf_params, check_envelopes, validate_recovery_envelopes,
}
use key_page.Routes.Validate.{
  details_or_ok, to_http, map_error, with_entry_field_prefix, validate_cipher_payload,
  validate_cipher_input, normalize_key_entry_write_fields, normalize_import_timestamp,
}
use key_page.Routes.Setup.{validate_new_keys}
use key_page.Routes.Rekey.{
  ResetBody, validate_ciphers, validate_material, accepted_reset, require_master_key_proof,
}
use key_page.Routes.Bodies.{
  CreateBody, ImportItem, UpdateBody, validate_create, validate_import_item, validate_import_entry,
  validate_import_entries, validate_cipher, validate_update,
}

module _ {P : Db → Type 0} where
  details_or_ok-Leaves :
      (headline : String) (ds : List Detail) (db : Db)
      → P db
      → Leaves P (details_or_ok headline ds db)
  unfolding details_or_ok
  details_or_ok-Leaves headline [] db h = Leaves-end _ _ h
  details_or_ok-Leaves headline (d ∷ ds) db h = Leaves-end _ _ h

  to_http-Leaves : {A : Type 0} (c : Checked A) (db : Db) → P db → Leaves P (to_http c db)
  unfolding to_http
  to_http-Leaves (valid a) db h = Leaves-end _ _ h
  to_http-Leaves (invalid message issues) db h = Leaves-end _ _ h

module _ {P : Db → Type 0} (p : Platform) (db : Db) (h : P db) where
  validate_argon2id_params-Leaves :
      (kdf : KdfParams) (prefix : String) → Leaves P (validate_argon2id_params p kdf prefix db)
  unfolding validate_argon2id_params require_in_range
  validate_argon2id_params-Leaves kdf prefix = Leaves-require _ _ db _ h λ memory.
      Leaves-require _ _ db _ h λ parallelism.
        Leaves-throw_if _ _ db _ h λ m. Leaves-throw_if _ _ db _ h λ i. Leaves-check _ _ db h

  validate_pbkdf2_params-Leaves :
      (kdf : KdfParams) (prefix : String) → Leaves P (validate_pbkdf2_params p kdf prefix db)
  unfolding validate_pbkdf2_params require_in_range
  validate_pbkdf2_params-Leaves kdf prefix =
      Leaves-throw_if _ _ db _ h λ m. Leaves-throw_if _ _ db _ h λ q. Leaves-check _ _ db h

  validate_kdf_params-Leaves :
      (kdf : KdfParams) (prefix : String) → Leaves P (validate_kdf_params p kdf prefix db)
  unfolding validate_kdf_params validate_salt_b64
  validate_kdf_params-Leaves kdf prefix =
      Leaves-throw_if _ _ db _ h λ salt. by_algorithm kdf.algorithm
    where
      by_algorithm :
          (a : KdfAlgorithm)
          → Leaves P (
              (let check : Action (Unit {0}) = elim a [
                | argon2id ↦ validate_argon2id_params p kdf prefix
                | pbkdf2_sha256 ↦ validate_pbkdf2_params p kdf prefix
              ] in
                  check)
                db)
      by_algorithm argon2id = validate_argon2id_params-Leaves kdf prefix
      by_algorithm pbkdf2_sha256 = validate_pbkdf2_params-Leaves kdf prefix

module _ {P : Db → Type 0} (p : Platform) where
  check_envelopes-Leaves :
      (es : List Envelope) (index : ℕ) (seen : List String) (db : Db)
      → P db
      → Leaves P (check_envelopes p es index seen db)
  unfolding check_envelopes
  check_envelopes-Leaves [] index seen db h = Leaves-end _ _ h
  check_envelopes-Leaves (e ∷ es) index seen db h = Leaves-throw_if _ _ db _ h λ hex.
      Leaves-throw_if _ _ db _ h λ new. Leaves-throw_if _ _ db _ h λ key.
        Leaves-bind _ _ (validate_kdf_params-Leaves p db h e.kdf _)
          λ _ d k. check_envelopes-Leaves es (suc index) _ d k

  pub validate_recovery_envelopes-Leaves :
      (es : List Envelope) (db : Db) → P db → Leaves P (validate_recovery_envelopes p es db)
  unfolding validate_recovery_envelopes
  validate_recovery_envelopes-Leaves es db h =
      Leaves-throw_if _ _ db _ h λ ten. check_envelopes-Leaves es 0 [] db h

  pub validate_new_keys-Leaves :
      (kdf : KdfParams) (keys : ProofKeys) (codes : List Envelope) (db : Db)
      → P db
      → Leaves P (validate_new_keys p kdf keys codes db)
  unfolding validate_new_keys validate_stored_key_hex
  validate_new_keys-Leaves kdf keys codes db h =
      Leaves-bind _ _ (validate_kdf_params-Leaves p db h kdf "kdf") λ _ d k.
        Leaves-throw_if _ _ d _ k
          λ auth. Leaves-throw_if _ _ d _ k λ recovery. validate_recovery_envelopes-Leaves codes d k

  pub validate_client_proof_b64-Leaves :
      (value field : String) (db : Db)
      → P db
      → Leaves P (validate_client_proof_b64 p value field db)
  unfolding validate_client_proof_b64
  validate_client_proof_b64-Leaves value field db h =
      Leaves-throw_if _ _ db _ h λ exact. Leaves-check _ _ db h

  map_error-Leaves :
      {A : Type 0} (f : HttpError → HttpError) (r : Result A × Db)
      → Leaves P r
      → Leaves P (map_error f r)
  unfolding map_error
  map_error-Leaves f (ok a, db) h = Leaves-end _ _ h.at
  map_error-Leaves f (err e, db) h = Leaves-end _ _ h.at

  validate_cipher_payload-Leaves :
      (c : CipherPayload) (db : Db) → P db → Leaves P (validate_cipher_payload p c db)
  unfolding validate_cipher_payload
  validate_cipher_payload-Leaves c db h = details_or_ok-Leaves _ _ db h

  validate_ciphers-Leaves :
      (entries : List ReencryptedEntry) (index : ℕ) (db : Db)
      → P db
      → Leaves P (validate_ciphers p entries index db)
  unfolding validate_ciphers with_entry_field_prefix
  validate_ciphers-Leaves [] index db h = Leaves-end _ _ h
  validate_ciphers-Leaves (entry ∷ entries) index db h =
      Leaves-bind _ _
        (map_error-Leaves _ (validate_cipher_payload p entry.cipher db)
          (validate_cipher_payload-Leaves entry.cipher db h))
        λ _ d k. validate_ciphers-Leaves entries (suc index) d k

  pub validate_material-Leaves :
      (material : Material) (db : Db) → P db → Leaves P (validate_material p material db)
  unfolding validate_material
  validate_material-Leaves material db h =
      Leaves-bind _ _ (validate_new_keys-Leaves _ _ _ db h)
        λ _ d k. validate_ciphers-Leaves material.entries 0 d k

  accepted_reset-Leaves : (o : Option Bool) (db : Db) → P db → Leaves P (accepted_reset o db)
  unfolding accepted_reset
  accepted_reset-Leaves none db h = Leaves-end _ _ h
  accepted_reset-Leaves (some b) db h = Leaves-check _ _ db h

  pub require_master_key_proof-Leaves :
      (key : Option String) (body : ResetBody) (db : Db)
      → P db
      → Leaves P (require_master_key_proof p key body db)
  unfolding require_master_key_proof
  require_master_key_proof-Leaves none body db h = Leaves-end _ _ h
  require_master_key_proof-Leaves (some key) body db h = Leaves-require _ _ db _ h λ proof.
      Leaves-require _ _ db _ h λ nonce.
        Leaves-bind _ _ (validate_client_proof_b64-Leaves _ _ db h)
          λ _ d k. accepted_reset-Leaves _ d k

  fields-Leaves :
      (input : FieldsInput) (db : Db)
      → P db
      → Leaves P (normalize_key_entry_write_fields p input db)
  unfolding normalize_key_entry_write_fields
  fields-Leaves input db h = to_http-Leaves _ db h

  cipher_input-Leaves : (c : CipherInput) (db : Db) → P db → Leaves P (validate_cipher_input p c db)
  unfolding validate_cipher_input
  cipher_input-Leaves c db h = details_or_ok-Leaves _ _ db h

  timestamp-Leaves :
      (o : Option String) (field : String) (db : Db)
      → P db
      → Leaves P (normalize_import_timestamp p o field db)
  unfolding normalize_import_timestamp
  timestamp-Leaves none field db h = Leaves-end _ _ h
  timestamp-Leaves (some value) field db h =
      Leaves-throw_if _ _ db _ h λ short. Leaves-throw_if _ _ db _ h λ date. Leaves-end _ _ h

  pub validate_create-Leaves :
      (body : CreateBody) (db : Db) → P db → Leaves P (validate_create p body db)
  unfolding validate_create validate_key_entry_id
  validate_create-Leaves body db h = Leaves-throw_if _ _ db _ h λ id.
      Leaves-bind _ _ (fields-Leaves _ db h)
        λ fields d k. Leaves-bind _ _ (cipher_input-Leaves _ d k) λ _ d' k'. Leaves-end _ _ k'

  item-Leaves : (item : ImportItem) (db : Db) → P db → Leaves P (validate_import_item p item db)
  unfolding validate_import_item validate_key_entry_id
  item-Leaves item db h = Leaves-throw_if _ _ db _ h λ id.
      Leaves-bind _ _ (fields-Leaves _ db h) λ fields d k.
        Leaves-bind _ _ (cipher_input-Leaves _ d k) λ _ d1 k1.
          Leaves-bind _ _ (timestamp-Leaves _ _ d1 k1) λ created d2 k2.
            Leaves-bind _ _ (timestamp-Leaves _ _ d2 k2) λ updated d3 k3.
              Leaves-bind _ _ (timestamp-Leaves _ _ d3 k3) λ used d4 k4. Leaves-end _ _ k4

  pub validate_import_entries-Leaves :
      (items : List ImportItem) (index : ℕ) (db : Db)
      → P db
      → Leaves P (validate_import_entries p items index db)
  unfolding validate_import_entries validate_import_entry with_entry_field_prefix
  validate_import_entries-Leaves [] index db h = Leaves-end _ _ h
  validate_import_entries-Leaves (item ∷ items) index db h =
      Leaves-bind _ _ (map_error-Leaves _ (validate_import_item p item db) (item-Leaves item db h))
        λ input d k.
          Leaves-bind _ _ (validate_import_entries-Leaves items (suc index) d k)
            λ inputs d' k'. Leaves-end _ _ k'

  validate_cipher-Leaves :
      (o : Option CipherInput) (db : Db) → P db → Leaves P (validate_cipher p o db)
  unfolding validate_cipher
  validate_cipher-Leaves none db h = Leaves-end _ _ h
  validate_cipher-Leaves (some c) db h = cipher_input-Leaves c db h

  pub validate_update-Leaves :
      (id : String) (body : UpdateBody) (occurred_at : String) (db : Db)
      → P db
      → Leaves P (validate_update p id body occurred_at db)
  unfolding validate_update
  validate_update-Leaves id body occurred_at db h =
      Leaves-bind _ _ (fields-Leaves _ db h)
        λ fields d k. Leaves-bind _ _ (validate_cipher-Leaves _ d k) λ _ d' k'. Leaves-end _ _ k'

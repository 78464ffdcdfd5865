-- ===== src/Tests/Vault.antt =====
-- The vault, its rotation and the login on concrete data.
use key_page.Prelude.{ℕ, ◌≡◌, refl, false, none, List, [], ◌∷◌, arith}
use key_page.Tables.{All, all, contains}
use key_page.Http.{invalid_recovery_ticket, invalid_credentials}
use key_page.Routes.Proof.{LoginProof, check_login_proof, verify_login_proof}
use key_page.Routes.Login.Admits.{verify_login_proof_once}
use key_page.Db.Rows.{Db, VaultAuthRow, KeyEntryRow, pos, login}
use key_page.Auth.Challenges.{create_login_challenge}
use key_page.Auth.Challenges.SingleUse.{issues, nothing}
use key_page.Db.Action.{Result, ok, err}
use key_page.Db.Ensures.{Ensures}
use key_page.Keys.Repo.{ReencryptedEntry, replace_ciphers}
use key_page.Keys.Repo.Rekey.{replace_ciphers-label}
use key_page.Auth.Sessions.{SessionRequest, is_session_active}
use key_page.Auth.Vault.{Envelope, belongs, replace_recovery_codes}
use key_page.Auth.Vault.Codes.{Replaced, replace_recovery_codes-Replaced}
use key_page.Auth.Rotation.{
  Material, NewVault, RotationResult, reset_vault_from_recovery, change_master_password,
}
use key_page.Auth.Rotation.After.{Changed, reset-reset, change_master_password-rotates}
use key_page.Routes.Login.{LoginResult, log_in}
use key_page.Routes.Login.Proven.{Proven, log_in-Proven}
use key_page.Integrity.Reachable.{empty_db}
use key_page.Tests.Fixtures.{
  platform, config, challenge, vault_db, mark, request, material, new_vault, new_session, server,
  login_body, kdf,
}

abbrev one_envelope : List Envelope
one_envelope =
    record { label = "A"; lookup_hash = "h"; kdf = kdf; wrapped_master_key_b64 = "w" } ∷ []

abbrev entry : KeyEntryRow
entry = record {
  id = "e1";
  label = "Key";
  service_id = "github";
  custom_service_name = none;
  description = none;
  tags = [];
  cipher = record { iv_b64 = "iv"; ciphertext_b64 = "ct" };
  key_version = 1;
  created_at = "now";
  updated_at = "now";
  last_used_at = none;
  sort_order = pos 0;
}

abbrev re_encrypted : ReencryptedEntry
re_encrypted = record {
  id = "e1";
  base_iv_b64 = "iv";
  cipher = record { iv_b64 = "iv2"; ciphertext_b64 = "ct2" };
}

-- the vault with an entry, and the request that changes its password
abbrev full_db : Db
full_db = record vault_db { key_entries = entry ∷ [] }

abbrev full_material : Material
full_material = record material { recovery_codes = one_envelope; entries = re_encrypted ∷ [] }

abbrev session_made : RotationResult
session_made = record {
  info = record { idle_timeout_seconds = 300; absolute_expires_at = 3600500 };
  key_version = 2;
  re_encrypted = 0;
}

change_runs : change_master_password mark full_material request new_vault 300 500 full_db ≡ (
  ok (record session_made { re_encrypted = 1 }),
  (change_master_password mark full_material request new_vault 300 500 full_db).1,
)
unfolding change_master_password contains key_page.Auth.Rotation.iv_fits
    key_page.Keys.Repo.cipher_iv_of key_page.Auth.Vault.insert_recovery_code
    key_page.Auth.Vault.code_row key_page.Db.Action.throw_if key_page.Db.Action.require
    key_page.Auth.Rotation.rotate_vault_material key_page.Auth.Rotation.assert_entries_match
    key_page.Auth.Rotation.same_ids key_page.Tables.distinct key_page.Keys.Repo.list_key_entry_ids
    all key_page.Auth.Sessions.revoke_all_sessions key_page.Auth.Vault.update_vault_auth
    key_page.Keys.Repo.replace_key_entry_ciphers key_page.Auth.Rotation.consume_ticket
    replace_recovery_codes key_page.Auth.Vault.insert_recovery_codes
    key_page.Auth.Throttle.reset_throttle key_page.Auth.Sessions.create_session
    key_page.Auth.Sessions.session_row key_page.Auth.Throttle.reset_row
    key_page.Auth.Vault.update_row key_page.Auth.Vault.rekey replace_ciphers
    key_page.Keys.Repo.replaced key_page.Tables.any key_page.Tables.delete key_page.Tables.update
    belongs key_page.Auth.Rotation.live key_page.Auth.Vault.find_recovery_ticket
    key_page.Tables.find key_page.Auth.Rotation.nonce_fits key_page.Tables.count
change_runs = refl

reset_runs :
    reset_vault_from_recovery mark "ticket" none material request new_vault 300 500 vault_db ≡ (
      ok session_made,
      (reset_vault_from_recovery mark "ticket" none material request new_vault 300 500 vault_db).1,
    )
unfolding reset_vault_from_recovery key_page.Db.Action.throw_if key_page.Db.Action.require
    key_page.Auth.Rotation.rotate_vault_material key_page.Auth.Rotation.assert_entries_match
    key_page.Auth.Rotation.same_ids key_page.Tables.distinct key_page.Keys.Repo.list_key_entry_ids
    all key_page.Auth.Sessions.revoke_all_sessions key_page.Auth.Vault.update_vault_auth
    key_page.Keys.Repo.replace_key_entry_ciphers key_page.Auth.Rotation.consume_ticket
    replace_recovery_codes key_page.Auth.Vault.insert_recovery_codes
    key_page.Auth.Throttle.reset_throttle key_page.Auth.Sessions.create_session
    key_page.Auth.Sessions.session_row key_page.Auth.Throttle.reset_row
    key_page.Auth.Vault.update_row key_page.Auth.Vault.rekey replace_ciphers
    key_page.Keys.Repo.replaced key_page.Tables.any key_page.Tables.delete key_page.Tables.update
    belongs key_page.Auth.Rotation.live key_page.Auth.Vault.find_recovery_ticket
    key_page.Tables.find key_page.Auth.Rotation.nonce_fits key_page.Tables.count
reset_runs = refl

abbrev logged_in : LoginResult
logged_in = record {
  info = record { idle_timeout_seconds = 300; absolute_expires_at = 3600500 };
  key_version = 1;
}

login_runs :
    log_in server request new_session 500 login_body vault_db
    ≡ (ok logged_in, (log_in server request new_session 500 login_body vault_db).1)
unfolding log_in key_page.Db.Action.throw_if key_page.Auth.Vault.is_vault_initialized
    key_page.Auth.Throttle.assert_not_locked empty_db key_page.Db.Action.require
    key_page.Routes.Login.login_with_key key_page.Routes.Login.proof_of
    key_page.Routes.Request.validate_client_proof_b64 key_page.Routes.Request.is_exact_base64
    key_page.Routes.Request.is_standard_base64 key_page.Routes.Proof.verify_login_proof
    key_page.Auth.Challenges.consume_login_challenge key_page.Routes.Proof.is_proven
    key_page.Tables.find key_page.Auth.Challenges.is_match key_page.Routes.Proof.check_login_proof
    key_page.Shared.Proof.verify_client_proof key_page.Shared.Bytes.is_stored_key_hex
    key_page.Shared.Bytes.all_codes key_page.Shared.Bytes.is_lower_hex key_page.Shared.Bytes.is_hex
    key_page.Shared.Bytes.decode_pairs key_page.Shared.Bytes.hex_decode
    key_page.Auth.Sessions.check_row key_page.Auth.Sessions.create_session
    key_page.Auth.Sessions.resolve_row key_page.Auth.Sessions.resolve_session
    key_page.Auth.Sessions.resolve_token key_page.Auth.Sessions.session_row
    key_page.Auth.Throttle.reset_row key_page.Auth.Throttle.reset_throttle
    key_page.Auth.Vault.is_open key_page.Routes.Login.catch_credentials
    key_page.Routes.Login.finish_login key_page.Routes.Login.open_session
    key_page.Routes.Login.revoke_resolved key_page.Routes.Login.with_key
    key_page.Routes.Proof.require_proven key_page.Routes.Proof.revoke_open_recovery_tickets
    key_page.Shared.Bytes.bytes_equal key_page.Shared.Bytes.xor_bytes
    key_page.Shared.Proof.login_auth_message key_page.Tables.any key_page.Tables.delete
    key_page.Tables.update
login_runs = refl

change_master_password-rotates_example :
    let db' = (change_master_password mark full_material request new_vault 300 500 full_db).1 in
    ((vault : VaultAuthRow) × Changed mark 300 full_material request new_vault 500 vault full_db
        (record session_made { re_encrypted = 1 })
        db')
    × (is_session_active "s1" db' ≡ false)
unfolding belongs key_page.Tables.any
change_master_password-rotates_example =
    change_master_password-rotates mark 300 full_material request new_vault 500 full_db
      (record session_made { re_encrypted = 1 }) _ (refl, tt) change_runs "s1" refl

-- the same ticket again, a minute later and after an entry was added
reset-reset_example :
    let db' =
      (reset_vault_from_recovery mark "ticket" none material request new_vault 300 500
        vault_db).1 in
    let after = record db' { key_entries = entry ∷ [] } in
    (is_session_active "s1" db' ≡ false)
    × (reset_vault_from_recovery mark "ticket" none material request new_vault 300 60500 after
        ≡ (err invalid_recovery_ticket, after))
unfolding belongs key_page.Tables.any
reset-reset_example =
    reset-reset mark 300 material request new_vault 500 vault_db "ticket" none session_made _
      (refl, tt) reset_runs "s1" refl _ "ticket" none material request new_vault 60500 refl

log_in-Proven_example : Proven server login_body 500 vault_db
log_in-Proven_example =
    log_in-Proven server request new_session 500 login_body vault_db _ logged_in login_runs

replace_recovery_codes-Replaced_example :
    Ensures
      (replace_recovery_codes one_envelope (λ n. "c2") 4 100 vault_db)
      (λ _ db'. Replaced 4 one_envelope vault_db db')
unfolding belongs key_page.Tables.any
replace_recovery_codes-Replaced_example =
    replace_recovery_codes-Replaced one_envelope (λ n. "c2") 4 100 vault_db (refl, tt)

replace_ciphers-label_example :
    All (λ e. e.key_version ≡ 2) (replace_ciphers (re_encrypted ∷ []) 2 (entry ∷ []))
unfolding all contains
replace_ciphers-label_example = replace_ciphers-label (re_encrypted ∷ []) 2 (entry ∷ []) refl

abbrev login_proof : LoginProof
login_proof = record { challenge_id = "ch"; nonce_b64 = "nonce"; client_proof_b64 = "AAAA" }

-- the proof is replayed ten seconds later, after another challenge was issued
verify_login_proof_once_example :
    let db' = (verify_login_proof platform config login_proof "00" 500 vault_db).1 in
    let after = (create_login_challenge login "ch2" "nonce2" 900 db').1 in
    ((verify_login_proof platform config login_proof "00" 500 vault_db).0 ≡ ok tt)
    × ((n : ℕ) × ((verify_login_proof platform config login_proof "00" 10500 after).0
          ≡ err (invalid_credentials n)))
unfolding key_page.Tables.find key_page.Auth.Challenges.is_match check_login_proof
    key_page.Shared.Proof.verify_client_proof key_page.Shared.Bytes.is_stored_key_hex
    key_page.Shared.Bytes.all_codes key_page.Shared.Bytes.is_lower_hex key_page.Shared.Bytes.is_hex
    key_page.Shared.Bytes.decode_pairs key_page.Shared.Bytes.hex_decode
    key_page.Shared.Bytes.bytes_equal key_page.Shared.Bytes.xor_bytes
    key_page.Shared.Proof.login_auth_message
verify_login_proof_once_example =
    verify_login_proof_once platform config login_proof "00" 500 vault_db challenge refl refl _
      10500 "00" (issues login "ch2" "nonce2" 900 refl nothing) (omega arith)

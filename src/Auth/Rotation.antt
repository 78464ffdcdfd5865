-- ===== src/Auth/Rotation.antt =====
-- apps/api/src/auth/vault-repo.ts, continued: the rotation of the vault's key, which a Master
-- Password change and a recovery reset share, and new recovery codes for the same key.
pub mod After
pub mod Effect
use key_page.Prelude.{
  ℕ, ◌+◌, String, Bool, true, false, not, ◌||◌, ◌&&◌, Option, none, some, List, [], ◌∷◌, map,
  is_none, leb, ◌=ℕ◌, ◌==◌, if◌then◌else◌, length,
}
use key_page.Http.{invalid_request, session_expired, key_version_mismatch, invalid_recovery_ticket}
use key_page.Tables.{update, count, all, contains, distinct}
use key_page.Db.Rows.{Db, KdfParams, VaultAuthRow, RecoveryTicketRow, login, recovery}
use key_page.Db.Action.{Action, pure, read, write, throw_if, require, transaction, ◌>>=◌, ◌>>◌}
use key_page.Keys.Repo.{
  get_vault_auth, ReencryptedEntry, list_key_entry_ids, cipher_iv_of, replace_key_entry_ciphers,
}
use key_page.Auth.Throttle.{reset_throttle}
use key_page.Auth.Sessions.{
  SessionRequest, SessionInfo, NewSession, create_session, is_session_active, revoke_all_sessions,
}
use key_page.Auth.Vault.{
  ProofKeys, Envelope, find_recovery_ticket, count_unused_recovery_codes, consume,
  replace_recovery_codes, update_vault_auth,
}

-- VaultRotationResult, less the token, which the caller drew
pub record RotationResult : Type 0 where
  pub info : SessionInfo
  pub key_version : ℕ
  pub re_encrypted : ℕ

-- ChangeMasterPasswordInput, and the material of RotateVaultMaterialArgs
pub record Material : Type 0 where
  pub kdf : KdfParams
  pub proof_keys : ProofKeys
  pub recovery_codes : List Envelope
  pub entries : List ReencryptedEntry

-- what a rotation draws: the ids of the new codes, and the new session
pub record NewVault : Type 0 where
  pub code_id : ℕ → String
  pub session : NewSession

-- every entry of the vault is there exactly once
unfoldable pub same_ids : List String → List String → Bool
same_ids submitted existing = not (
    not (distinct submitted)
    || not (length existing =ℕ length submitted)
    || not (all (λ id. contains id submitted) existing))

unfoldable pub iv_fits : Db → ReencryptedEntry → Bool
iv_fits db entry = elim (cipher_iv_of entry.id db) [
  | none ↦ false
  | some iv ↦ iv == entry.base_iv_b64
]

-- assertEntriesMatchVault
unfoldable pub assert_entries_match : List ReencryptedEntry → Action (Unit {0})
assert_entries_match entries = do
  existing ← read list_key_entry_ids
  throw_if (not (same_ids (map (λ e. e.id) entries) existing)) (
      invalid_request "Entry set does not match vault" (
        record {
          field = "entries";
          message = "must include each key entry id in the vault exactly once";
        }
        ∷ []))
  fresh ← read (λ db. all (iv_fits db) entries)
  throw_if (not fresh) (
      invalid_request "Entry set does not match vault" (
        record {
          field = "entries";
          message = "one or more entries were modified since the client snapshot";
        }
        ∷ []))

-- the ticket is consumed before the codes are replaced, which deletes it
unfoldable pub consume_ticket : Option String → ℕ → Action (Unit {0})
consume_ticket none now = pure tt
consume_ticket (some id) now = do
  changes ← read (λ db. count (λ t. t.id == id && is_none t.consumed_at) db.recovery_tickets)
  write (λ db. record db {
    recovery_tickets =
        update (λ t. t.id == id && is_none t.consumed_at) (consume now) db.recovery_tickets;
  })
  throw_if (changes =ℕ 0) invalid_recovery_ticket

-- the nonce that a reset must repeat, where the ticket has one
unfoldable pub nonce_fits : Option String → Option String → Bool
nonce_fits none given = true
nonce_fits (some nonce) none = nonce == ""
nonce_fits (some nonce) (some given) = nonce == "" || nonce == given

-- an unconsumed ticket that has not expired
unfoldable pub live : Option RecoveryTicketRow → ℕ → Option RecoveryTicketRow
live none now = none
live (some t) now = if not (is_none t.consumed_at) || leb t.expires_at now then none else some t

module _ (sha256_hex : String → String) where
  -- rotateVaultMaterial
  unfoldable pub rotate_vault_material :
      VaultAuthRow
      → Material
      → (consume_ticket_id : Option String) → SessionRequest
      → NewVault
      → (idle_timeout_seconds now : ℕ) → Action RotationResult
  rotate_vault_material vault material consume_ticket_id req new idle_timeout_seconds now = do
    assert_entries_match material.entries
    revoke_all_sessions now
    let next_key_version = vault.key_version + 1
    update_vault_auth material.kdf material.proof_keys next_key_version now
    re_encrypted ← replace_key_entry_ciphers material.entries next_key_version
    consume_ticket consume_ticket_id now
    replace_recovery_codes material.recovery_codes new.code_id next_key_version now
    reset_throttle login
    reset_throttle recovery
    info ← create_session sha256_hex req new.session idle_timeout_seconds now
    pure (record { info = info; key_version = next_key_version; re_encrypted = re_encrypted })

  -- resetVaultFromRecovery
  unfoldable pub reset_vault_from_recovery :
      (recovery_ticket : String)
      → (challenge_nonce : Option String) → Material
      → SessionRequest
      → NewVault
      → (idle_timeout_seconds now : ℕ) → Action RotationResult
  reset_vault_from_recovery recovery_ticket challenge_nonce material req new idle_timeout_seconds
        now =
      transaction (do
        found ← read (find_recovery_ticket (sha256_hex recovery_ticket))
        ticket ← require (live found now) invalid_recovery_ticket
        throw_if (not (nonce_fits ticket.challenge_nonce challenge_nonce)) invalid_recovery_ticket
        row ← get_vault_auth
        vault ← require row invalid_recovery_ticket
        rotate_vault_material vault material (some ticket.id) req new idle_timeout_seconds now)

  -- changeMasterPassword
  unfoldable pub change_master_password :
      Material → SessionRequest → NewVault → (idle_timeout_seconds now : ℕ) → Action RotationResult
  change_master_password material req new idle_timeout_seconds now = transaction (do
    row ← get_vault_auth
    vault ← require row (invalid_request "Vault is not initialized" [])
    rotate_vault_material vault material none req new idle_timeout_seconds now)

-- regenerateRecoveryCodes, with the codes that remain and the key version
unfoldable pub regenerate_recovery_codes :
    (session_id : String)
    → (key_version : ℕ) → List Envelope
    → (code_id : ℕ → String) → ℕ
    → Action (ℕ × ℕ)
regenerate_recovery_codes session_id key_version codes code_id now = transaction (do
  row ← get_vault_auth
  vault ← require row (invalid_request "Vault is not initialized" [])
  active ← read (is_session_active session_id)
  throw_if (not active) session_expired
  throw_if (not (key_version =ℕ vault.key_version))
      (key_version_mismatch "keyVersion" vault.key_version key_version)
  replace_recovery_codes codes code_id vault.key_version now
  read (λ db. (count_unused_recovery_codes db, vault.key_version)))

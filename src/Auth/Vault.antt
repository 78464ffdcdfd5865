-- ===== src/Auth/Vault.antt =====
-- apps/api/src/auth/vault-repo.ts: the vault's authentication row, recovery codes and tickets. A
-- call takes the clock's reading `now` and the values that it draws at random.
pub mod Codes
pub mod Insert
use key_page.Prelude.{
  ℕ, suc, String, Bool, not, ◌&&◌, Option, none, some, List, [], ◌∷◌, is_none, is_some, ltb, ◌==◌,
}
use key_page.Http.{
  HttpError, invalid_request, vault_already_initialized, session_expired, constraint_primary_key,
  constraint_unique,
}
use key_page.Tables.{find, delete, count, any}
use key_page.Db.Rows.{Db, KdfParams, VaultAuthRow, RecoveryCodeRow, RecoveryTicketRow}
use key_page.Db.Action.{
  Action, Result, ok, err, pure, read, write, throw_if, transaction, ◌>>=◌, ◌>>◌,
}
use key_page.Auth.Sessions.{is_session_active}

abbrev pub recovery_ticket_ttl_seconds : ℕ
recovery_ticket_ttl_seconds = 600

abbrev pub auth_verifier_proof_v1 : String
auth_verifier_proof_v1 = "proof:v1"

-- VaultProofKeys
pub record ProofKeys : Type 0 where
  pub auth_stored_key_hex : String
  pub recovery_stored_key_hex : String

-- RecoveryCodeEnvelope
pub record Envelope : Type 0 where
  pub label : String
  pub lookup_hash : String
  pub kdf : KdfParams
  pub wrapped_master_key_b64 : String

-- isVaultInitialized
unfoldable pub is_vault_initialized : Db → Bool
is_vault_initialized db = is_some db.vault_auth

-- countUnusedRecoveryCodes
unfoldable pub count_unused_recovery_codes : Db → ℕ
count_unused_recovery_codes db = count (λ c. is_none c.used_at) db.recovery_codes

-- findRecoveryCodeByLookupHash
unfoldable pub find_recovery_code : String → Db → Option RecoveryCodeRow
find_recovery_code lookup_hash db = find (λ c. c.lookup_hash == lookup_hash) db.recovery_codes

-- findRecoveryTicketByTokenHash
unfoldable pub find_recovery_ticket : String → Db → Option RecoveryTicketRow
find_recovery_ticket token_hash db = find (λ t. t.token_hash == token_hash) db.recovery_tickets

-- `consumed_at IS NULL AND expires_at > ?`
unfoldable pub is_open : ℕ → RecoveryTicketRow → Bool
is_open now t = is_none t.consumed_at && ltb now t.expires_at

-- hasOpenRecoveryTicket
unfoldable pub has_open_recovery_ticket : ℕ → Db → Bool
unfolding is_open
has_open_recovery_ticket now db = any (is_open now) db.recovery_tickets

-- assertKeyEntryMutationsAllowed
unfoldable pub assert_mutations_allowed : String → ℕ → Action (Unit {0})
assert_mutations_allowed session_id now = do
  active ← read (is_session_active session_id)
  throw_if (not active) session_expired
  frozen ← read (has_open_recovery_ticket now)
  throw_if frozen (
      invalid_request "Vault recovery in progress" (
        record {
          field = "recovery";
          message =
              "key entry changes are blocked until recovery reset completes or the ticket expires";
        }
        ∷ []))

abbrev pub consume : ℕ → RecoveryTicketRow → RecoveryTicketRow
consume now t = record t { consumed_at = some now }

unfoldable pub code_row : Envelope → String → ℕ → ℕ → RecoveryCodeRow
code_row envelope id key_version now = record {
  id = id;
  label = envelope.label;
  lookup_hash = envelope.lookup_hash;
  kdf = envelope.kdf;
  wrapped_master_key = envelope.wrapped_master_key_b64;
  key_version = key_version;
  created_at = now;
  used_at = none;
}

-- insertRecoveryCode, with the id that it draws: `id` is the primary key, `lookup_hash` is unique
unfoldable pub insert_recovery_code : Envelope → String → ℕ → ℕ → Action (Unit {0})
insert_recovery_code envelope id key_version now = do
  taken_id ← read (λ db. any (λ c. c.id == id) db.recovery_codes)
  throw_if taken_id constraint_primary_key
  taken_hash ← read (λ db. any (λ c. c.lookup_hash == envelope.lookup_hash) db.recovery_codes)
  throw_if taken_hash constraint_unique
  write (λ db. record db {
    recovery_codes = code_row envelope id key_version now ∷ db.recovery_codes;
  })

-- the loop of replaceRecoveryCodes; `new_id n` is the n-th id that it draws
unfoldable pub insert_recovery_codes : List Envelope → (ℕ → String) → ℕ → ℕ → ℕ → Action (Unit {0})
insert_recovery_codes [] new_id n key_version now = pure tt
insert_recovery_codes (envelope ∷ envelopes) new_id n key_version now = do
  insert_recovery_code envelope (new_id n) key_version now
  insert_recovery_codes envelopes new_id (suc n) key_version now

-- `recovery_code_id … REFERENCES recovery_codes(id)`
unfoldable pub belongs : List RecoveryCodeRow → RecoveryTicketRow → Bool
belongs codes t = any (λ c. c.id == t.recovery_code_id) codes

-- replaceRecoveryCodes; a deleted code takes its tickets along, by `ON DELETE CASCADE` under
-- `foreign_keys = ON`
unfoldable pub replace_recovery_codes : List Envelope → (ℕ → String) → ℕ → ℕ → Action (Unit {0})
replace_recovery_codes envelopes new_id key_version now = do
  write (λ db. record db {
    recovery_codes = [];
    recovery_tickets = delete (belongs db.recovery_codes) db.recovery_tickets;
  })
  insert_recovery_codes envelopes new_id 0 key_version now

unfoldable pub vault_row : KdfParams → ProofKeys → ℕ → ℕ → VaultAuthRow
vault_row kdf keys key_version now = record {
  kdf = kdf;
  auth_verifier = auth_verifier_proof_v1;
  auth_stored_key = some keys.auth_stored_key_hex;
  recovery_stored_key = some keys.recovery_stored_key_hex;
  key_version = key_version;
  created_at = now;
  updated_at = now;
}

-- insertVaultAuth: `id` is always 1
unfoldable pub insert_vault_auth : KdfParams → ProofKeys → ℕ → ℕ → Action (Unit {0})
insert_vault_auth kdf keys key_version now = do
  taken ← read is_vault_initialized
  throw_if taken constraint_primary_key
  write (λ db. record db { vault_auth = some (vault_row kdf keys key_version now) })

-- the UPDATE of updateVaultAuth
unfoldable pub rekey : KdfParams → ProofKeys → ℕ → ℕ → VaultAuthRow → VaultAuthRow
rekey kdf keys key_version now row = record row {
  kdf = kdf;
  auth_verifier = auth_verifier_proof_v1;
  auth_stored_key = some keys.auth_stored_key_hex;
  recovery_stored_key = some keys.recovery_stored_key_hex;
  key_version = key_version;
  updated_at = now;
}

unfoldable pub update_row :
    (VaultAuthRow → VaultAuthRow) → Option VaultAuthRow → Option VaultAuthRow
update_row f none = none
update_row f (some row) = some (f row)

-- updateVaultAuth
unfoldable pub update_vault_auth : KdfParams → ProofKeys → ℕ → ℕ → Action (Unit {0})
update_vault_auth kdf keys key_version now =
    write
      (λ db. record db { vault_auth = update_row (rekey kdf keys key_version now) db.vault_auth })

-- the handler of initializeVault's `catch`
unfoldable pub already_initialized : HttpError → HttpError
already_initialized constraint_primary_key = vault_already_initialized
already_initialized e = e

unfoldable pub primary_key_taken : {A : Type 0} → Result A × Db → Result A × Db
primary_key_taken (err e, db) = (err (already_initialized e), db)
primary_key_taken (ok a, db) = (ok a, db)

-- the transaction of initializeVault
unfoldable pub set_up_vault :
    KdfParams → ProofKeys → List Envelope → (ℕ → String) → ℕ → Action (Unit {0})
set_up_vault kdf keys codes new_id now = transaction (do
  initialized ← read is_vault_initialized
  throw_if initialized vault_already_initialized
  insert_vault_auth kdf keys 1 now
  replace_recovery_codes codes new_id 1 now)

-- initializeVault
unfoldable pub initialize_vault :
    KdfParams → ProofKeys → List Envelope → (ℕ → String) → ℕ → Action (Unit {0})
initialize_vault kdf keys codes new_id now db =
    primary_key_taken (set_up_vault kdf keys codes new_id now db)

-- ===== src/Auth/Claim.antt =====
-- apps/api/src/auth/vault-repo.ts, continued: claiming a recovery code, and cancelling its ticket.
use key_page.Prelude.{
  ℕ, ◌+◌, ◌*◌, String, Bool, true, false, not, ◌&&◌, Option, none, some, List, ◌∷◌, is_none, ◌=ℕ◌,
  ◌==◌, if◌then◌else◌,
}
use key_page.Http.{setup_required, constraint_primary_key, constraint_unique}
use key_page.Tables.{update, count, any}
use key_page.Db.Rows.{Db, KdfParams, VaultAuthRow, RecoveryCodeRow, RecoveryTicketRow, KeyEntryRow}
use key_page.Db.Action.{Action, pure, read, write, throw_if, require, transaction, ◌>>=◌, ◌>>◌}
use key_page.Keys.Repo.{get_vault_auth, list_key_entries}
use key_page.Auth.Sessions.{revoke_all_sessions}
use key_page.Auth.Vault.{
  recovery_ticket_ttl_seconds, find_recovery_code, count_unused_recovery_codes, consume, is_open,
}

-- what `claimRecoveryCode` draws
pub record NewTicket : Type 0 where
  pub id : String
  pub ticket : String
  pub challenge_nonce_b64 : String

-- RecoveryClaimResponse
pub record RecoveryClaim : Type 0 where
  pub recovery_ticket : String
  pub challenge_nonce_b64 : String
  pub kdf : KdfParams
  pub wrapped_master_key_b64 : String
  pub key_version : ℕ
  pub codes_remaining : ℕ
  pub entries : List KeyEntryRow

-- an unused row, if there is one
unfoldable pub unused : Option RecoveryCodeRow → Option RecoveryCodeRow
unused none = none
unused (some c) = if is_none c.used_at then some c else none

unfoldable pub claim_response :
    NewTicket → RecoveryCodeRow → VaultAuthRow → Bool → Db → Option RecoveryClaim
claim_response new code vault applied db =
    if applied
    then some (record {
      recovery_ticket = new.ticket;
      challenge_nonce_b64 = new.challenge_nonce_b64;
      kdf = code.kdf;
      wrapped_master_key_b64 = code.wrapped_master_key;
      key_version = vault.key_version;
      codes_remaining = count_unused_recovery_codes db;
      entries = list_key_entries db;
    })
    else none

module _ (sha256_hex : String → String) where
  ticket_row : NewTicket → RecoveryCodeRow → ℕ → RecoveryTicketRow
  ticket_row new code now = record {
    id = new.id;
    token_hash = sha256_hex new.ticket;
    recovery_code_id = code.id;
    created_at = now;
    expires_at = now + recovery_ticket_ttl_seconds * 1000;
    consumed_at = none;
    challenge_nonce = some new.challenge_nonce_b64;
  }

  -- the INSERT: `id` is the primary key and `token_hash` is unique
  unfoldable pub insert_ticket : NewTicket → RecoveryCodeRow → ℕ → Action (Unit {0})
  unfolding ticket_row
  insert_ticket new code now = do
    taken_id ← read (λ db. any (λ t. t.id == new.id) db.recovery_tickets)
    throw_if taken_id constraint_primary_key
    taken_hash ← read (λ db. any (λ t. t.token_hash == sha256_hex new.ticket) db.recovery_tickets)
    throw_if taken_hash constraint_unique
    write (λ db. record db { recovery_tickets = ticket_row new code now ∷ db.recovery_tickets })

  unfoldable pub burn_rest : NewTicket → RecoveryCodeRow → ℕ → (unchanged : Bool) → Action Bool
  unfolding insert_ticket
  burn_rest new code now true = pure false
  burn_rest new code now false = do insert_ticket new code now; revoke_all_sessions now; pure true

  -- the transaction of `claimRecoveryCode`, which burns the code
  unfoldable pub burn_code : NewTicket → RecoveryCodeRow → ℕ → Action Bool
  unfolding burn_rest
  burn_code new code now = do
    changes ← read (λ db. count (λ c. c.id == code.id && is_none c.used_at) db.recovery_codes)
    write (λ db. record db {
      recovery_codes =
          update (λ c. c.id == code.id && is_none c.used_at) (λ c. record c { used_at = some now })
            db.recovery_codes;
    })
    burn_rest new code now (changes =ℕ 0)

  unfoldable pub claim_code : NewTicket → ℕ → Option RecoveryCodeRow → Action (Option RecoveryClaim)
  claim_code new now none = pure none
  claim_code new now (some code) = do
    found ← get_vault_auth
    vault ← require found setup_required
    applied ← transaction (burn_code new code now)
    read (claim_response new code vault applied)

  -- claimRecoveryCode; `none` is its `{ ok: false }`
  unfoldable pub claim_recovery_code : String → NewTicket → ℕ → Action (Option RecoveryClaim)
  unfolding claim_code claim_response unused
  claim_recovery_code lookup_hash new now = do
    found ← read (find_recovery_code lookup_hash)
    claim_code new now (unused found)

  -- cancelRecoveryTicket
  unfoldable pub cancel_recovery_ticket : String → ℕ → Action Bool
  cancel_recovery_ticket recovery_ticket now = do
    changes ← read (λ db.
        count (λ t. t.token_hash == sha256_hex recovery_ticket && is_open now t)
          db.recovery_tickets)
    write (λ db. record db {
      recovery_tickets =
          update (λ t. t.token_hash == sha256_hex recovery_ticket && is_open now t) (consume now)
            db.recovery_tickets;
    })
    pure (not (changes =ℕ 0))

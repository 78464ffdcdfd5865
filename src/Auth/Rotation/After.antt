-- ===== src/Auth/Rotation/After.antt =====
-- What a recovery reset and a password change leave to later requests.
use key_page.Prelude.{
  ℕ, ◌≡◌, refl, String, true, false, Option, none, some, List, [], is_none, ◌==◌, ◌+◌, ◌∙◌, ap,
  arith,
}
use key_page.Tables.{All, find, update, all, contains}
use key_page.Keys.Repo.{list_key_entry_ids}
use key_page.Keys.Repo.Rekey.{Sent, replace_ciphers-label, replace_ciphers-Sent}
use key_page.Db.Rows.{Db, VaultAuthRow}
use key_page.Db.Action.{ok, err, require}
use key_page.Http.{invalid_recovery_ticket}
use key_page.Db.Ensures.{
  Ensures-eq-ok, Ensures-require, Ensures-throw_if, Commits, Commits-transaction, Ensures-mono,
}
use key_page.Auth.Sessions.{SessionRequest, revoke, is_session_active, session_row}
use key_page.Auth.Sessions.Revocation.{active_row-find}
use key_page.Auth.Vault.{belongs, find_recovery_ticket, rekey, update_row}
use key_page.Auth.Rotation.{
  Material, NewVault, RotationResult, live, same_ids, reset_vault_from_recovery,
  change_master_password,
}
use key_page.Auth.Rotation.Effect.{Rotated, rotate_vault_material-Rotated}

same_ids-listed :
    (submitted existing : List String)
    → same_ids submitted existing ≡ true
    → all (λ id. contains id submitted) existing ≡ true
unfolding same_ids
same_ids-listed submitted existing e = ground arith

module _ (sha256_hex : String → String) (idle : ℕ) where
  no_ticket :
      (recovery_ticket : String) (given : Option String) (material : Material)
      (req : SessionRequest) (new : NewVault) (now : ℕ) (db : Db)
      → db.recovery_tickets ≡ []
      → reset_vault_from_recovery sha256_hex recovery_ticket given material req new idle now db
        ≡ (err invalid_recovery_ticket, db)
  unfolding reset_vault_from_recovery find_recovery_ticket find live require
  no_ticket recovery_ticket given material req new now db h =
      let found : find (λ t. t.token_hash == sha256_hex recovery_ticket) db.recovery_tickets
          ≡ none =
        rw h refl in
      rw found refl

  module _ (material : Material) (req : SessionRequest) (new : NewVault) (now : ℕ) where
    IsRotation : Db → RotationResult → Db → Type 0
    IsRotation db r db' =
        (vault : VaultAuthRow) × (db.vault_auth ≡ some vault)
        × Rotated sha256_hex vault material req new now db r db'

    Owned : Db → Type 0
    Owned db = All (λ t. belongs db.recovery_codes t ≡ true) db.recovery_tickets

    reset_vault_from_recovery-Rotated :
        (recovery_ticket : String) (given : Option String)
        → Commits Owned IsRotation
            (reset_vault_from_recovery sha256_hex recovery_ticket given material req new idle now)
    unfolding reset_vault_from_recovery IsRotation Owned
    reset_vault_from_recovery-Rotated recovery_ticket given = Commits-transaction _ _ _ λ db owned.
        Ensures-require _ _ db _ λ ticket live_ticket. Ensures-throw_if _ _ db _ λ fits.
          Ensures-require db.vault_auth _ db _ λ vault found.
            Ensures-mono _ (Rotated sha256_hex vault material req new now db)
              (rotate_vault_material-Rotated sha256_hex vault material (some ticket.id) req new idle
                now db owned)
              λ r db' done. (vault, found, done)

    change_master_password-Rotated :
        Commits Owned IsRotation (change_master_password sha256_hex material req new idle now)
    unfolding change_master_password IsRotation Owned
    change_master_password-Rotated = Commits-transaction _ _ _ λ db owned.
        Ensures-require db.vault_auth _ db _ λ vault found.
          Ensures-mono _ (Rotated sha256_hex vault material req new now db)
            (rotate_vault_material-Rotated sha256_hex vault material none req new idle now db owned)
            λ r db' done. (vault, found, done)

    Rotated-is_session_active :
        (vault : VaultAuthRow) (r : RotationResult) (db db' : Db) (id : String)
        → Rotated sha256_hex vault material req new now db r db'
        → (new.session.id == id) ≡ false
        → is_session_active id db' ≡ false
    unfolding is_session_active find session_row
    Rotated-is_session_active vault r db db' id done other =
        let found : find (λ s. s.id == id) db'.sessions
            ≡ find (λ s. s.id == id) (update (λ s. is_none s.revoked_at) (revoke now) db.sessions) =
          rw (done.sessions, other) refl in
        rw found (active_row-find (λ s. s.id == id) now db.sessions)

    -- After a recovery reset that returned, where every ticket belonged to a code: no session is active
    -- but the one that it made; and in every database with the tickets that it left, whatever the
    -- other tables hold, any reset, with any ticket and at any time, is refused and changes nothing.
    pub reset-reset :
        (db : Db) (recovery_ticket : String) (given : Option String) (r : RotationResult) (db' : Db)
        → All (λ t. belongs db.recovery_codes t ≡ true) db.recovery_tickets
        → reset_vault_from_recovery sha256_hex recovery_ticket given material req new idle now db
          ≡ (ok r, db')
        → (id : String) → (new.session.id == id) ≡ false
        → (after : Db) (ticket : String) (g : Option String) (m : Material) (q : SessionRequest)
          (n : NewVault) (later : ℕ)
        → after.recovery_tickets ≡ db'.recovery_tickets
        → (is_session_active id db' ≡ false)
          × (reset_vault_from_recovery sha256_hex ticket g m q n idle later after
              ≡ (err invalid_recovery_ticket, after))
    unfolding IsRotation Owned
    reset-reset db recovery_ticket given r db' owned e id other after ticket g m q n later same =
        let (vault, found, done) =
          Ensures-eq-ok (IsRotation db) _ r db'
            ((reset_vault_from_recovery-Rotated recovery_ticket given).at db owned) e in
        (
          Rotated-is_session_active vault r db db' id done other,
          no_ticket ticket g m q n later after (same ∙ done.tickets),
        )

    -- what a Master Password change makes of the vault and of its entries: the key version of before,
    -- plus one, is that of the vault and of every entry, and the ciphertexts are those of the request
    pub record Changed (vault : VaultAuthRow) (db : Db) (r : RotationResult) (db' : Db)
        : Type 0 where
      before : db.vault_auth ≡ some vault
      vault_auth :
          db'.vault_auth
          ≡ some (record vault {
            kdf = material.kdf;
            auth_verifier = "proof:v1";
            auth_stored_key = some material.proof_keys.auth_stored_key_hex;
            recovery_stored_key = some material.proof_keys.recovery_stored_key_hex;
            key_version = vault.key_version + 1;
            updated_at = now;
          })
      label : All (λ e. e.key_version ≡ vault.key_version + 1) db'.key_entries
      ciphers : All (Sent material.entries) db'.key_entries
      rotated : Rotated sha256_hex vault material req new now db r db'

    Rotated-Changed :
        (vault : VaultAuthRow) (db : Db) (r : RotationResult) (db' : Db)
        → db.vault_auth ≡ some vault
        → Rotated sha256_hex vault material req new now db r db'
        → Changed vault db r db'
    unfolding rekey update_row list_key_entry_ids same_ids
    Rotated-Changed vault db r db' found done = record {
      before = found;
      vault_auth =
          done.vault_auth
          ∙ ap (update_row (rekey material.kdf material.proof_keys (vault.key_version + 1) now))
              found;
      label = rw done.key_entries (
          replace_ciphers-label material.entries (vault.key_version + 1) db.key_entries
            (same_ids-listed _ _ done.matched));
      ciphers = rw done.key_entries (
          replace_ciphers-Sent material.entries (vault.key_version + 1) db.key_entries
            (same_ids-listed _ _ done.matched));
      rotated = done;
    }

    -- A Master Password change that returned, where every ticket belonged to a code, has rotated the
    -- vault that was there: the request named every entry once with its current iv; the vault has the
    -- new material and the key version of before plus one; every entry has that version and
    -- the ciphertext that was sent for its id; the recovery codes are those of the request, in some
    -- order, unused and under that version; no ticket is left, and no session is active but the one
    -- that it made.
    pub change_master_password-rotates :
        (db : Db) (r : RotationResult) (db' : Db)
        → All (λ t. belongs db.recovery_codes t ≡ true) db.recovery_tickets
        → change_master_password sha256_hex material req new idle now db ≡ (ok r, db')
        → (id : String) → (new.session.id == id) ≡ false
        → ((vault : VaultAuthRow) × Changed vault db r db') × (is_session_active id db' ≡ false)
    unfolding IsRotation Owned
    change_master_password-rotates db r db' owned e id other =
        let (vault, found, done) =
          Ensures-eq-ok (IsRotation db) _ r db' (change_master_password-Rotated.at db owned) e in
        (
          (vault, Rotated-Changed vault db r db' found done),
          Rotated-is_session_active vault r db db' id done other,
        )

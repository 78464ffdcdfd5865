-- ===== src/Integrity/Codes.antt =====
-- The writes of apps/api/src/auth/vault-repo.ts keep the vault coherent.
use key_page.Prelude.{
  ℕ, ◌+◌, ◌≡◌, sym, subst, ap, ◌∙◌, String, true, Option, none, some, List, [], ◌∷◌, arith,
}
use key_page.Tables.{All, all, contains}
use key_page.Db.Rows.{Db, VaultAuthRow, KeyEntryRow, RecoveryCodeRow}
use key_page.Db.Laws.{Keeps}
use key_page.Db.Ensures.{
  Ensures-ok, Ensures-bind, Ensures-throw_if, Ensures-mono, Ensures-require, Keeps-commit,
}
use key_page.Keys.Repo.{list_key_entry_ids}
use key_page.Keys.Repo.Rekey.{map_id-replace_ciphers, replace_ciphers-label}
use key_page.Auth.Sessions.{SessionRequest}
use key_page.Auth.Vault.{Envelope, update_row, rekey}
use key_page.Auth.Vault.Codes.{IsFresh, Replaced, replace_recovery_codes-Replaced}
use key_page.Auth.Rotation.{
  Material, NewVault, RotationResult, same_ids, reset_vault_from_recovery, change_master_password,
  regenerate_recovery_codes,
}
use key_page.Auth.Rotation.Effect.{Rotated, rotate_vault_material-Rotated}
use key_page.Integrity.{Labelled, IsCoherent}

pub fresh_labels :
    (n : ℕ) (codes : List RecoveryCodeRow)
    → All (IsFresh n) codes
    → All (λ c. c.key_version ≡ n) codes
fresh_labels n [] h = tt
fresh_labels n (c ∷ codes) (f, h) = (f.0, fresh_labels n codes h)

listed_of-same_ids :
    (submitted existing : List String)
    → same_ids submitted existing ≡ true
    → all (λ id. contains id submitted) existing ≡ true
unfolding same_ids
listed_of-same_ids submitted existing h = ground arith

module _ (sha256_hex : String → String) (material : Material) (req : SessionRequest)
    (new : NewVault) (now : ℕ) where
  Rotated-IsCoherent :
      (vault : VaultAuthRow) (db db' : Db) (r : RotationResult)
      → IsCoherent db
      → db.vault_auth ≡ some vault
      → Rotated sha256_hex vault material req new now db r db'
      → IsCoherent db'
  unfolding update_row rekey list_key_entry_ids
  Rotated-IsCoherent vault db db' r h found done =
      let next = vault.key_version + 1 in
      let row : db'.vault_auth ≡ some (rekey material.kdf material.proof_keys next now vault) =
        done.vault_auth ∙ ap (update_row (rekey material.kdf material.proof_keys next now)) found in
      record {
        labelled =
            subst (λ o. Labelled o db'.key_entries db'.recovery_codes) (sym row)
              (
                rw done.key_entries (
                    replace_ciphers-label material.entries next db.key_entries
                      (listed_of-same_ids _ _ done.matched)),
                fresh_labels next db'.recovery_codes done.codes,
              );
        tickets = rw done.tickets tt;
        unique =
            rw (done.key_entries, map_id-replace_ciphers material.entries next db.key_entries)
              h.unique;
      }

  -- A Master Password change keeps the vault coherent, whether it succeeds or is undone.
  pub change_master_password-IsCoherent :
      (idle : ℕ) → Keeps IsCoherent (change_master_password sha256_hex material req new idle now)
  unfolding change_master_password
  change_master_password-IsCoherent idle = Keeps-commit IsCoherent _ λ db h.
      Ensures-require db.vault_auth _ db _ λ vault found.
        Ensures-mono _ (Rotated sha256_hex vault material req new now db)
          (rotate_vault_material-Rotated sha256_hex vault material none req new idle now db
            h.tickets)
          λ r db' done. Rotated-IsCoherent vault db db' r h found done

  -- So does a recovery reset.
  pub reset_vault_from_recovery-IsCoherent :
      (recovery_ticket : String) (given_nonce : Option String) (idle : ℕ)
      → Keeps IsCoherent (
          reset_vault_from_recovery sha256_hex recovery_ticket given_nonce material req new idle
            now)
  unfolding reset_vault_from_recovery
  reset_vault_from_recovery-IsCoherent recovery_ticket given_nonce idle =
      Keeps-commit IsCoherent _ λ db h. Ensures-require _ _ db _ λ ticket live_ticket.
        Ensures-throw_if _ _ db _ λ fits. Ensures-require db.vault_auth _ db _ λ vault found.
          Ensures-mono _ (Rotated sha256_hex vault material req new now db)
            (rotate_vault_material-Rotated sha256_hex vault material (some ticket.id) req new idle
              now db h.tickets)
            λ r db' done. Rotated-IsCoherent vault db db' r h found done

Replaced-Labelled :
    (o : Option VaultAuthRow) (vault : VaultAuthRow) (entries : List KeyEntryRow)
    (old codes : List RecoveryCodeRow)
    → o ≡ some vault
    → All (λ c. c.key_version ≡ vault.key_version) codes
    → Labelled o entries old
    → Labelled o entries codes
Replaced-Labelled none vault entries old codes found all_codes h = absurd (ground arith)
Replaced-Labelled (some v) vault entries old codes found all_codes h =
    (h.0, subst (λ (w : ℕ). All (λ c. c.key_version ≡ w) codes) (ground arith) all_codes)

-- New recovery codes are stored under the version that the vault has.
pub regenerate_recovery_codes-IsCoherent :
    (session_id : String) (key_version : ℕ) (codes : List Envelope) (new_id : ℕ → String) (now : ℕ)
    → Keeps IsCoherent (regenerate_recovery_codes session_id key_version codes new_id now)
unfolding regenerate_recovery_codes
regenerate_recovery_codes-IsCoherent session_id key_version codes new_id now =
    Keeps-commit IsCoherent _ λ db h. Ensures-require db.vault_auth _ db _ λ vault found.
      Ensures-throw_if _ _ db _ λ active. Ensures-throw_if _ _ db _ λ current.
        Ensures-bind (λ _ d. Replaced vault.key_version codes db d) _ _
          (replace_recovery_codes-Replaced codes new_id vault.key_version now db h.tickets)
          λ _ d done. Ensures-ok _ _ _ (record {
            labelled =
                rw (ap (λ x. x.vault_auth) done.rest, ap (λ x. x.key_entries) done.rest)
                  (Replaced-Labelled db.vault_auth vault db.key_entries db.recovery_codes
                    d.recovery_codes found
                    (fresh_labels vault.key_version d.recovery_codes done.fresh) h.labelled);
            tickets = rw (ap (λ x. x.recovery_tickets) done.rest) tt;
            unique = rw (ap (λ x. x.key_entries) done.rest) h.unique;
          })

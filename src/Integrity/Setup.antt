-- ===== src/Integrity/Setup.antt =====
-- The setup of the vault keeps it coherent.
use key_page.Prelude.{ℕ, ◌≡◌, refl, ap, String, false, is_some, Option, none, some, List, arith}
use key_page.Db.Rows.{Db, KdfParams, VaultAuthRow}
use key_page.Db.Action.{Result, ok, err}
use key_page.Db.Laws.{Keeps}
use key_page.Db.Ensures.{
  Ensures, Ensures-ok, Ensures-mono, Ensures-bind, Ensures-throw_if, Keeps-commit,
}
use key_page.Auth.Vault.{
  ProofKeys, Envelope, is_vault_initialized, insert_vault_auth, vault_row, primary_key_taken,
  set_up_vault, initialize_vault,
}
use key_page.Auth.Vault.Codes.{Replaced, replace_recovery_codes-Replaced}
use key_page.Integrity.{Labelled, IsCoherent}
use key_page.Integrity.Codes.{fresh_labels}

module _ (kdf : KdfParams) (keys : ProofKeys) (codes : List Envelope) (new_id : ℕ → String)
    (now : ℕ) where
  initialised-IsCoherent :
      (o : Option VaultAuthRow) (db d : Db)
      → Labelled o db.key_entries db.recovery_codes
      → is_some o ≡ false
      → IsCoherent db
      → Replaced 1 codes (record db { vault_auth = some (vault_row kdf keys 1 now) }) d
      → IsCoherent d
  unfolding vault_row
  initialised-IsCoherent (some v) db d l e h done = absurd (ground arith)
  initialised-IsCoherent none db d l e h done = record {
    labelled =
        rw (ap (λ x. x.vault_auth) done.rest, ap (λ x. x.key_entries) done.rest, l.0)
          (tt, fresh_labels 1 d.recovery_codes done.fresh);
    tickets = rw (ap (λ x. x.recovery_tickets) done.rest) tt;
    unique = rw (ap (λ x. x.key_entries) done.rest) h.unique;
  }

  primary_key_taken-leaves :
      {A : Type 0} (r : Result A × Db) → IsCoherent r.1 → IsCoherent (primary_key_taken r).1
  unfolding primary_key_taken
  primary_key_taken-leaves (ok a, db) h = h
  primary_key_taken-leaves (err e, db) h = h

  with_row : Db → Db
  with_row db = record db { vault_auth = some (vault_row kdf keys 1 now) }

  insert_vault_auth-row :
      (db : Db) → Ensures (insert_vault_auth kdf keys 1 now db) (λ _ d. d ≡ with_row db)
  unfolding insert_vault_auth with_row
  insert_vault_auth-row db = Ensures-throw_if _ _ db _ λ free. Ensures-ok _ _ _ refl

  set_up_vault-IsCoherent : Keeps IsCoherent (set_up_vault kdf keys codes new_id now)
  unfolding set_up_vault is_vault_initialized with_row
  set_up_vault-IsCoherent = Keeps-commit IsCoherent _ λ db h. Ensures-throw_if _ _ db _ λ fresh.
      Ensures-bind (λ _ d. d ≡ with_row db) _ _ (insert_vault_auth-row db)
        λ _ d same. rw same (
          Ensures-mono _ (λ _ d'. Replaced 1 codes (with_row db) d')
            (replace_recovery_codes-Replaced codes new_id 1 now (with_row db) h.tickets)
            λ _ d' done. initialised-IsCoherent db.vault_auth db d' h.labelled fresh h done)

  pub initialize_vault-IsCoherent : Keeps IsCoherent (initialize_vault kdf keys codes new_id now)
  unfolding initialize_vault
  initialize_vault-IsCoherent = record {
    at = λ db h. primary_key_taken-leaves _ (set_up_vault-IsCoherent.at db h);
  }

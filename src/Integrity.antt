-- ===== src/Integrity.antt =====
-- What every operation of the server keeps: all ciphertexts and recovery codes carry the key version
-- of the vault (the subject of assertCipherKeyVersion and of rotateVaultMaterial in
-- apps/api/src), every recovery ticket belongs to a code, and no two key entries share an id.
pub mod Entries
pub mod Codes
pub mod Access
pub mod Reachable
pub mod Writes
pub mod Answers
pub mod Handlers
pub mod Setup
pub mod Keys
pub mod Bodies
pub mod Claim
pub mod Sessions
use key_page.Prelude.{◌≡◌, true, Option, none, some, List, [], map}
use key_page.Tables.{All, distinct}
use key_page.Db.Rows.{Db, VaultAuthRow, KeyEntryRow, RecoveryCodeRow}
use key_page.Auth.Vault.{belongs}

-- Everything is stored under the vault's key version, and before the setup there is nothing.
abbrev pub Labelled : Option VaultAuthRow → List KeyEntryRow → List RecoveryCodeRow → Type 0
Labelled none entries codes = (entries ≡ []) × (codes ≡ [])
Labelled (some vault) entries codes =
    All (λ e. e.key_version ≡ vault.key_version) entries
    × All (λ c. c.key_version ≡ vault.key_version) codes

pub record IsCoherent (db : Db) : Type 0 where
  pub labelled : Labelled db.vault_auth db.key_entries db.recovery_codes
  pub tickets : All (λ t. belongs db.recovery_codes t ≡ true) db.recovery_tickets
  pub unique : distinct (map (λ e. e.id) db.key_entries) ≡ true

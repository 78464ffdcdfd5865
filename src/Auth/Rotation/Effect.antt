-- ===== src/Auth/Rotation/Effect.antt =====
-- What a rotation that returned has done.
use key_page.Prelude.{
  ℕ, ◌+◌, ◌≡◌, refl, ◌∙◌, sym, subst, ap, String, true, Option, none, some, List, [], ◌∷◌, map,
  arith, length, is_none,
}
use mathlib.Core.List.{Perm}
use key_page.Tables.{All, update, all}
use key_page.Tables.Laws.{update-All}
use key_page.Db.Rows.{Db, VaultAuthRow}
use key_page.Db.Ensures.{Ensures, Ensures-ok, Ensures-bind, Ensures-throw_if, Ensures-check}
use key_page.Keys.Repo.{
  ReencryptedEntry, list_key_entry_ids, replace_ciphers, replaced, replace_key_entry_ciphers,
}
use key_page.Auth.Throttle.{reset_throttle}
use key_page.Auth.Sessions.{
  SessionRequest, revoke, revoke_all_sessions, session_row, create_session,
}
use key_page.Auth.Vault.{belongs, rekey, update_row, update_vault_auth}
use key_page.Auth.Vault.Codes.{IsFresh, envelope_of, Replaced, replace_recovery_codes-Replaced}
use key_page.Auth.Rotation.{
  RotationResult, Material, NewVault, same_ids, iv_fits, assert_entries_match, consume_ticket,
  rotate_vault_material,
}

assert_entries_match-ok :
    (entries : List ReencryptedEntry) (db : Db)
    → Ensures (assert_entries_match entries db) (λ _ db'.
      (db' ≡ db)
      × (same_ids (map (λ e. e.id) entries) (list_key_entry_ids db) ≡ true)
      × (all (iv_fits db) entries ≡ true))
unfolding assert_entries_match
assert_entries_match-ok entries db =
    Ensures-throw_if _ _ _ _
      λ matched. Ensures-check _ _ _ λ fits. (refl, ground arith, ground arith)

-- consuming a ticket changes no other table, and leaves every ticket with its code
record Consumed (db db' : Db) : Type 0 where
  rest : db' ≡ record db { recovery_tickets = db'.recovery_tickets }
  owned :
      All (λ t. belongs db.recovery_codes t ≡ true) db.recovery_tickets
      → All (λ t. belongs db.recovery_codes t ≡ true) db'.recovery_tickets

consume_ticket-Consumed :
    (id : Option String) (now : ℕ) (db : Db)
    → Ensures (consume_ticket id now db) (λ _ db'. Consumed db db')
unfolding consume_ticket belongs
consume_ticket-Consumed none now db = Ensures-ok _ _ _ (record { rest = refl; owned = λ h. h })
consume_ticket-Consumed (some id) now db = Ensures-check _ _ _ λ found. record {
  rest = refl;
  owned = update-All (λ t. belongs db.recovery_codes t ≡ true) _ _ _ (λ t h. h);
}

create_session-ok :
    (sha256_hex : String → String) (req : SessionRequest) (new : NewVault) (idle now : ℕ) (db : Db)
    → Ensures (create_session sha256_hex req new.session idle now db) (λ _ db'.
      db' ≡ record db { sessions = session_row sha256_hex req new.session now ∷ db.sessions })
unfolding create_session
create_session-ok sha256_hex req new idle now db =
    Ensures-throw_if _ _ _ _ λ free_id. Ensures-throw_if _ _ _ _ λ free_hash. Ensures-ok _ _ _ refl

-- What a rotation that returned has done: the request named every entry once with its current iv;
-- the vault has the new material and the next key version, every entry that was named the new
-- ciphertext under that version; the codes are those of the request, in some order, and unused; no ticket is left; every session
-- of before is revoked, and the one new session is added.
pub record Rotated (sha256_hex : String → String) (vault : VaultAuthRow) (material : Material)
    (req : SessionRequest) (new : NewVault) (now : ℕ) (db : Db) (r : RotationResult) (db' : Db)
    : Type 0 where
  pub matched : same_ids (map (λ e. e.id) material.entries) (list_key_entry_ids db) ≡ true
  pub ivs : all (iv_fits db) material.entries ≡ true
  pub vault_auth :
      db'.vault_auth
      ≡ update_row
          (rekey material.kdf material.proof_keys (vault.key_version + 1) now)
          db.vault_auth
  pub key_entries :
      db'.key_entries ≡ replace_ciphers material.entries (vault.key_version + 1) db.key_entries
  pub codes : All (IsFresh (vault.key_version + 1)) db'.recovery_codes
  pub number : length db'.recovery_codes ≡ length material.recovery_codes
  pub contents : Perm (map envelope_of db'.recovery_codes) material.recovery_codes
  pub tickets : db'.recovery_tickets ≡ []
  pub sessions :
      db'.sessions
      ≡ session_row sha256_hex req new.session now
        ∷ update (λ s. is_none s.revoked_at) (revoke now) db.sessions
  pub challenges : db'.login_challenges ≡ db.login_challenges
  pub key_version : r.key_version ≡ vault.key_version + 1
  pub re_encrypted : r.re_encrypted ≡ replaced material.entries db.key_entries

module _ (sha256_hex : String → String) (vault : VaultAuthRow) (material : Material)
    (ticket : Option String) (req : SessionRequest) (new : NewVault) (idle now : ℕ) where
  rotated_rows : Db → Db
  rotated_rows db = record db {
    sessions = update (λ s. is_none s.revoked_at) (revoke now) db.sessions;
    vault_auth =
        update_row (rekey material.kdf material.proof_keys (vault.key_version + 1) now)
          db.vault_auth;
    key_entries = replace_ciphers material.entries (vault.key_version + 1) db.key_entries;
  }

  still_owned :
      (db d1 : Db)
      → Consumed (rotated_rows db) d1
      → All (λ t. belongs db.recovery_codes t ≡ true) db.recovery_tickets
      → All (λ t. belongs d1.recovery_codes t ≡ true) d1.recovery_tickets
  unfolding rotated_rows
  still_owned db d1 consumed owned =
      subst (λ codes. All (λ t. belongs codes t ≡ true) d1.recovery_tickets)
        (sym (ap (λ x. x.recovery_codes) consumed.rest)) (consumed.owned owned)

  pub rotate_vault_material-Rotated :
      (db : Db)
      → All (λ t. belongs db.recovery_codes t ≡ true) db.recovery_tickets
      → Ensures
          (rotate_vault_material sha256_hex vault material ticket req new idle now db)
          (Rotated sha256_hex vault material req new now db)
  unfolding rotate_vault_material revoke_all_sessions update_vault_auth replace_key_entry_ciphers
      reset_throttle rotated_rows
  rotate_vault_material-Rotated db owned =
      Ensures-bind _ _ _ (assert_entries_match-ok material.entries db) λ _ d (same, matched, ivs).
        rw same (
          Ensures-bind (λ _ d1. Consumed (rotated_rows db) d1) _ _
            (consume_ticket-Consumed ticket now (rotated_rows db))
            λ _ d1 consumed.
              Ensures-bind (λ _ d2. Replaced (vault.key_version + 1) material.recovery_codes d1 d2)
                _ _
                (replace_recovery_codes-Replaced material.recovery_codes new.code_id
                  (vault.key_version + 1) now d1 (still_owned db d1 consumed owned))
                λ _ d2 done.
                  Ensures-bind _ _ _ (create_session-ok sha256_hex req new idle now _)
                    λ info d3 made. Ensures-ok _ _ _ (record {
                      matched = matched;
                      ivs = ivs;
                      vault_auth =
                          ap (λ x. x.vault_auth) made
                          ∙ ap (λ x. x.vault_auth) done.rest
                          ∙ ap (λ x. x.vault_auth) consumed.rest;
                      key_entries =
                          ap (λ x. x.key_entries) made
                          ∙ ap (λ x. x.key_entries) done.rest
                          ∙ ap (λ x. x.key_entries) consumed.rest;
                      codes = rw (ap (λ x. x.recovery_codes) made) done.fresh;
                      contents = rw (ap (λ x. x.recovery_codes) made) done.contents;
                      number = rw (ap (λ x. x.recovery_codes) made) done.number;
                      tickets =
                          ap (λ x. x.recovery_tickets) made
                          ∙ ap (λ x. x.recovery_tickets) done.rest;
                      sessions =
                          ap (λ x. x.sessions) made
                          ∙ ap (λ l. session_row sha256_hex req new.session now ∷ l)
                              (ap (λ x. x.sessions) done.rest ∙ ap (λ x. x.sessions) consumed.rest);
                      challenges =
                          ap (λ x. x.login_challenges) made
                          ∙ ap (λ x. x.login_challenges) done.rest
                          ∙ ap (λ x. x.login_challenges) consumed.rest;
                      key_version = refl;
                      re_encrypted = refl;
                    }))

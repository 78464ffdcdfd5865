-- ===== src/Routes/Setup/FirstBoot.antt =====
-- What POST /setup does to an unclaimed vault, and to a claimed one.
use key_page.Prelude.{ℕ, ◌≡◌, refl, ◌∙◌, ap, true, false, none, some, length, ◌==◌, []}
use key_page.Tables.{any}
use key_page.Db.Rows.{Db}
use key_page.Db.Action.{ok, throw_if, require}
use key_page.Db.Ensures.{Ensures-eq-ok}
use key_page.Auth.SetupToken.{SetupGate, verify_token, consume_token}
use key_page.Auth.Sessions.{SessionRequest, SessionInfo, create_session}
use key_page.Auth.Vault.{
  is_vault_initialized, vault_row, initialize_vault, set_up_vault, primary_key_taken,
  insert_vault_auth, replace_recovery_codes, count_unused_recovery_codes,
}
use key_page.Auth.Vault.Codes.{Replaced, replace_recovery_codes-Replaced, count_unused-IsFresh}
use key_page.Auth.Vault.Insert.{DrawsApart, replace_recovery_codes-ok}
use key_page.Auth.Rotation.{NewVault}
use key_page.Routes.Login.{Server}
use key_page.Routes.Setup.{
  Transport, is_insecure, SetupBody, validate_new_keys, claim_vault, first_session, after_claim,
  setup,
}
use key_page.Routes.Setup.Checked.{validate_new_keys_iff, AreAllowed-AreNew}
use key_page.Integrity.{IsCoherent}

not_initialized : (db : Db) → db.vault_auth ≡ none → is_vault_initialized db ≡ false
unfolding is_vault_initialized
not_initialized db unclaimed = rw unclaimed refl

module _ (server : Server) (now : ℕ) (body : SetupBody) (new : NewVault) where
  -- the database with the vault's row
  abbrev with_vault : Db → Db
  with_vault db = record db { vault_auth = some (vault_row body.kdf body.proof_keys 1 now) }

  -- the vault as a setup leaves it
  pub record Claimed (db db' : Db) : Type 0 where
    pub vault_auth : db'.vault_auth ≡ some (vault_row body.kdf body.proof_keys 1 now)
    pub unused : count_unused_recovery_codes db' ≡ length body.recovery_codes
    pub sessions : db'.sessions ≡ db.sessions

  Replaced-Claimed :
      (db db' : Db) → Replaced 1 body.recovery_codes (with_vault db) db' → Claimed db db'
  unfolding count_unused_recovery_codes
  Replaced-Claimed db db' done = record {
    vault_auth = ap (λ x. x.vault_auth) done.rest;
    unused = count_unused-IsFresh 1 db'.recovery_codes done.fresh ∙ done.number;
    sessions = ap (λ x. x.sessions) done.rest;
  }

  initialize_vault-ok :
      (db : Db)
      → IsCoherent db
      → db.vault_auth ≡ none
      → (replace_recovery_codes body.recovery_codes new.code_id 1 now (with_vault db)).0 ≡ ok tt
      → (db' : Db) × (initialize_vault body.kdf body.proof_keys body.recovery_codes new.code_id now
            db
          ≡ (ok tt, db'))
        × Claimed db db'
  unfolding initialize_vault set_up_vault primary_key_taken insert_vault_auth is_vault_initialized
      throw_if
  initialize_vault-ok db h unclaimed e =
      let r = replace_recovery_codes body.recovery_codes new.code_id 1 now (with_vault db) in
      let whole : r ≡ (ok tt, r.1) = ap (λ x. (x, r.1)) e in
      (
        r.1,
        rw (unclaimed, whole) refl,
        Replaced-Claimed db r.1 (
            Ensures-eq-ok (λ _ d. Replaced 1 body.recovery_codes (with_vault db) d) r tt r.1
              (replace_recovery_codes-Replaced body.recovery_codes new.code_id 1 now (with_vault db)
                h.tickets)
              whole),
      )

  claim_vault-ok :
      (transport : Transport) (gate : SetupGate) (db : Db)
      → IsCoherent db
      → db.vault_auth ≡ none
      → is_insecure transport ≡ false
      → validate_new_keys server.platform body.kdf body.proof_keys body.recovery_codes db
        ≡ (ok tt, db)
      → verify_token server.platform.sha256_hex gate body.setup_token now ≡ true
      → DrawsApart new.code_id
      → (db' : Db) × (claim_vault server now transport gate body new.code_id db ≡ (ok tt, db'))
        × Claimed db db'
  unfolding claim_vault throw_if
  claim_vault-ok transport gate db h unclaimed secure checked token apart =
      let (kdf_ok, (auth_ok, (recovery_ok, (ten, codes)))) =
        (validate_new_keys_iff server.platform db body.kdf body.proof_keys body.recovery_codes).0
          checked in
      let (db', claims, claimed) = initialize_vault-ok db h unclaimed (
        replace_recovery_codes-ok body.recovery_codes new.code_id 1 now (with_vault db) apart
          (AreAllowed-AreNew server.platform db body.recovery_codes [] codes)) in
      (db', rw (secure, checked, not_initialized db unclaimed, token) claims, claimed)

  -- the id and the token of the new session are no other's
  abbrev pub IsFree : Db → Type 0
  IsFree db =
      (any (λ s. s.id == new.session.id) db.sessions ≡ false)
      × (any (λ s. s.token_hash == server.platform.sha256_hex new.session.token) db.sessions
          ≡ false)

  first_session-ok :
      (req : SessionRequest) (db db' : Db)
      → IsFree db
      → Claimed db db'
      → let r = first_session server now req new.session db' in
        ((info : SessionInfo) × (r.0 ≡ ok (record { key_version = 1; info = info })))
        × (count_unused_recovery_codes r.1 ≡ length body.recovery_codes)
  unfolding first_session create_session throw_if require count_unused_recovery_codes vault_row
  first_session-ok req db db' (free_id, free_hash) claimed =
      rw (claimed.sessions, free_id, free_hash, claimed.vault_auth) ((_, refl), claimed.unused)

  -- A setup of an unclaimed vault succeeds, if the transport is secure enough, the keys and codes
  -- pass the checks, the token is the gate's before it expires, and the ids and the token that are
  -- drawn are new: the vault has key version 1 and ten unused recovery codes, and the gate has no
  -- token any more.
  pub setup-ok :
      (transport : Transport) (gate : SetupGate) (req : SessionRequest) (db : Db)
      → IsCoherent db
      → db.vault_auth ≡ none
      → is_insecure transport ≡ false
      → validate_new_keys server.platform body.kdf body.proof_keys body.recovery_codes db
        ≡ (ok tt, db)
      → verify_token server.platform.sha256_hex gate body.setup_token now ≡ true
      → DrawsApart new.code_id
      → IsFree db
      → let r = setup server now transport gate body req new db in
        ((info : SessionInfo) × (r.0.0 ≡ ok (record { key_version = 1; info = info })))
        × (count_unused_recovery_codes r.0.1 ≡ 10)
        × (r.1.token ≡ none)
  unfolding setup after_claim consume_token
  setup-ok transport gate req db h unclaimed secure checked token apart free =
      let (kdf_ok, (auth_ok, (recovery_ok, (ten, codes)))) =
        (validate_new_keys_iff server.platform db body.kdf body.proof_keys body.recovery_codes).0
          checked in
      let (db', claims, claimed) =
        claim_vault-ok transport gate db h unclaimed secure checked token apart in
      let (answer, unused) = first_session-ok req db db' free claimed in
      rw claims (answer, unused ∙ ten, refl)

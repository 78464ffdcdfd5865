-- ===== src/Integrity/Keys.antt =====
-- The handlers of apps/api/src/routes/vault.ts that make and replace keys keep the vault coherent.
use key_page.Prelude.{ℕ, String, List}
use key_page.Db.Rows.{Db, login}
use key_page.Db.Action.{Result, ok, err}
use key_page.Db.Leaves.{
  Leaves, Leaves-end, Leaves-bind, Leaves-require, Leaves-found, Leaves-throw_if,
}
use key_page.Auth.Sessions.{SessionRequest, NewSession}
use key_page.Auth.SetupToken.{SetupGate}
use key_page.Auth.Vault.{Envelope}
use key_page.Auth.Rotation.{Material, NewVault}
use key_page.Routes.Proof.{LoginProof, require_auth_stored_key}
use key_page.Routes.Login.{Server}
use key_page.Routes.Setup.{Transport, SetupBody, claim_vault, first_session, after_claim, setup}
use key_page.Routes.Rekey.{ResetBody, recovery_reset, prove_login, password, recovery_codes}
use key_page.Routes.Checks.{
  validate_recovery_envelopes-Leaves, validate_new_keys-Leaves, validate_client_proof_b64-Leaves,
  validate_material-Leaves, require_master_key_proof-Leaves,
}
use key_page.Integrity.{IsCoherent}
use key_page.Integrity.Access.{
  assert_not_locked-IsCoherent, reset_throttle-IsCoherent, create_session-IsCoherent,
}
use key_page.Integrity.Sessions.{require_session-IsCoherent}
use key_page.Integrity.Setup.{initialize_vault-IsCoherent}
use key_page.Integrity.Handlers.{verify_login_proof-IsCoherent}
use key_page.Integrity.Codes.{
  change_master_password-IsCoherent, reset_vault_from_recovery-IsCoherent,
  regenerate_recovery_codes-IsCoherent,
}

module _ (server : Server) (now : ℕ) where
  claim_vault-IsCoherent :
      (transport : Transport) (gate : SetupGate) (body : SetupBody) (code_id : ℕ → String) (db : Db)
      → IsCoherent db
      → Leaves IsCoherent (claim_vault server now transport gate body code_id db)
  unfolding claim_vault
  claim_vault-IsCoherent transport gate body code_id db h = Leaves-throw_if _ _ db _ h λ secure.
      Leaves-bind _ _ (validate_new_keys-Leaves _ _ _ _ db h) λ _ d k.
        Leaves-throw_if _ _ d _ k λ unclaimed. Leaves-throw_if _ _ d _ k λ token. record {
          at =
              (initialize_vault-IsCoherent body.kdf body.proof_keys body.recovery_codes code_id
                  now).at
                d k;
        }

  first_session-IsCoherent :
      (req : SessionRequest) (new : NewSession) (db : Db)
      → IsCoherent db
      → Leaves IsCoherent (first_session server now req new db)
  unfolding first_session
  first_session-IsCoherent req new db h =
      Leaves-bind _ _ (create_session-IsCoherent db h _ req new _ now)
        λ info d k. Leaves-require _ _ d _ k λ vault. Leaves-end _ _ k

  after_claim-IsCoherent :
      (req : SessionRequest) (new : NewSession) (gate : SetupGate) (r : Result (Unit {0}) × Db)
      → Leaves IsCoherent r
      → Leaves IsCoherent (after_claim server now req new gate r).0
  unfolding after_claim
  after_claim-IsCoherent req new gate (ok done, db) h = first_session-IsCoherent req new db h.at
  after_claim-IsCoherent req new gate (err e, db) h = Leaves-end _ _ h.at

  pub setup-IsCoherent :
      (transport : Transport) (gate : SetupGate) (body : SetupBody) (req : SessionRequest)
      (new : NewVault) (db : Db)
      → IsCoherent db
      → Leaves IsCoherent (setup server now transport gate body req new db).0
  unfolding setup
  setup-IsCoherent transport gate body req new db h =
      after_claim-IsCoherent req new.session gate _
        (claim_vault-IsCoherent transport gate body new.code_id db h)

  module _ (req : SessionRequest) where
    pub recovery_reset-IsCoherent :
        (body : ResetBody) (new : NewVault) (db : Db)
        → IsCoherent db
        → Leaves IsCoherent (recovery_reset server now req body new db)
    unfolding recovery_reset
    recovery_reset-IsCoherent body new db h =
        Leaves-bind _ _ (validate_material-Leaves _ _ db h) λ _ d k.
          Leaves-require d.vault_auth _ d _ k λ vault.
            Leaves-bind _ _ (require_master_key_proof-Leaves _ _ body d k) λ _ d' k'. record {
              at =
                  (reset_vault_from_recovery-IsCoherent _ body.material req new now _ _ _).at d' k';
            }

    prove_login-IsCoherent :
        (proof : LoginProof) (db : Db)
        → IsCoherent db
        → Leaves IsCoherent (prove_login server now req proof db)
    unfolding prove_login require_auth_stored_key
    prove_login-IsCoherent proof db h =
        Leaves-bind _ _ (Leaves-require db.vault_auth _ db _ h λ vault. Leaves-found _ _ db h)
          λ key d k.
            Leaves-bind _ _ (verify_login_proof-IsCoherent _ _ proof key now d k)
              λ _ d' k'. reset_throttle-IsCoherent d' k' login

    pub password-IsCoherent :
        (proof : LoginProof) (material : Material) (new : NewVault) (db : Db)
        → IsCoherent db
        → Leaves IsCoherent (password server now req proof material new db)
    unfolding password
    password-IsCoherent proof material new db h =
        Leaves-bind _ _ (require_session-IsCoherent _ req _ now db h) λ s d k.
          Leaves-bind _ _ (assert_not_locked-IsCoherent d k login now) λ _ d1 k1.
            Leaves-bind _ _ (validate_client_proof_b64-Leaves _ _ _ d1 k1) λ _ d2 k2.
              Leaves-bind _ _ (validate_material-Leaves _ material d2 k2) λ _ d3 k3.
                Leaves-bind _ _ (prove_login-IsCoherent proof d3 k3) λ _ d4 k4. record {
                  at = (change_master_password-IsCoherent _ material req new now _).at d4 k4;
                }

    pub recovery_codes-IsCoherent :
        (proof : LoginProof) (key_version : ℕ) (codes : List Envelope) (code_id : ℕ → String)
        (db : Db)
        → IsCoherent db
        → Leaves IsCoherent (recovery_codes server now req proof key_version codes code_id db)
    unfolding recovery_codes
    recovery_codes-IsCoherent proof key_version codes code_id db h =
        Leaves-bind _ _ (require_session-IsCoherent _ req _ now db h) λ s d k.
          Leaves-bind _ _ (assert_not_locked-IsCoherent d k login now) λ _ d1 k1.
            Leaves-bind _ _ (validate_client_proof_b64-Leaves _ _ _ d1 k1) λ _ d2 k2.
              Leaves-bind _ _ (validate_recovery_envelopes-Leaves _ codes d2 k2) λ _ d3 k3.
                Leaves-bind _ _ (prove_login-IsCoherent proof d3 k3) λ _ d4 k4. record {
                  at =
                      (regenerate_recovery_codes-IsCoherent s.id key_version codes code_id now).at
                        d4 k4;
                }

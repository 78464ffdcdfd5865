-- ===== src/Routes/Login/Proven.antt =====
-- Who can log in.
use key_page.Prelude.{
  ℕ, ◌≡◌, refl, sym, subst, ◌∙◌, ap, String, Bool, true, false, Option, none, some,
}
use key_page.Tables.{find}
use key_page.Db.Rows.{Db, VaultAuthRow, LoginChallengeRow, login}
use key_page.Db.Action.{Result, ok, err, go_on}
use key_page.Db.Ensures.{
  Ensures-eq-ok, Ensures, Ensures-ok, Ensures-bind, Ensures-require, Ensures-throw_if,
  Ensures-const, Ensures-mono, Ensures-check,
}
use key_page.Auth.Throttle.{ThrottleConfig, assert_not_locked, record_failure}
use key_page.Auth.Throttle.Frame.{Throttled, assert_not_locked-Throttled}
use key_page.Auth.Challenges.{is_match, consume_login_challenge}
use key_page.Auth.Sessions.{SessionRequest, NewSession}
use key_page.Routes.Request.{Platform, validate_client_proof_b64}
use key_page.Routes.Proof.{
  truthy, LoginProof, check_login_proof, is_proven, require_proven, incorrect_password,
  verify_login_proof,
}
use key_page.Routes.Login.{LoginResult, LoginBody, Server, proof_of, log_in, login_with_key}

-- a challenge of the database was answered under this key
pub record Answered (p : Platform) (proof : LoginProof) (key : String) (now : ℕ) (db : Db)
    : Type 0 where
  pub challenge : LoginChallengeRow
  pub issued :
      find (is_match proof.challenge_id proof.nonce_b64 login now) db.login_challenges
      ≡ some challenge
  pub verified : check_login_proof p proof key ≡ some true

module _ (p : Platform) (config : ThrottleConfig) (proof : LoginProof) (key : String)
    (now : ℕ) where
  incorrect_password-throws :
      {Q : Unit {0} → Db → Type 0} (db : Db) → Ensures (incorrect_password config now db) Q
  unfolding incorrect_password record_failure
  incorrect_password-throws db = record { at = tt }

  verified_case :
      (o : Option LoginChallengeRow) (v : Option Bool) (db d : Db)
      → find (is_match proof.challenge_id proof.nonce_b64 login now) db.login_challenges ≡ o
      → check_login_proof p proof key ≡ v
      → Ensures
          (go_on (is_proven o v d) (require_proven config now))
          (λ _ _. Answered p proof key now db)
  unfolding is_proven require_proven
  verified_case none v db d e f = incorrect_password-throws d
  verified_case (some c) none db d e f = record { at = tt }
  verified_case (some c) (some false) db d e f = incorrect_password-throws d
  verified_case (some c) (some true) db d e f =
      Ensures-ok _ _ _ (record { challenge = c; issued = e; verified = f })

  pub verify_login_proof-Answered :
      (db : Db)
      → Ensures (verify_login_proof p config proof key now db) (λ _ _. Answered p proof key now db)
  unfolding verify_login_proof consume_login_challenge
  verify_login_proof-Answered db = verified_case _ _ db _ refl refl

-- What a login that returned had: the vault with a stored key, a proof in the body that answers an
-- open challenge of the database under that key, and a throttle that let it pass.
pub record Proven (server : Server) (body : LoginBody) (now : ℕ) (db : Db) : Type 0 where
  pub vault : VaultAuthRow
  pub key : String
  pub proof : LoginProof
  pub initialized : db.vault_auth ≡ some vault
  pub stored : truthy vault.auth_stored_key ≡ some key
  pub given : proof_of body ≡ some proof
  pub answered : Answered server.platform proof key now db
  pub unlocked : (assert_not_locked login now db).0 ≡ ok tt

module _ (server : Server) (req : SessionRequest) (new : NewSession) (now : ℕ)
    (body : LoginBody) where
  login_with_key-Answered :
      (key : String) (db : Db)
      → Ensures (login_with_key server req new now body key db) (λ _ _.
        (proof : LoginProof) × (proof_of body ≡ some proof)
        × Answered server.platform proof key now db)
  unfolding login_with_key validate_client_proof_b64
  login_with_key-Answered key db = Ensures-require (proof_of body) _ _ _ λ proof given.
      Ensures-bind (λ _ d. d ≡ db) _ _
        (Ensures-throw_if _ _ _ _ λ exact. Ensures-check _ _ _ λ long. refl)
        λ _ d same.
          Ensures-bind (λ _ _. Answered server.platform proof key now d) _ _
            (verify_login_proof-Answered server.platform server.throttle proof key now d)
            λ _ d' answered.
              Ensures-const _
                (proof, given, subst (Answered server.platform proof key now) same answered)

  moved :
      (proof : LoginProof) (key : String) (db d : Db)
      → Throttled db d
      → Answered server.platform proof key now d
      → Answered server.platform proof key now db
  moved proof key db d t a = record {
    challenge = a.challenge;
    issued =
        subst
          (λ cs. find (is_match proof.challenge_id proof.nonce_b64 login now) cs ≡ some a.challenge)
          (ap (λ x. x.login_challenges) t.rest) a.issued;
    verified = a.verified;
  }

  log_in-ensures :
      (db : Db) → Ensures (log_in server req new now body db) (λ _ _. Proven server body now db)
  unfolding log_in
  log_in-ensures db = Ensures-throw_if _ _ _ _ λ ready.
      Ensures-bind (λ _ d. Throttled db d × ((assert_not_locked login now db).0 ≡ ok tt)) _ _
        (passed (assert_not_locked login now db) (assert_not_locked-Throttled login now db))
        λ _ d (throttled, unlocked). Ensures-throw_if _ _ _ _ λ no_secret.
          Ensures-require d.vault_auth _ _ _ λ vault found.
            Ensures-require (truthy vault.auth_stored_key) _ _ _ λ key stored.
              Ensures-mono _
                (λ _ _.
                  (proof : LoginProof) × (proof_of body ≡ some proof)
                  × Answered server.platform proof key now d)
                (login_with_key-Answered key d)
                λ _ _ (proof, given, answered). record {
                  vault = vault;
                  key = key;
                  proof = proof;
                  initialized = sym (ap (λ x. x.vault_auth) throttled.rest) ∙ found;
                  stored = stored;
                  given = given;
                  answered = moved proof key db d throttled answered;
                  unlocked = unlocked;
                }
    where
      passed :
          (r : Result (Unit {0}) × Db)
          → Throttled db r.1
          → Ensures r (λ _ d. Throttled db d × (r.0 ≡ ok tt))
      passed (ok tt, d) t = Ensures-ok _ _ _ (t, refl)
      passed (err e, d) t = record { at = tt }

  -- A login that returned had a vault with a stored key, a proof in its body that answers an open
  -- challenge of the database under that key, and a throttle that let it pass.
  pub log_in-Proven :
      (db db' : Db) (r : LoginResult)
      → log_in server req new now body db ≡ (ok r, db')
      → Proven server body now db
  log_in-Proven db db' r e = Ensures-eq-ok _ _ r db' (log_in-ensures db) e

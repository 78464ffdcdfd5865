-- ===== src/Routes/Login/Admits.antt =====
-- A right proof is accepted once.
use key_page.Prelude.{ℕ, ◌≤◌, ◌≡◌, refl, ap, String, true, none, some}
use key_page.Tables.Laws.{find-delete}
use key_page.Http.{invalid_credentials}
use key_page.Tables.{find, delete}
use key_page.Db.Rows.{Db, LoginChallengeRow, login}
use key_page.Db.Action.{ok, err}
use key_page.Auth.Throttle.{record_failure}
use key_page.Auth.Challenges.SingleUse.{is_match-later, find-imp, Meanwhile, Meanwhile-IsGone}
use key_page.Auth.Challenges.{is_match, consume_login_challenge}
use key_page.Routes.Proof.{
  LoginProof, check_login_proof, is_proven, require_proven, incorrect_password, verify_login_proof,
}
use key_page.Routes.Request.{Platform}
use key_page.Auth.Throttle.{ThrottleConfig}

module _ (p : Platform) (config : ThrottleConfig) (proof : LoginProof) (key : String)
    (now : ℕ) where
  -- the database without the challenge
  used_up : Db → Db
  used_up db = record db {
    login_challenges =
        delete (is_match proof.challenge_id proof.nonce_b64 login now) db.login_challenges;
  }

  accepts :
      (db : Db) (challenge : LoginChallengeRow)
      → find (is_match proof.challenge_id proof.nonce_b64 login now) db.login_challenges
        ≡ some challenge
      → check_login_proof p proof key ≡ some true
      → verify_login_proof p config proof key now db ≡ (ok tt, used_up db)
  unfolding verify_login_proof consume_login_challenge is_proven require_proven used_up
  accepts db challenge issued verified = rw (issued, verified) refl

  refuses :
      (key' : String) (later : ℕ) (db : Db)
      → find (is_match proof.challenge_id proof.nonce_b64 login later) db.login_challenges ≡ none
      → (n : ℕ) × ((verify_login_proof p config proof key' later db).0
          ≡ err (invalid_credentials n))
  unfolding verify_login_proof consume_login_challenge is_proven require_proven incorrect_password
      record_failure
  refuses key' later db gone = rw gone (_, refl)

  still_gone :
      (later : ℕ) (db : Db)
      → now ≤ later
      → find (is_match proof.challenge_id proof.nonce_b64 login now) db.login_challenges ≡ none
      → find (is_match proof.challenge_id proof.nonce_b64 login later) db.login_challenges ≡ none
  still_gone later db le h =
      find-imp _ _ db.login_challenges
        (λ c m. is_match-later proof.challenge_id proof.nonce_b64 login now later c le m) h

  -- A proof that answers an open challenge under the key is accepted once: at the same time or at any
  -- later one, whatever challenges are issued with other ids and consumed in between, and whatever
  -- else happens that leaves the challenges alone, the same proof is refused as a wrong password, also
  -- under another key.
  pub verify_login_proof_once :
      (db : Db) (challenge : LoginChallengeRow)
      → find (is_match proof.challenge_id proof.nonce_b64 login now) db.login_challenges
        ≡ some challenge
      → check_login_proof p proof key ≡ some true
      → (after : Db) (later : ℕ) (key' : String)
      → Meanwhile proof.challenge_id (verify_login_proof p config proof key now db).1 after
      → now ≤ later
      → ((verify_login_proof p config proof key now db).0 ≡ ok tt)
        × ((n : ℕ) × ((verify_login_proof p config proof key' later after).0
              ≡ err (invalid_credentials n)))
  unfolding used_up
  verify_login_proof_once db challenge issued verified after later key' between le =
      let first = accepts db challenge issued verified in
      let gone : find (is_match proof.challenge_id proof.nonce_b64 login now)
            (verify_login_proof p config proof key now db).1.login_challenges
          ≡ none =
        rw first (
          find-delete (is_match proof.challenge_id proof.nonce_b64 login now)
            (is_match proof.challenge_id proof.nonce_b64 login now) db.login_challenges
            (λ c m. m)) in
      (
        ap (λ r. r.0) first,
        refuses key' later after (
            still_gone later after le
              (Meanwhile-IsGone proof.challenge_id proof.nonce_b64 login now between gone)),
      )

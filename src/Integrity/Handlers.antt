-- ===== src/Integrity/Handlers.antt =====
-- The handlers of apps/api/src/routes/vault.ts keep the vault coherent.
use key_page.Prelude.{ℕ, String, Bool, true, false, Option, none, some, Bool-cases, inl, inr}
use key_page.Db.Rows.{Db, LoginChallengeRow, login}
use key_page.Db.Action.{Result, ok, err, roll_back}
use key_page.Db.Leaves.{
  Leaves, Leaves-end, Leaves-bind, Leaves-check, Leaves-require, Leaves-throw_if,
}
use key_page.Auth.Throttle.{ThrottleConfig}
use key_page.Auth.Sessions.{SessionRequest, NewSession, SessionResolution, resolved, refused}
use key_page.Routes.Request.{Platform, validate_client_proof_b64}
use key_page.Routes.Proof.{
  LoginProof, is_proven, require_proven, incorrect_password, verify_login_proof,
}
use key_page.Routes.Login.{
  LoginBody, LoginResult, Server, revoke_resolved, catch_credentials, is_invalid_credentials,
  open_session, finish_login, login_with_key, log_in,
}
use key_page.Integrity.{IsCoherent}
use key_page.Integrity.Access.{
  assert_not_locked-IsCoherent, record_failure-IsCoherent, reset_throttle-IsCoherent,
  consume_login_challenge-IsCoherent, create_session-IsCoherent, revoke_session-IsCoherent,
}
use key_page.Integrity.Sessions.{
  resolve_session-IsCoherent, revoke_open_recovery_tickets-IsCoherent,
}

incorrect_password-IsCoherent :
    {A : Type 0} (config : ThrottleConfig) (now : ℕ) (db : Db)
    → IsCoherent db
    → Leaves IsCoherent (incorrect_password {A = A} config now db)
unfolding incorrect_password
incorrect_password-IsCoherent config now db h =
    Leaves-bind _ _ (record_failure-IsCoherent db h login config now) λ n d k. Leaves-end _ _ k

is_proven-IsCoherent :
    (config : ThrottleConfig) (now : ℕ) (o : Option LoginChallengeRow) (v : Option Bool) (db : Db)
    → IsCoherent db
    → Leaves IsCoherent (is_proven o v db)
unfolding is_proven
is_proven-IsCoherent config now none v db h = Leaves-end _ _ h
is_proven-IsCoherent config now (some c) none db h = Leaves-end _ _ h
is_proven-IsCoherent config now (some c) (some b) db h = Leaves-end _ _ h

require_proven-IsCoherent :
    (config : ThrottleConfig) (now : ℕ) (proven : Bool) (db : Db)
    → IsCoherent db
    → Leaves IsCoherent (require_proven config now proven db)
unfolding require_proven
require_proven-IsCoherent config now true db h = Leaves-end _ _ h
require_proven-IsCoherent config now false db h = incorrect_password-IsCoherent config now db h

pub verify_login_proof-IsCoherent :
    (p : Platform) (config : ThrottleConfig) (proof : LoginProof) (key : String) (now : ℕ) (db : Db)
    → IsCoherent db
    → Leaves IsCoherent (verify_login_proof p config proof key now db)
unfolding verify_login_proof
verify_login_proof-IsCoherent p config proof key now db h =
    Leaves-bind _ _ (consume_login_challenge-IsCoherent db h _ _ login now) λ challenge d k.
      Leaves-bind _ _ (is_proven-IsCoherent config now challenge _ d k)
        λ proven d' k'. require_proven-IsCoherent config now proven d' k'

pub revoke_resolved-IsCoherent :
    (resolution : SessionResolution) (now : ℕ) (db : Db)
    → IsCoherent db
    → Leaves IsCoherent (revoke_resolved resolution now db)
unfolding revoke_resolved
revoke_resolved-IsCoherent (resolved s) now db h = revoke_session-IsCoherent db h s.id now
revoke_resolved-IsCoherent (refused why) now db h = Leaves-end _ _ h

module _ (server : Server) (req : SessionRequest) (new : NewSession) (now : ℕ) where
  open_session-IsCoherent :
      (key : String) (db : Db)
      → IsCoherent db
      → Leaves IsCoherent (open_session server req new now key db)
  unfolding open_session
  open_session-IsCoherent key db h = Leaves-require _ _ db _ h λ vault.
      Leaves-bind _ _ (resolve_session-IsCoherent _ _ now db h req) λ current d k.
        Leaves-bind _ _ (revoke_resolved-IsCoherent current now d k) λ _ d' k'.
          Leaves-bind _ _ (revoke_open_recovery_tickets-IsCoherent now d' k') λ _ d'' k''.
            Leaves-bind _ _ (create_session-IsCoherent d'' k'' _ req new _ now)
              λ info e l. Leaves-end _ _ l

  catch-IsCoherent :
      (before : Db) (r : Result LoginResult × Db)
      → IsCoherent before
      → Leaves IsCoherent r
      → Leaves IsCoherent (catch_credentials server.throttle now (roll_back before r))
  unfolding catch_credentials
  catch-IsCoherent before (ok a, db) b h = Leaves-end _ _ h.at
  catch-IsCoherent before (err e, db) b h = elim (Bool-cases (is_invalid_credentials e)) [
    | inl same ↦ rw same (incorrect_password-IsCoherent server.throttle now before b)
    | inr other ↦ rw other (Leaves-end _ _ b)
  ]

  finish_login-IsCoherent :
      (key : String) (db : Db)
      → IsCoherent db
      → Leaves IsCoherent (finish_login server req new now key db)
  unfolding finish_login
  finish_login-IsCoherent key db h =
      catch-IsCoherent db (open_session server req new now key db) h
        (open_session-IsCoherent key db h)

  validated :
      (value field : String) (db : Db)
      → IsCoherent db
      → Leaves IsCoherent (validate_client_proof_b64 server.platform value field db)
  unfolding validate_client_proof_b64
  validated value field db h = Leaves-throw_if _ _ db _ h λ exact. Leaves-check _ _ db h

  login_with_key-IsCoherent :
      (body : LoginBody) (key : String) (db : Db)
      → IsCoherent db
      → Leaves IsCoherent (login_with_key server req new now body key db)
  unfolding login_with_key
  login_with_key-IsCoherent body key db h = Leaves-require _ _ db _ h λ proof.
      Leaves-bind _ _ (validated _ _ db h) λ _ d k.
        Leaves-bind _ _ (verify_login_proof-IsCoherent _ _ proof key now d k) λ _ d' k'.
          Leaves-bind _ _ (reset_throttle-IsCoherent d' k' login)
            λ _ d'' k''. finish_login-IsCoherent key d'' k''

  pub log_in-IsCoherent :
      (body : LoginBody) (db : Db)
      → IsCoherent db
      → Leaves IsCoherent (log_in server req new now body db)
  unfolding log_in
  log_in-IsCoherent body db h = Leaves-throw_if _ _ db _ h λ ready.
      Leaves-bind _ _ (assert_not_locked-IsCoherent db h login now) λ _ d k.
        Leaves-throw_if _ _ d _ k λ no_secret.
          Leaves-require d.vault_auth _ d _ k
            λ vault. Leaves-require _ _ d _ k λ key. login_with_key-IsCoherent body key d k

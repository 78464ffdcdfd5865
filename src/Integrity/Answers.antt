-- ===== src/Integrity/Answers.antt =====
-- The other handlers of apps/api/src/routes/vault.ts keep the vault coherent.
use key_page.Prelude.{ℕ, String, Option, none, some}
use key_page.Db.Rows.{Db, login, recovery}
use key_page.Db.Leaves.{
  Leaves, Leaves-end, Leaves-bind, Leaves-found, Leaves-require, Leaves-throw_if,
}
use key_page.Auth.Sessions.{SessionRequest}
use key_page.Auth.Throttle.{read_lockout}
use key_page.Auth.Claim.{NewTicket}
use key_page.Routes.Request.{validate_stored_key_hex}
use key_page.Routes.Proof.{require_auth_stored_key}
use key_page.Routes.Login.{Server}
use key_page.Routes.Vault.{
  claimed, resolve, status, session, login_challenge, touch, lock, recovery_claim, recovery_cancel,
}
use key_page.Integrity.{IsCoherent}
use key_page.Integrity.Access.{
  assert_not_locked-IsCoherent, record_failure-IsCoherent, create_login_challenge-IsCoherent,
}
use key_page.Integrity.Sessions.{
  resolve_session-IsCoherent, require_session-IsCoherent, touch_session-IsCoherent,
  cancel_recovery_ticket-IsCoherent,
}
use key_page.Integrity.Claim.{claim_recovery_code-IsCoherent}
use key_page.Integrity.Handlers.{revoke_resolved-IsCoherent}

module _ (server : Server) (now : ℕ) (db : Db) (h : IsCoherent db) where
  pub status-IsCoherent : (req : SessionRequest) → Leaves IsCoherent (status server now req db)
  unfolding status resolve read_lockout
  status-IsCoherent req =
      Leaves-bind _ _ (resolve_session-IsCoherent _ _ now db h req)
        λ resolution d k. Leaves-end _ _ k

  pub session-IsCoherent : (req : SessionRequest) → Leaves IsCoherent (session server now req db)
  unfolding session resolve
  session-IsCoherent req =
      Leaves-bind _ _ (resolve_session-IsCoherent _ _ now db h req)
        λ resolution d k. Leaves-end _ _ k

  pub login_challenge-IsCoherent :
      (id nonce : String) → Leaves IsCoherent (login_challenge server now id nonce db)
  unfolding login_challenge require_auth_stored_key
  login_challenge-IsCoherent id nonce = Leaves-throw_if _ _ db _ h λ ready.
      Leaves-bind _ _ (assert_not_locked-IsCoherent db h login now) λ _ d k.
        Leaves-bind _ _ (Leaves-require d.vault_auth _ d _ k λ vault. Leaves-found _ _ d k)
          λ key d' k'. create_login_challenge-IsCoherent d' k' login id nonce now

  pub touch-IsCoherent : (req : SessionRequest) → Leaves IsCoherent (touch server now req db)
  unfolding touch
  touch-IsCoherent req =
      Leaves-bind _ _ (require_session-IsCoherent _ req _ now db h)
        λ s d k. touch_session-IsCoherent s.id now d k

  pub lock-IsCoherent : (req : SessionRequest) → Leaves IsCoherent (lock server now req db)
  unfolding lock resolve
  lock-IsCoherent req =
      Leaves-bind _ _ (resolve_session-IsCoherent _ _ now db h req)
        λ resolution d k. revoke_resolved-IsCoherent resolution now d k

  pub recovery_claim-IsCoherent :
      (lookup_hash : String) (new : NewTicket)
      → Leaves IsCoherent (recovery_claim server now lookup_hash new db)
  unfolding recovery_claim validate_stored_key_hex
  recovery_claim-IsCoherent lookup_hash new = Leaves-throw_if _ _ db _ h λ ready.
      Leaves-bind _ _ (assert_not_locked-IsCoherent db h recovery now) λ _ d k.
        Leaves-throw_if _ _ d _ k λ hex.
          Leaves-bind _ _ (claim_recovery_code-IsCoherent _ new now lookup_hash d k)
            λ result d' k'. claimed-IsCoherent result d' k'
    where
      claimed-IsCoherent :
          {A : Type 0} (o : Option A) (d : Db)
          → IsCoherent d
          → Leaves IsCoherent (claimed server now o d)
      claimed-IsCoherent none d k =
          Leaves-bind _ _ (record_failure-IsCoherent d k recovery server.throttle now)
            λ n d' k'. Leaves-end _ _ k'
      claimed-IsCoherent (some claim) d k = Leaves-end _ _ k

  pub recovery_cancel-IsCoherent :
      (ticket : String) → Leaves IsCoherent (recovery_cancel server now ticket db)
  unfolding recovery_cancel
  recovery_cancel-IsCoherent ticket =
      Leaves-bind _ _ (cancel_recovery_ticket-IsCoherent _ ticket now db h)
        λ cancelled d k. Leaves-end _ _ k

-- ===== src/Integrity/Access.antt =====
-- Sessions, challenges, the throttle and the tickets keep the vault coherent: none of them writes a
-- ciphertext or a code's key version.
use key_page.Prelude.{ℕ, ◌≡◌, refl, String, List, ap}
use key_page.Db.Rows.{Db, SessionRow, LoginChallengeRow, ChallengePurpose, ThrottleScope}
use key_page.Db.Leaves.{Leaves, Leaves-end, Leaves-throw_if}
use key_page.Auth.Throttle.{ThrottleConfig, assert_not_locked, record_failure, reset_throttle}
use key_page.Auth.Throttle.Frame.{
  Throttled, set_throttle_row-Throttled, assert_not_locked-Throttled,
}
use key_page.Auth.Challenges.{create_login_challenge, consume_login_challenge}
use key_page.Auth.Sessions.{SessionRequest, NewSession, create_session, revoke_session}
use key_page.Integrity.{IsCoherent}

-- the tables that coherence is about are as they were
pub same_tables :
    (db db' : Db)
    → IsCoherent db
    → db'.vault_auth ≡ db.vault_auth
    → db'.key_entries ≡ db.key_entries
    → db'.recovery_codes ≡ db.recovery_codes
    → db'.recovery_tickets ≡ db.recovery_tickets
    → IsCoherent db'
same_tables db db' h v e c t = record {
  labelled = rw (v, e, c) h.labelled;
  tickets = rw (c, t) h.tickets;
  unique = rw e h.unique;
}

pub Throttled-IsCoherent : (db db' : Db) → Throttled db db' → IsCoherent db → IsCoherent db'
Throttled-IsCoherent db db' t h =
    same_tables db db' h (ap (λ x. x.vault_auth) t.rest) (ap (λ x. x.key_entries) t.rest)
      (ap (λ x. x.recovery_codes) t.rest) (ap (λ x. x.recovery_tickets) t.rest)

module _ (db : Db) (h : IsCoherent db) where
  pub assert_not_locked-IsCoherent :
      (scope : ThrottleScope) (now : ℕ) → Leaves IsCoherent (assert_not_locked scope now db)
  assert_not_locked-IsCoherent scope now = record {
    at = Throttled-IsCoherent db _ (assert_not_locked-Throttled scope now db) h;
  }

  pub record_failure-IsCoherent :
      (scope : ThrottleScope) (config : ThrottleConfig) (now : ℕ)
      → Leaves IsCoherent (record_failure scope config now db)
  unfolding record_failure
  record_failure-IsCoherent scope config now = record {
    at = Throttled-IsCoherent db _ (set_throttle_row-Throttled scope _ db) h;
  }

  pub reset_throttle-IsCoherent :
      (scope : ThrottleScope) → Leaves IsCoherent (reset_throttle scope db)
  unfolding reset_throttle
  reset_throttle-IsCoherent scope = record {
    at = Throttled-IsCoherent db _ (set_throttle_row-Throttled scope _ db) h;
  }

  sessions_only : (rows : List SessionRow) → IsCoherent (record db { sessions = rows })
  sessions_only rows = same_tables db _ h refl refl refl refl

  challenges_only :
      (rows : List LoginChallengeRow) → IsCoherent (record db { login_challenges = rows })
  challenges_only rows = same_tables db _ h refl refl refl refl

  pub consume_login_challenge-IsCoherent :
      (id nonce : String) (purpose : ChallengePurpose) (now : ℕ)
      → Leaves IsCoherent (consume_login_challenge id nonce purpose now db)
  unfolding consume_login_challenge
  consume_login_challenge-IsCoherent id nonce purpose now = Leaves-end _ _ (challenges_only _)

  pub create_login_challenge-IsCoherent :
      (purpose : ChallengePurpose) (id nonce : String) (now : ℕ)
      → Leaves IsCoherent (create_login_challenge purpose id nonce now db)
  unfolding create_login_challenge
  create_login_challenge-IsCoherent purpose id nonce now =
      Leaves-throw_if _ _ _ _ (challenges_only _) λ room.
        Leaves-throw_if _ _ _ _ (challenges_only _) λ free. Leaves-end _ _ (challenges_only _)

  pub create_session-IsCoherent :
      (sha256_hex : String → String) (req : SessionRequest) (new : NewSession) (timeout now : ℕ)
      → Leaves IsCoherent (create_session sha256_hex req new timeout now db)
  unfolding create_session
  create_session-IsCoherent sha256_hex req new timeout now =
      Leaves-throw_if _ _ _ _ h
        λ free_id. Leaves-throw_if _ _ _ _ h λ free_hash. Leaves-end _ _ (sessions_only _)

  pub revoke_session-IsCoherent :
      (id : String) (now : ℕ) → Leaves IsCoherent (revoke_session id now db)
  unfolding revoke_session
  revoke_session-IsCoherent id now = Leaves-end _ _ (sessions_only _)

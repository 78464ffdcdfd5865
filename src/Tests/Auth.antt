-- ===== src/Tests/Auth.antt =====
-- The throttle, the challenges and the sessions on concrete data.
use key_page.Prelude.{◌<◌, ◌≡◌, refl, true, Option, none, some, [], ◌∷◌, arith, is_some}
use key_page.Http.{rate_limited}
use key_page.Db.Rows.{Db, AuthThrottleRow, LoginChallengeRow, login, key_write}
use key_page.Db.Action.{ok, err}
use key_page.Auth.Throttle.{
  LockoutState, record_failure, assert_not_locked, read_lockout, reset_row,
}
use key_page.Auth.Throttle.Lockout.{after_failures, failures-lock, failures-count}
use key_page.Auth.Throttle.Locked.{Agrees, locked_scope, read_lockout-Agrees}
use key_page.Auth.Challenges.{create_login_challenge, consume_login_challenge, open_challenges}
use key_page.Auth.Challenges.Laws.{IsCapped, create_login_challenge-IsCapped}
use key_page.Auth.Challenges.SingleUse.{consume-consume, create-consume}
use key_page.Auth.Sessions.{
  SessionResolution, refused, Reason, create_session, resolve_session, revoke_all_sessions,
}
use key_page.Auth.Sessions.Lifetime.{is_resolved, create_session-resolve_session}
use key_page.Auth.Sessions.Revocation.{revoke_all_sessions-Refused}
use key_page.Integrity.Reachable.{empty_db}
use key_page.Tests.Fixtures.{config, vault_db, mark, request, new_session}

abbrev fresh_row : AuthThrottleRow
fresh_row = empty_db.login_throttle

-- three failures in two minutes lock for a minute
failures-lock_example :
    (after_failures config (1000 ∷ 61000 ∷ 121000 ∷ []) (reset_row fresh_row)).locked_until
    ≡ some 181000
failures-lock_example =
    failures-lock config fresh_row 1000 61000 (121000 ∷ []) (omega arith, (omega arith, tt)) refl

failures-count_example :
    let r = after_failures config (1000 ∷ 61000 ∷ []) (reset_row fresh_row) in
    (r.locked_until ≡ none) × (r.failed_count ≡ 2)
failures-count_example =
    failures-count config fresh_row 1000 (61000 ∷ []) (omega arith, tt) (omega arith)

abbrev locked_db : Db
locked_db = record vault_db { login_throttle = record fresh_row { locked_until = some 181000 } }

locked_scope_example :
    (record_failure login config 150500 locked_db ≡ (ok 0, locked_db))
    × (assert_not_locked login 150500 locked_db
        ≡ (err (rate_limited "Too many attempts. Try again later." 31), locked_db))
    × (0 < 31)
    × ((assert_not_locked login 181500 locked_db).0 ≡ ok tt)
locked_scope_example = locked_scope login config 150500 181000 locked_db refl (omega arith)

read_lockout-Agrees_example :
    (s : LockoutState) × (read_lockout login 150500 locked_db ≡ (ok s, locked_db))
    × Agrees s locked_db (assert_not_locked login 150500 locked_db)
read_lockout-Agrees_example = read_lockout-Agrees login 150500 locked_db

consume-consume_example :
    (consume_login_challenge "ch" "nonce" login 2000
      (consume_login_challenge "ch" "nonce" login 1000 vault_db).1).0
    ≡ ok none
consume-consume_example = consume-consume "ch" "nonce" login 1000 2000 vault_db (omega arith)

create-consume_example :
    (found : Option LoginChallengeRow) × ((consume_login_challenge "c2" "n2" login 1500
        (create_login_challenge login "c2" "n2" 1000 vault_db).1).0
      ≡ ok found)
    × (is_some found ≡ true)
unfolding create_login_challenge open_challenges key_page.Tables.count key_page.Tables.delete
    key_page.Tables.any key_page.Db.Action.throw_if
create-consume_example =
    create-consume login "c2" "n2" 1000 vault_db
      {issued = record { challenge_id = "c2"; nonce_b64 = "n2"; expires_at = 61000 }} login 1500
      refl

create_login_challenge-IsCapped_example :
    IsCapped (create_login_challenge key_write "c2" "n2" 1000 empty_db).1
unfolding open_challenges key_page.Tables.count empty_db
create_login_challenge-IsCapped_example =
    create_login_challenge-IsCapped key_write "c2" "n2" 1000 empty_db
      (record { login_capped = omega arith; key_write_capped = omega arith })

create_session-resolve_session_example :
    (resolution : SessionResolution) × ((resolve_session mark request 300 200000
        (create_session mark request new_session 300 1000 vault_db).1).0
      ≡ ok resolution)
    × (is_resolved resolution ≡ true)
unfolding create_session key_page.Tables.any key_page.Db.Action.throw_if
    key_page.Auth.Sessions.session_row
create_session-resolve_session_example =
    create_session-resolve_session mark request new_session 1000 300 200000 vault_db _
      (record { idle_timeout_seconds = 300; absolute_expires_at = 3601000 }) request refl refl refl

revoke_all_sessions-Refused_example :
    (why : Reason) × ((resolve_session mark request 300 2000
        (revoke_all_sessions 1000 vault_db).1).0
      ≡ ok (refused why))
revoke_all_sessions-Refused_example =
    revoke_all_sessions-Refused mark request 300 1000 2000 vault_db

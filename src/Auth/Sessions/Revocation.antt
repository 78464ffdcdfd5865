-- ===== src/Auth/Sessions/Revocation.antt =====
-- After every session was revoked, none is active, and no cookie resolves to one.
use key_page.Prelude.{
  ℕ, ◌≡◌, refl, String, Bool, false, Option, none, some, List, [], ◌∷◌, is_none, arith, ◌==◌,
  Bool-cases, inl, inr,
}
use key_page.Tables.{find, update}
use key_page.Db.Rows.{Db, SessionRow}
use key_page.Db.Action.{Result, ok}
use key_page.Auth.Sessions.{
  SessionRequest, Reason, missing, unknown, revoked, refused, revoke, revoke_all_sessions,
  active_row, SessionResolution, is_session_active, check_row, settle, resolve_row, resolve_token,
  resolve_session,
}

pub active_row-find :
    (p : SessionRow → Bool) (now : ℕ) (rows : List SessionRow)
    → active_row (find p (update (λ s. is_none s.revoked_at) (revoke now) rows)) ≡ false
unfolding find update active_row
active_row-find p now [] = refl
active_row-find p now (s ∷ rows) = ground (arith, active_row-find p now rows)

-- After `revokeAllSessions` no session is active.
pub revoke_all_sessions-is_session_active :
    (id : String) (now : ℕ) (db : Db) → is_session_active id (revoke_all_sessions now db).1 ≡ false
unfolding is_session_active revoke_all_sessions
revoke_all_sessions-is_session_active id now db = active_row-find (λ s. s.id == id) now db.sessions

abbrev Refused : (r : Result SessionResolution × Db) → Type 0
Refused r = (why : Reason) × (r.0 ≡ ok (refused why))

module _ (sha256_hex : String → String) (idle now : ℕ) (db : Db) where
  check_row-revoked :
      (s : SessionRow)
      → is_none s.revoked_at ≡ false
      → check_row sha256_hex idle now s ≡ refused revoked
  unfolding check_row
  check_row-revoked s h = ground arith

  resolve_row-Refused :
      (o : Option SessionRow)
      → active_row o ≡ false
      → Refused (resolve_row sha256_hex idle now o db)
  unfolding resolve_row active_row settle
  resolve_row-Refused none h = (unknown, refl)
  resolve_row-Refused (some s) h = rw (check_row-revoked s h) (revoked, refl)

-- After `revokeAllSessions` a request is refused, whatever cookie it sends and whenever it comes.
pub revoke_all_sessions-Refused :
    (sha256_hex : String → String) (req : SessionRequest) (idle at now : ℕ) (db : Db)
    → Refused (resolve_session sha256_hex req idle now (revoke_all_sessions at db).1)
unfolding resolve_session resolve_token revoke_all_sessions
revoke_all_sessions-Refused sha256_hex req idle at now db = by_token req.cookie
  where
    by_token :
        (o : Option String)
        → Refused (resolve_token sha256_hex idle now o (revoke_all_sessions at db).1)
    by_token none = (missing, refl)
    by_token (some token) = elim (Bool-cases (token == "")) [
      | inl e ↦ rw e (missing, refl)
      | inr e ↦ rw e (
          resolve_row-Refused sha256_hex idle now _ _
            (active_row-find (λ s. s.token_hash == sha256_hex token) at db.sessions))
    ]

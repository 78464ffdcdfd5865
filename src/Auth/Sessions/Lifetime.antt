-- ===== src/Auth/Sessions/Lifetime.antt =====
-- How long a new session lasts.
use key_page.Prelude.{
  ℕ, ◌+◌, ◌-◌, ◌*◌, ◌≡◌, refl, String, Bool, true, false, none, some, ◌∷◌, arith, ◌==◌, leb, ltb,
  ◌&&◌, Bool-cases, inl, inr,
}
use text.Mathlib.TextPositions.{eq_refl}
use key_page.Tables.{find}
use key_page.Db.Rows.{Db, SessionRow}
use key_page.Db.Action.{ok}
use key_page.Db.Ensures.{Ensures, Ensures-ok, Ensures-eq-ok, Ensures-throw_if}
use key_page.Auth.Sessions.{
  SessionRequest, SessionInfo, NewSession, ResolvedSession, SessionResolution, resolved, refused,
  expired, idle, session_row, create_session, check_row, settle, resolve_row, resolve_token,
  resolve_session,
}

abbrev pub is_resolved : SessionResolution → Bool
is_resolved (resolved s) = true
is_resolved (refused why) = false

module _ (sha256_hex : String → String) (req : SessionRequest) (new : NewSession) (now : ℕ) where
  create_session-row :
      (timeout : ℕ) (db : Db)
      → Ensures (create_session sha256_hex req new timeout now db) (λ info db'.
        (db'.sessions ≡ session_row sha256_hex req new now ∷ db.sessions)
        × (info.absolute_expires_at ≡ now + new.lifetime_hours * 60 * 60 * 1000))
  unfolding create_session session_row
  create_session-row timeout db =
      Ensures-throw_if _ _ _ _
        λ free_id. Ensures-throw_if _ _ _ _ λ free_hash. Ensures-ok _ _ _ (refl, refl)

  settled :
      (s : SessionRow) (timeout t : ℕ) (db : Db)
      → s.revoked_at ≡ none
      → (resolution : SessionResolution) × ((settle sha256_hex s
            (check_row sha256_hex timeout t s)
            t
            db).0
          ≡ ok resolution)
        × (is_resolved resolution
            ≡ (ltb t s.absolute_expires_at && leb (t - s.last_seen_at) (timeout * 1000)))
  unfolding check_row settle key_page.Auth.Sessions.revoke_session
  settled s timeout t db h = elim (Bool-cases (leb s.absolute_expires_at t)) [
    | inl e ↦ rw (h, e) (refused expired, refl, ground arith)
    | inr e ↦ elim (Bool-cases (ltb (timeout * 1000) (t - s.last_seen_at))) [
      | inl f ↦ rw (h, e, f) (refused idle, refl, ground arith)
      | inr f ↦ rw (h, e, f) (resolved _, refl, ground arith)
    ]
  ]

  -- A session that was created is accepted with its token, which is not empty, while its lifetime
  -- lasts and as long as it has not been idle for longer than the timeout, and at no other time.
  pub create_session-resolve_session :
      (timeout t : ℕ) (db db' : Db) (info : SessionInfo) (later : SessionRequest)
      → create_session sha256_hex req new timeout now db ≡ (ok info, db')
      → later.cookie ≡ some new.token
      → (new.token == "") ≡ false
      → (resolution : SessionResolution) × ((resolve_session sha256_hex later timeout t db').0
          ≡ ok resolution)
        × (is_resolved resolution
            ≡ (ltb t info.absolute_expires_at && leb (t - now) (timeout * 1000)))
  unfolding resolve_session resolve_token resolve_row find session_row
  create_session-resolve_session timeout t db db' info later e cookie token =
      let (rows, until) = Ensures-eq-ok _ _ info db' (create_session-row timeout db) e in
      let found : find (λ s. s.token_hash == sha256_hex new.token) db'.sessions
          ≡ some (session_row sha256_hex req new now) =
        rw (rows, eq_refl (sha256_hex new.token)) refl in
      rw (cookie, until, token, found)
        (settled (session_row sha256_hex req new now) timeout t db' refl)

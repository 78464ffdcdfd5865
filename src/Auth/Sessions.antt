-- ===== src/Auth/Sessions.antt =====
-- apps/api/src/auth/sessions.ts, with apps/api/src/plugins/require-session.ts and the housekeeping
-- of apps/api/src/db/housekeeping.ts. Of the cookie, only the SHA-256 of its token is stored; the
-- hash function of the platform is a parameter.
pub mod Lifetime
pub mod Revocation
use key_page.Prelude.{
  ℕ, ◌+◌, ◌-◌, ◌*◌, String, Bool, false, ◌||◌, ◌&&◌, Option, none, some, ◌∷◌, is_none, ltb, leb,
  ◌==◌, if◌then◌else◌,
}
use key_page.Http.{unauthenticated, session_expired, constraint_primary_key, constraint_unique}
use key_page.Tables.{find, update, delete, any}
use key_page.Db.Rows.{Db, SessionRow}
use key_page.Db.Action.{Action, pure, throw, read, write, throw_if, ◌>>=◌, ◌>>◌}

-- SessionRequest: the cookie's token, the user agent and the address
pub record SessionRequest : Type 0 where
  pub cookie : Option String
  pub user_agent : Option String
  pub ip : Option String

-- SessionInfo
pub record SessionInfo : Type 0 where
  pub idle_timeout_seconds : ℕ
  pub absolute_expires_at : ℕ

-- ResolvedSession
pub record ResolvedSession : Type 0 where
  pub id : String
  pub last_seen_at : ℕ
  pub absolute_expires_at : ℕ

pub data Reason : Type 0 where
  missing unknown revoked idle expired : Reason

-- SessionResolution
pub data SessionResolution : Type 0 where
  resolved : ResolvedSession → SessionResolution
  refused : Reason → SessionResolution

abbrev pub touch_throttle_ms : ℕ
touch_throttle_ms = 15000

abbrev pub revoked_session_retention_ms : ℕ
revoked_session_retention_ms = 86400000

-- `UPDATE sessions SET revoked_at = ? WHERE … AND revoked_at IS NULL`
abbrev pub revoke : ℕ → SessionRow → SessionRow
revoke now s = record s { revoked_at = some now }

-- revokeSession
unfoldable pub revoke_session : String → ℕ → Action (Unit {0})
revoke_session id now = write (λ db. record db {
  sessions = update (λ s. s.id == id && is_none s.revoked_at) (revoke now) db.sessions;
})

-- revokeAllSessions
unfoldable pub revoke_all_sessions : ℕ → Action (Unit {0})
revoke_all_sessions now =
    write
      (λ db. record db { sessions = update (λ s. is_none s.revoked_at) (revoke now) db.sessions })

unfoldable pub active_row : Option SessionRow → Bool
active_row none = false
active_row (some s) = is_none s.revoked_at

-- isSessionActive
unfoldable pub is_session_active : String → Db → Bool
unfolding active_row
is_session_active id db = active_row (find (λ s. s.id == id) db.sessions)

-- what `createSession` draws: the token of the cookie, and the row's id
pub record NewSession : Type 0 where
  pub id : String
  pub token : String
  pub lifetime_hours : ℕ

module _ (sha256_hex : String → String) where
  unfoldable pub session_row : SessionRequest → NewSession → ℕ → SessionRow
  session_row req new now = record {
    id = new.id;
    token_hash = sha256_hex new.token;
    created_at = now;
    last_seen_at = now;
    absolute_expires_at = now + new.lifetime_hours * 60 * 60 * 1000;
    revoked_at = none;
    user_agent = req.user_agent;
    ip = req.ip;
  }

  -- createSession: `id` is the primary key and `token_hash` is unique
  unfoldable pub create_session : SessionRequest → NewSession → ℕ → ℕ → Action SessionInfo
  create_session req new idle_timeout_seconds now = do
    taken_id ← read (λ db. any (λ s. s.id == new.id) db.sessions)
    throw_if taken_id constraint_primary_key
    taken_hash ← read (λ db. any (λ s. s.token_hash == sha256_hex new.token) db.sessions)
    throw_if taken_hash constraint_unique
    let row = session_row req new now
    write (λ db. record db { sessions = row ∷ db.sessions })
    pure (record {
      idle_timeout_seconds = idle_timeout_seconds;
      absolute_expires_at = row.absolute_expires_at;
    })

  -- a row that was found, against the clock
  unfoldable pub check_row : ℕ → ℕ → SessionRow → SessionResolution
  check_row idle_timeout_seconds now s = elim s.revoked_at [
    | some at ↦ refused revoked
    | none ↦
        if leb s.absolute_expires_at now
        then refused expired
        else if ltb (idle_timeout_seconds * 1000) (now - s.last_seen_at)
        then refused idle
        else resolved (record {
          id = s.id;
          last_seen_at = s.last_seen_at;
          absolute_expires_at = s.absolute_expires_at;
        })
  ]

  -- an expired or idle session is revoked as it is refused
  unfoldable pub settle : SessionRow → SessionResolution → ℕ → Action SessionResolution
  settle s (refused expired) now = do revoke_session s.id now; pure (refused expired)
  settle s (refused idle) now = do revoke_session s.id now; pure (refused idle)
  settle s (refused missing) now = pure (refused missing)
  settle s (refused unknown) now = pure (refused unknown)
  settle s (refused revoked) now = pure (refused revoked)
  settle s (resolved r) now = pure (resolved r)

  unfoldable pub resolve_row : ℕ → ℕ → Option SessionRow → Action SessionResolution
  unfolding settle check_row
  resolve_row idle_timeout_seconds now none = pure (refused unknown)
  resolve_row idle_timeout_seconds now (some s) =
      settle s (check_row idle_timeout_seconds now s) now

  unfoldable pub resolve_token : ℕ → ℕ → Option String → Action SessionResolution
  unfolding resolve_row
  resolve_token idle_timeout_seconds now none = pure (refused missing)
  resolve_token idle_timeout_seconds now (some token) =
      if token == "" then pure (refused missing) else (do
        row ← read (λ db. find (λ s. s.token_hash == sha256_hex token) db.sessions)
        resolve_row idle_timeout_seconds now row)

  -- resolveSession
  unfoldable pub resolve_session : SessionRequest → ℕ → ℕ → Action SessionResolution
  unfolding resolve_token
  resolve_session req idle_timeout_seconds now = resolve_token idle_timeout_seconds now req.cookie

  unfoldable pub accept : SessionResolution → Action ResolvedSession
  accept (resolved r) = pure r
  accept (refused idle) = throw session_expired
  accept (refused expired) = throw session_expired
  accept (refused revoked) = throw session_expired
  accept (refused missing) = throw unauthenticated
  accept (refused unknown) = throw unauthenticated

  -- createRequireSession
  unfoldable pub require_session : SessionRequest → ℕ → ℕ → Action ResolvedSession
  unfolding accept
  require_session req idle_timeout_seconds now = do
    resolution ← resolve_session req idle_timeout_seconds now
    accept resolution

unfoldable pub touch_row : String → ℕ → Option SessionRow → Action (Unit {0})
touch_row id now none = pure tt
touch_row id now (some s) =
    if ltb (now - s.last_seen_at) touch_throttle_ms
    then pure tt
    else write (λ db. record db {
      sessions = update (λ r. r.id == id) (λ r. record r { last_seen_at = now }) db.sessions;
    })

-- touchSession
unfoldable pub touch_session : String → ℕ → Action (Unit {0})
unfolding touch_row
touch_session id now = do
  row ← read (λ db. find (λ s. s.id == id && is_none s.revoked_at) db.sessions)
  touch_row id now row

revoked_before : ℕ → Option ℕ → Bool
revoked_before cutoff none = false
revoked_before cutoff (some at) = ltb at cutoff

-- runHousekeeping; the sessions that are past their lifetime, or revoked for a day, and the tickets
-- that have expired
unfoldable pub run_housekeeping : ℕ → Action (Unit {0})
unfolding revoked_before
run_housekeeping now = write (λ db. record db {
  sessions =
      delete
        (λ s.
          ltb s.absolute_expires_at now
          || revoked_before (now - revoked_session_retention_ms) s.revoked_at)
        db.sessions;
  recovery_tickets = delete (λ t. ltb t.expires_at now) db.recovery_tickets;
})

-- ===== src/Integrity/Sessions.antt =====
-- Resolving and touching a session keeps the vault coherent, and so do the housekeeping and the
-- operations on recovery tickets.
use key_page.Prelude.{
  ℕ, ◌≡◌, refl, String, Bool, true, Option, none, some, List, Bool-cases, inl, inr, ltb, ◌==◌, ◌-◌,
}
use key_page.Tables.{All, update}
use key_page.Tables.Laws.{update-All, delete-All}
use key_page.Db.Rows.{Db, SessionRow, RecoveryTicketRow}
use key_page.Db.Leaves.{Leaves, Leaves-end, Leaves-bind}
use key_page.Auth.Sessions.{
  touch_throttle_ms, SessionRequest, SessionResolution, missing, unknown, revoked, idle, expired,
  resolved, refused, settle, resolve_row, resolve_token, accept, touch_row, resolve_session,
  require_session, touch_session, run_housekeeping,
}
use key_page.Auth.Vault.{belongs, consume}
use key_page.Auth.Claim.{cancel_recovery_ticket}
use key_page.Routes.Proof.{revoke_open_recovery_tickets}
use key_page.Integrity.{IsCoherent}
use key_page.Integrity.Access.{same_tables, revoke_session-IsCoherent}

module _ (sha256_hex : String → String) (timeout now : ℕ) (db : Db) (h : IsCoherent db) where
  settle-IsCoherent :
      (s : SessionRow) (resolution : SessionResolution)
      → Leaves IsCoherent (settle sha256_hex s resolution now db)
  unfolding settle
  settle-IsCoherent s (refused expired) =
      Leaves-bind _ _ (revoke_session-IsCoherent db h s.id now) λ _ d k. Leaves-end _ _ k
  settle-IsCoherent s (refused idle) =
      Leaves-bind _ _ (revoke_session-IsCoherent db h s.id now) λ _ d k. Leaves-end _ _ k
  settle-IsCoherent s (refused missing) = Leaves-end _ _ h
  settle-IsCoherent s (refused unknown) = Leaves-end _ _ h
  settle-IsCoherent s (refused revoked) = Leaves-end _ _ h
  settle-IsCoherent s (resolved r) = Leaves-end _ _ h

  resolve_row-IsCoherent :
      (o : Option SessionRow) → Leaves IsCoherent (resolve_row sha256_hex timeout now o db)
  unfolding resolve_row
  resolve_row-IsCoherent none = Leaves-end _ _ h
  resolve_row-IsCoherent (some s) = settle-IsCoherent s _

  resolve_token-IsCoherent :
      (o : Option String) → Leaves IsCoherent (resolve_token sha256_hex timeout now o db)
  unfolding resolve_token
  resolve_token-IsCoherent none = Leaves-end _ _ h
  resolve_token-IsCoherent (some token) = elim (Bool-cases (token == "")) [
    | inl e ↦ rw e (Leaves-end _ _ h)
    | inr e ↦ rw e (resolve_row-IsCoherent _)
  ]

  pub resolve_session-IsCoherent :
      (req : SessionRequest) → Leaves IsCoherent (resolve_session sha256_hex req timeout now db)
  unfolding resolve_session
  resolve_session-IsCoherent req = resolve_token-IsCoherent req.cookie

accept-IsCoherent :
    (sha256_hex : String → String) (resolution : SessionResolution) (db : Db)
    → IsCoherent db
    → Leaves IsCoherent (accept sha256_hex resolution db)
unfolding accept
accept-IsCoherent sha256_hex (resolved r) db h = Leaves-end _ _ h
accept-IsCoherent sha256_hex (refused idle) db h = Leaves-end _ _ h
accept-IsCoherent sha256_hex (refused expired) db h = Leaves-end _ _ h
accept-IsCoherent sha256_hex (refused revoked) db h = Leaves-end _ _ h
accept-IsCoherent sha256_hex (refused missing) db h = Leaves-end _ _ h
accept-IsCoherent sha256_hex (refused unknown) db h = Leaves-end _ _ h

pub require_session-IsCoherent :
    (sha256_hex : String → String) (req : SessionRequest) (timeout now : ℕ) (db : Db)
    → IsCoherent db
    → Leaves IsCoherent (require_session sha256_hex req timeout now db)
unfolding require_session
require_session-IsCoherent sha256_hex req timeout now db h =
    Leaves-bind _ _ (resolve_session-IsCoherent sha256_hex timeout now db h req)
      λ resolution d k. accept-IsCoherent sha256_hex resolution d k

touch_row-IsCoherent :
    (id : String) (now : ℕ) (o : Option SessionRow) (db : Db)
    → IsCoherent db
    → Leaves IsCoherent (touch_row id now o db)
unfolding touch_row
touch_row-IsCoherent id now none db h = Leaves-end _ _ h
touch_row-IsCoherent id now (some s) db h =
    elim (Bool-cases (ltb (now - s.last_seen_at) touch_throttle_ms)) [
      | inl e ↦ rw e (Leaves-end _ _ h)
      | inr e ↦ rw e (Leaves-end _ _ (same_tables db _ h refl refl refl refl))
    ]

pub touch_session-IsCoherent :
    (id : String) (now : ℕ) (db : Db) → IsCoherent db → Leaves IsCoherent (touch_session id now db)
unfolding touch_session
touch_session-IsCoherent id now db h = touch_row-IsCoherent id now _ db h

tickets_only :
    (db : Db) (rows : List RecoveryTicketRow)
    → All (λ t. belongs db.recovery_codes t ≡ true) rows
    → IsCoherent db
    → IsCoherent (record db { recovery_tickets = rows })
tickets_only db rows owned h = record { labelled = h.labelled; tickets = owned; unique = h.unique }

consume-IsCoherent :
    (p : RecoveryTicketRow → Bool) (now : ℕ) (db : Db)
    → IsCoherent db
    → IsCoherent (record db { recovery_tickets = update p (consume now) db.recovery_tickets })
unfolding belongs
consume-IsCoherent p now db h =
    tickets_only db _
      (update-All (λ t. belongs db.recovery_codes t ≡ true) p (consume now) db.recovery_tickets
        (λ t k. k) h.tickets)
      h

pub revoke_open_recovery_tickets-IsCoherent :
    (now : ℕ) (db : Db) → IsCoherent db → Leaves IsCoherent (revoke_open_recovery_tickets now db)
unfolding revoke_open_recovery_tickets
revoke_open_recovery_tickets-IsCoherent now db h = Leaves-end _ _ (consume-IsCoherent _ now db h)

pub cancel_recovery_ticket-IsCoherent :
    (sha256_hex : String → String) (ticket : String) (now : ℕ) (db : Db)
    → IsCoherent db
    → Leaves IsCoherent (cancel_recovery_ticket sha256_hex ticket now db)
unfolding cancel_recovery_ticket
cancel_recovery_ticket-IsCoherent sha256_hex ticket now db h =
    Leaves-end _ _ (consume-IsCoherent _ now db h)

pub run_housekeeping-IsCoherent :
    (now : ℕ) (db : Db) → IsCoherent db → Leaves IsCoherent (run_housekeeping now db)
unfolding run_housekeeping
run_housekeeping-IsCoherent now db h = Leaves-end _ _ (record {
  labelled = h.labelled;
  tickets = delete-All (λ t. belongs db.recovery_codes t ≡ true) _ db.recovery_tickets h.tickets;
  unique = h.unique;
})

-- ===== src/Routes/Entries.antt =====
-- The handlers of apps/api/src/routes/key-entries.ts that take no entry fields: the list, the
-- challenge, the order, the use and the deletion of an entry, each with its `requireSession`.
use key_page.Prelude.{ℕ, String, List, [], ◌∷◌}
use key_page.Http.{HttpError, invalid_request}
use key_page.Db.Rows.{KeyEntryRow, ActivityAction, deleted, key_write}
use key_page.Db.Action.{Action, pure, read, require, transaction, ◌>>=◌, ◌>>◌}
use key_page.Keys.Repo.{
  list_key_entries, get_key_entry, mark_key_entry_used, delete_key_entry, reorder_key_entries,
  record_activity_event,
}
use key_page.Auth.Challenges.{IssuedLoginChallenge, create_login_challenge}
use key_page.Auth.Sessions.{SessionRequest, require_session}
use key_page.Auth.Vault.{assert_mutations_allowed}
use key_page.Routes.Request.{Platform, validate_key_entry_id}
use key_page.Routes.Proof.{KeyWriteHeaders, require_key_write_proof}
use key_page.Shared.Proof.{◌+++◌}
use key_page.Routes.Login.{Server}

abbrev pub unknown_entry : HttpError
unknown_entry =
    invalid_request "Unknown key entry" (record { field = "id"; message = "not found" } ∷ [])

-- what a request has beside its body: its session, its proof and, of the clock, milliseconds and the
-- ISO text; and the id that an activity event draws
pub record Context : Type 0 where
  pub session : SessionRequest
  pub headers : KeyWriteHeaders
  pub event_id : String
  pub now : ℕ
  pub occurred_at : String

-- `for (const id of body.orderedIds) validateKeyEntryId(id)`
unfoldable pub validate_key_entry_ids : Platform → List String → Action (Unit {0})
validate_key_entry_ids p [] = pure tt
validate_key_entry_ids p (id ∷ ids) = do validate_key_entry_id p id; validate_key_entry_ids p ids

-- encodeURIComponent is the platform's, and changes nothing in an id that is a UUID
module _ (server : Server) (cx : Context) where
  unfoldable pub with_session : Action String
  with_session = do
    s ← require_session server.platform.sha256_hex cx.session server.idle_timeout_seconds cx.now
    pure s.id

  -- GET /
  unfoldable pub list_entries : Action (List KeyEntryRow)
  unfolding with_session
  list_entries = do session_id ← with_session; read list_key_entries

  -- POST /challenge
  unfoldable pub entry_challenge : (id nonce : String) → Action IssuedLoginChallenge
  unfolding with_session
  entry_challenge id nonce = do
    session_id ← with_session
    create_login_challenge key_write id nonce cx.now

  -- the transaction of PATCH /order
  unfoldable pub apply_order : String → List String → Action (List String)
  apply_order session_id ordered_ids = transaction (do
    assert_mutations_allowed session_id cx.now
    entries ← reorder_key_entries ordered_ids
    pure ordered_ids)

  -- PATCH /order
  unfoldable pub order_entries : List String → Action (List String)
  unfolding with_session
  order_entries ordered_ids = do
    session_id ← with_session
    require_key_write_proof server.platform cx.headers "/api/keys/order" cx.now
    validate_key_entry_ids server.platform ordered_ids
    apply_order session_id ordered_ids

  -- the transaction of POST /:id/use
  unfoldable pub apply_use : String → ActivityAction → Action KeyEntryRow
  apply_use id action = transaction (do
    found ← mark_key_entry_used id cx.occurred_at
    updated ← require found unknown_entry
    record_activity_event cx.event_id id action cx.occurred_at
    pure updated)

  -- POST /:id/use
  unfoldable pub use_entry : String → ActivityAction → Action KeyEntryRow
  unfolding with_session
  use_entry id action = do
    session_id ← with_session
    validate_key_entry_id server.platform id
    apply_use id action

  -- the transaction of DELETE /:id
  unfoldable pub apply_delete : String → String → ℕ → Action (Unit {0})
  apply_delete session_id id key_version = transaction (do
    assert_mutations_allowed session_id cx.now
    found ← read (get_key_entry id)
    existing ← require found unknown_entry
    record_activity_event cx.event_id id deleted cx.occurred_at
    gone ← delete_key_entry id key_version
    pure tt)

  -- DELETE /:id
  unfoldable pub delete_entry : String → ℕ → Action (Unit {0})
  unfolding with_session
  delete_entry id key_version = do
    session_id ← with_session
    validate_key_entry_id server.platform id
    require_key_write_proof server.platform cx.headers ("/api/keys/" +++ id) cx.now
    apply_delete session_id id key_version

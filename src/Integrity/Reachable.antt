-- ===== src/Integrity/Reachable.antt =====
-- The states that the server can reach from an empty database, by any requests in any order, with
-- any times, tokens and ids.
use key_page.Prelude.{ℕ, refl, String, none, List, []}
use key_page.Tables.{distinct}
use key_page.Db.Rows.{Db, ActivityAction, AuthThrottleRow}
use key_page.Auth.Sessions.{SessionRequest, NewSession, run_housekeeping}
use key_page.Auth.Vault.{Envelope}
use key_page.Auth.SetupToken.{SetupGate}
use key_page.Routes.Proof.{LoginProof}
use key_page.Auth.Claim.{NewTicket}
use key_page.Auth.Rotation.{Material, NewVault}
use key_page.Routes.Login.{Server, LoginBody, log_in}
use key_page.Routes.Vault.{
  status, session, login_challenge, touch, lock, recovery_claim, recovery_cancel,
}
use key_page.Routes.Entries.{
  Context, list_entries, entry_challenge, order_entries, use_entry, delete_entry,
}
use key_page.Routes.Setup.{Transport, SetupBody, setup}
use key_page.Routes.Rekey.{ResetBody, recovery_reset, password, recovery_codes}
use key_page.Routes.Bodies.{CreateBody, ImportItem, UpdateBody, create_one, import_all, edit_entry}
use key_page.Integrity.{IsCoherent}
use key_page.Integrity.Sessions.{run_housekeeping-IsCoherent}
use key_page.Integrity.Keys.{
  setup-IsCoherent, recovery_reset-IsCoherent, password-IsCoherent, recovery_codes-IsCoherent,
}
use key_page.Integrity.Bodies.{create_one-IsCoherent, import_all-IsCoherent, edit_entry-IsCoherent}
use key_page.Integrity.Handlers.{log_in-IsCoherent}
use key_page.Integrity.Answers.{
  status-IsCoherent, session-IsCoherent, login_challenge-IsCoherent, touch-IsCoherent,
  lock-IsCoherent, recovery_claim-IsCoherent, recovery_cancel-IsCoherent,
}
use key_page.Integrity.Writes.{
  list_entries-IsCoherent, entry_challenge-IsCoherent, order_entries-IsCoherent,
  use_entry-IsCoherent, delete_entry-IsCoherent,
}

-- after the migrations: no rows, and the two rows of auth_throttle
abbrev no_failures : AuthThrottleRow
no_failures = record {
  failed_count = 0;
  first_failed_at = none;
  last_failed_at = none;
  locked_until = none;
  lockout_count = 0;
}

unfoldable pub empty_db : Db
empty_db = record {
  vault_auth = none;
  recovery_codes = [];
  sessions = [];
  recovery_tickets = [];
  login_challenges = [];
  login_throttle = no_failures;
  recovery_throttle = no_failures;
  key_entries = [];
  activity_events = [];
}

-- what the server can do to its database: every handler that touches one of these tables, whole
pub data Step (server : Server) : Db → Db → Type 0 where
  housekeep : (now : ℕ) (db : Db) → Step server db (run_housekeeping now db).1
  post_setup :
      (transport : Transport) (gate : SetupGate) (body : SetupBody) (req : SessionRequest)
      (new : NewVault) (now : ℕ) (db : Db)
      → Step server db (setup server now transport gate body req new db).0.1
  get_status :
      (req : SessionRequest) (now : ℕ) (db : Db) → Step server db (status server now req db).1
  get_session :
      (req : SessionRequest) (now : ℕ) (db : Db) → Step server db (session server now req db).1
  get_challenge :
      (id nonce : String) (now : ℕ) (db : Db)
      → Step server db (login_challenge server now id nonce db).1
  post_login :
      (req : SessionRequest) (new : NewSession) (body : LoginBody) (now : ℕ) (db : Db)
      → Step server db (log_in server req new now body db).1
  post_touch :
      (req : SessionRequest) (now : ℕ) (db : Db) → Step server db (touch server now req db).1
  post_lock : (req : SessionRequest) (now : ℕ) (db : Db) → Step server db (lock server now req db).1
  post_claim :
      (lookup_hash : String) (new : NewTicket) (now : ℕ) (db : Db)
      → Step server db (recovery_claim server now lookup_hash new db).1
  post_cancel :
      (ticket : String) (now : ℕ) (db : Db)
      → Step server db (recovery_cancel server now ticket db).1
  post_reset :
      (body : ResetBody) (req : SessionRequest) (new : NewVault) (now : ℕ) (db : Db)
      → Step server db (recovery_reset server now req body new db).1
  post_password :
      (proof : LoginProof) (material : Material) (req : SessionRequest) (new : NewVault) (now : ℕ)
      (db : Db)
      → Step server db (password server now req proof material new db).1
  post_recovery_codes :
      (proof : LoginProof) (key_version : ℕ) (codes : List Envelope) (code_id : ℕ → String)
      (req : SessionRequest) (now : ℕ) (db : Db)
      → Step server db (recovery_codes server now req proof key_version codes code_id db).1
  get_entries : (cx : Context) (db : Db) → Step server db (list_entries server cx db).1
  post_entry_challenge :
      (cx : Context) (id nonce : String) (db : Db)
      → Step server db (entry_challenge server cx id nonce db).1
  patch_order :
      (cx : Context) (ids : List String) (db : Db)
      → Step server db (order_entries server cx ids db).1
  post_use :
      (cx : Context) (id : String) (action : ActivityAction) (db : Db)
      → Step server db (use_entry server cx id action db).1
  delete_one :
      (cx : Context) (id : String) (key_version : ℕ) (db : Db)
      → Step server db (delete_entry server cx id key_version db).1
  post_entry :
      (cx : Context) (body : CreateBody) (db : Db) → Step server db (create_one server cx body db).1
  post_import :
      (cx : Context) (items : List ImportItem) (event_id : ℕ → String) (db : Db)
      → Step server db (import_all server cx items event_id db).1
  patch_entry :
      (cx : Context) (id : String) (body : UpdateBody) (db : Db)
      → Step server db (edit_entry server cx id body db).1

pub data Reachable (server : Server) : Db → Type 0 where
  start : Reachable server empty_db
  next : {db db' : Db} → Reachable server db → Step server db db' → Reachable server db'

module _ (server : Server) where
  Step-IsCoherent : {db db' : Db} → Step server db db' → IsCoherent db → IsCoherent db'
  Step-IsCoherent (housekeep now db) h = (run_housekeeping-IsCoherent now db h).at
  Step-IsCoherent (post_setup transport gate body req new now db) h =
      (setup-IsCoherent server now transport gate body req new db h).at
  Step-IsCoherent (get_status req now db) h = (status-IsCoherent server now db h req).at
  Step-IsCoherent (get_session req now db) h = (session-IsCoherent server now db h req).at
  Step-IsCoherent (get_challenge id nonce now db) h =
      (login_challenge-IsCoherent server now db h id nonce).at
  Step-IsCoherent (post_login req new body now db) h =
      (log_in-IsCoherent server req new now body db h).at
  Step-IsCoherent (post_touch req now db) h = (touch-IsCoherent server now db h req).at
  Step-IsCoherent (post_lock req now db) h = (lock-IsCoherent server now db h req).at
  Step-IsCoherent (post_claim lookup_hash new now db) h =
      (recovery_claim-IsCoherent server now db h lookup_hash new).at
  Step-IsCoherent (post_cancel ticket now db) h =
      (recovery_cancel-IsCoherent server now db h ticket).at
  Step-IsCoherent (post_reset body req new now db) h =
      (recovery_reset-IsCoherent server now req body new db h).at
  Step-IsCoherent (post_password proof material req new now db) h =
      (password-IsCoherent server now req proof material new db h).at
  Step-IsCoherent (post_recovery_codes proof key_version codes code_id req now db) h =
      (recovery_codes-IsCoherent server now req proof key_version codes code_id db h).at
  Step-IsCoherent (get_entries cx db) h = (list_entries-IsCoherent server cx db h).at
  Step-IsCoherent (post_entry_challenge cx id nonce db) h =
      (entry_challenge-IsCoherent server cx id nonce db h).at
  Step-IsCoherent (patch_order cx ids db) h = (order_entries-IsCoherent server cx ids db h).at
  Step-IsCoherent (post_use cx id action db) h = (use_entry-IsCoherent server cx id action db h).at
  Step-IsCoherent (delete_one cx id key_version db) h =
      (delete_entry-IsCoherent server cx id key_version db h).at
  Step-IsCoherent (post_entry cx body db) h = (create_one-IsCoherent server cx body db h).at
  Step-IsCoherent (post_import cx items event_id db) h =
      (import_all-IsCoherent server cx items event_id db h).at
  Step-IsCoherent (patch_entry cx id body db) h = (edit_entry-IsCoherent server cx id body db h).at

  -- In every state that the server can reach, all ciphertexts and recovery codes carry the key version
  -- of the vault, there are none before the setup, every ticket belongs to a code, and no two entries
  -- share an id.
  pub Reachable-IsCoherent : {db : Db} → Reachable server db → IsCoherent db
  unfolding empty_db distinct
  Reachable-IsCoherent start = record { labelled = (refl, refl); tickets = tt; unique = refl }
  Reachable-IsCoherent (next r s) = Step-IsCoherent s (Reachable-IsCoherent r)

-- ===== src/Integrity/Writes.antt =====
-- The handlers of apps/api/src/routes/key-entries.ts keep the vault coherent.
use key_page.Prelude.{ℕ, suc, String, Bool, true, false, Option, none, some, List, [], ◌∷◌}
use key_page.Tables.{contains}
use key_page.Db.Rows.{Db, ActivityAction, key_write, created}
use key_page.Db.Action.{Result, ok, err, Action}
use key_page.Db.Laws.{Keeps}
use key_page.Db.Ensures.{
  Ensures-ok, Ensures-bind, Ensures-throw_if, Ensures-check, Ensures-require, Keeps-commit,
}
use key_page.Db.Leaves.{
  Leaves, Leaves-end, Leaves-bind, Leaves-check, Leaves-require, Leaves-throw_if,
}
use key_page.Keys.Repo.{InsertInput, UpdateInput}
use key_page.Auth.Vault.{assert_mutations_allowed}
use key_page.Routes.Request.{Platform, validate_key_entry_id}
use key_page.Routes.Proof.{KeyWriteHeaders, accepted, require_key_write_proof}
use key_page.Routes.Login.{Server}
use key_page.Routes.Entries.{
  Context, with_session, validate_key_entry_ids, list_entries, entry_challenge, apply_order,
  order_entries, apply_use, use_entry, apply_delete, delete_entry,
}
use key_page.Routes.Writes.{
  catch_duplicate, insert_recorded, create_entry, apply_create, Imported, import_entry,
  import_entries, apply_import, apply_update,
}
use key_page.Integrity.{IsCoherent}
use key_page.Integrity.Access.{
  consume_login_challenge-IsCoherent, create_login_challenge-IsCoherent,
}
use key_page.Integrity.Sessions.{require_session-IsCoherent}
use key_page.Integrity.Entries.{
  Coherently, mark_key_entry_used-IsCoherent, record_activity_event-IsCoherent,
  insert_key_entry-IsCoherent, update_key_entry-IsCoherent, delete_key_entry-IsCoherent,
  reorder_key_entries-IsCoherent,
}

allowed :
    (session_id : String) (now : ℕ) (db : Db)
    → IsCoherent db
    → Coherently (assert_mutations_allowed session_id now db)
unfolding assert_mutations_allowed
allowed session_id now db h = Ensures-throw_if _ _ db _ λ active. Ensures-check _ _ db λ thawed. h

module _ (session_id : String) (now : ℕ) (occurred_at : String) where
  insert_recorded-IsCoherent :
      (input : InsertInput) (event_id : String) (db : Db)
      → IsCoherent db
      → Coherently (insert_recorded session_id now occurred_at input event_id db)
  unfolding insert_recorded
  insert_recorded-IsCoherent input event_id db h =
      Ensures-bind (λ _ d. IsCoherent d) _ _ (insert_key_entry-IsCoherent input occurred_at db h)
        λ entry d k.
          Ensures-bind (λ _ d. IsCoherent d) _ _
            (record_activity_event-IsCoherent event_id entry.id created occurred_at d k)
            λ _ d' k'. Ensures-ok _ _ _ k'

  import_entry-IsCoherent :
      (present : Bool) (input : InsertInput) (event_id : String)
      (rest : List String → Action Imported) (ids : List String) (db : Db)
      → ((seen : List String) (d : Db) → IsCoherent d → Coherently (rest seen d))
      → IsCoherent db
      → Coherently (import_entry session_id now occurred_at present input event_id rest ids db)
  unfolding import_entry
  import_entry-IsCoherent true input event_id rest ids db loop h =
      Ensures-bind (λ _ d. IsCoherent d) _ _ (loop ids db h) λ r d k. Ensures-ok _ _ _ k
  import_entry-IsCoherent false input event_id rest ids db loop h =
      Ensures-bind (λ _ d. IsCoherent d) _ _ (insert_recorded-IsCoherent input event_id db h)
        λ entry d k.
          Ensures-bind (λ _ d. IsCoherent d) _ _ (loop (entry.id ∷ ids) d k)
            λ r d' k'. Ensures-ok _ _ _ k'

  import_entries-IsCoherent :
      (inputs : List InsertInput) (event_id : ℕ → String) (n : ℕ) (ids : List String) (db : Db)
      → IsCoherent db
      → Coherently (import_entries session_id now occurred_at inputs event_id n ids db)
  unfolding import_entries
  import_entries-IsCoherent [] event_id n ids db h = Ensures-ok _ _ _ h
  import_entries-IsCoherent (input ∷ inputs) event_id n ids db h =
      import_entry-IsCoherent (contains input.id ids) input (event_id n) _ ids db
        (λ seen d k. import_entries-IsCoherent inputs event_id (suc n) seen d k) h

  pub apply_import-IsCoherent :
      (inputs : List InsertInput) (event_id : ℕ → String)
      → Keeps IsCoherent (apply_import session_id now occurred_at inputs event_id)
  unfolding apply_import
  apply_import-IsCoherent inputs event_id = Keeps-commit IsCoherent _ λ db h.
      Ensures-bind (λ _ d. IsCoherent d) _ _ (allowed session_id now db h)
        λ _ d k. import_entries-IsCoherent inputs event_id 0 _ d k

  catch_duplicate-leaves :
      {A : Type 0} (r : Result A × Db) → IsCoherent r.1 → IsCoherent (catch_duplicate r).1
  unfolding catch_duplicate
  catch_duplicate-leaves (ok a, db) h = h
  catch_duplicate-leaves (err e, db) h = h

  create_entry-IsCoherent :
      (input : InsertInput) (event_id : String)
      → Keeps IsCoherent (create_entry session_id now occurred_at input event_id)
  unfolding create_entry
  create_entry-IsCoherent input event_id = Keeps-commit IsCoherent _ λ db h.
      Ensures-bind (λ _ d. IsCoherent d) _ _ (allowed session_id now db h)
        λ _ d k. insert_recorded-IsCoherent input event_id d k

  pub apply_create-IsCoherent :
      (input : InsertInput) (event_id : String)
      → Keeps IsCoherent (apply_create session_id now occurred_at input event_id)
  unfolding apply_create
  apply_create-IsCoherent input event_id = record {
    at = λ db h. catch_duplicate-leaves _ ((create_entry-IsCoherent input event_id).at db h);
  }

  pub apply_update-IsCoherent :
      (input : UpdateInput) (event_id : String)
      → Keeps IsCoherent (apply_update session_id now occurred_at input event_id)
  unfolding apply_update
  apply_update-IsCoherent input event_id = Keeps-commit IsCoherent _ λ db h.
      Ensures-bind (λ _ d. IsCoherent d) _ _ (allowed session_id now db h)
        λ _ d k.
          Ensures-bind (λ _ d. IsCoherent d) _ _ (update_key_entry-IsCoherent input d k)
            λ found d' k'. Ensures-require found _ d' _ λ updated some_found.
              Ensures-bind (λ _ d. IsCoherent d) _ _
                (record_activity_event-IsCoherent event_id input.id _ occurred_at d' k')
                λ _ d'' k''. Ensures-ok _ _ _ k''

validate_key_entry_ids-IsCoherent :
    (p : Platform) (ids : List String) (db : Db)
    → IsCoherent db
    → Leaves IsCoherent (validate_key_entry_ids p ids db)
unfolding validate_key_entry_ids validate_key_entry_id
validate_key_entry_ids-IsCoherent p [] db h = Leaves-end _ _ h
validate_key_entry_ids-IsCoherent p (id ∷ ids) db h =
    Leaves-throw_if _ _ db _ h λ valid. validate_key_entry_ids-IsCoherent p ids db h

accepted-IsCoherent :
    (o : Option Bool) (db : Db) → IsCoherent db → Leaves IsCoherent (accepted o db)
unfolding accepted
accepted-IsCoherent none db h = Leaves-end _ _ h
accepted-IsCoherent (some b) db h = Leaves-check _ _ db h

pub require_key_write_proof-IsCoherent :
    (p : Platform) (headers : KeyWriteHeaders) (path : String) (now : ℕ) (db : Db)
    → IsCoherent db
    → Leaves IsCoherent (require_key_write_proof p headers path now db)
unfolding require_key_write_proof
require_key_write_proof-IsCoherent p headers path now db h = Leaves-require _ _ db _ h λ id.
    Leaves-require _ _ db _ h λ nonce. Leaves-require _ _ db _ h λ proof.
      Leaves-bind _ _ (consume_login_challenge-IsCoherent db h id nonce key_write now) λ found d k.
        Leaves-require found _ d _ k λ challenge.
          Leaves-require _ _ d _ k λ key. Leaves-require _ _ d _ k λ body. accepted-IsCoherent _ d k

module _ (server : Server) (cx : Context) where
  pub with_session-IsCoherent :
      (db : Db) → IsCoherent db → Leaves IsCoherent (with_session server cx db)
  unfolding with_session
  with_session-IsCoherent db h =
      Leaves-bind _ _ (require_session-IsCoherent _ cx.session _ cx.now db h)
        λ s d k. Leaves-end _ _ k

  pub list_entries-IsCoherent :
      (db : Db) → IsCoherent db → Leaves IsCoherent (list_entries server cx db)
  unfolding list_entries
  list_entries-IsCoherent db h =
      Leaves-bind _ _ (with_session-IsCoherent db h) λ id d k. Leaves-end _ _ k

  pub entry_challenge-IsCoherent :
      (id nonce : String) (db : Db)
      → IsCoherent db
      → Leaves IsCoherent (entry_challenge server cx id nonce db)
  unfolding entry_challenge
  entry_challenge-IsCoherent id nonce db h =
      Leaves-bind _ _ (with_session-IsCoherent db h)
        λ session_id d k. create_login_challenge-IsCoherent d k key_write id nonce cx.now

  apply_order-IsCoherent :
      (session_id : String) (ids : List String)
      → Keeps IsCoherent (apply_order server cx session_id ids)
  unfolding apply_order
  apply_order-IsCoherent session_id ids = Keeps-commit IsCoherent _ λ db h.
      Ensures-bind (λ _ d. IsCoherent d) _ _ (allowed session_id cx.now db h)
        λ _ d k.
          Ensures-bind (λ _ d. IsCoherent d) _ _ (reorder_key_entries-IsCoherent ids d k)
            λ entries d' k'. Ensures-ok _ _ _ k'

  pub order_entries-IsCoherent :
      (ids : List String) (db : Db)
      → IsCoherent db
      → Leaves IsCoherent (order_entries server cx ids db)
  unfolding order_entries
  order_entries-IsCoherent ids db h =
      Leaves-bind _ _ (with_session-IsCoherent db h) λ session_id d k.
        Leaves-bind _ _ (require_key_write_proof-IsCoherent _ cx.headers _ cx.now d k) λ _ d' k'.
          Leaves-bind _ _ (validate_key_entry_ids-IsCoherent _ ids d' k')
            λ _ d'' k''. record { at = (apply_order-IsCoherent session_id ids).at d'' k'' }

  apply_use-IsCoherent :
      (id : String) (action : ActivityAction) → Keeps IsCoherent (apply_use server cx id action)
  unfolding apply_use
  apply_use-IsCoherent id action = Keeps-commit IsCoherent _ λ db h.
      Ensures-bind (λ _ d. IsCoherent d) _ _ (mark_key_entry_used-IsCoherent id cx.occurred_at db h)
        λ found d k. Ensures-require found _ d _ λ updated some_found.
          Ensures-bind (λ _ d. IsCoherent d) _ _
            (record_activity_event-IsCoherent cx.event_id id action cx.occurred_at d k)
            λ _ d' k'. Ensures-ok _ _ _ k'

  pub use_entry-IsCoherent :
      (id : String) (action : ActivityAction) (db : Db)
      → IsCoherent db
      → Leaves IsCoherent (use_entry server cx id action db)
  unfolding use_entry validate_key_entry_id
  use_entry-IsCoherent id action db h =
      Leaves-bind _ _ (with_session-IsCoherent db h) λ session_id d k.
        Leaves-throw_if _ _ d _ k λ valid. record { at = (apply_use-IsCoherent id action).at d k }

  apply_delete-IsCoherent :
      (session_id id : String) (key_version : ℕ)
      → Keeps IsCoherent (apply_delete server cx session_id id key_version)
  unfolding apply_delete
  apply_delete-IsCoherent session_id id key_version = Keeps-commit IsCoherent _ λ db h.
      Ensures-bind (λ _ d. IsCoherent d) _ _ (allowed session_id cx.now db h)
        λ _ d k. Ensures-require _ _ d _ λ existing found.
          Ensures-bind (λ _ d. IsCoherent d) _ _
            (record_activity_event-IsCoherent cx.event_id id _ cx.occurred_at d k)
            λ _ d' k'.
              Ensures-bind (λ _ d. IsCoherent d) _ _
                (delete_key_entry-IsCoherent id key_version d' k')
                λ gone d'' k''. Ensures-ok _ _ _ k''

  pub delete_entry-IsCoherent :
      (id : String) (key_version : ℕ) (db : Db)
      → IsCoherent db
      → Leaves IsCoherent (delete_entry server cx id key_version db)
  unfolding delete_entry validate_key_entry_id
  delete_entry-IsCoherent id key_version db h =
      Leaves-bind _ _ (with_session-IsCoherent db h) λ session_id d k.
        Leaves-throw_if _ _ d _ k λ valid.
          Leaves-bind _ _ (require_key_write_proof-IsCoherent _ cx.headers _ cx.now d k)
            λ _ d' k'. record { at = (apply_delete-IsCoherent session_id id key_version).at d' k' }

-- ===== src/Routes/Writes.antt =====
-- The transactions of apps/api/src/routes/key-entries.ts that write entry fields, after the checks
-- and the normalisation of the body: POST /, POST /import and PATCH /:id.
use key_page.Prelude.{ℕ, suc, String, Bool, true, false, List, [], ◌∷◌}
use key_page.Http.{HttpError, invalid_request, constraint_primary_key}
use key_page.Tables.{contains}
use key_page.Db.Rows.{Db, KeyEntryRow, created, edited}
use key_page.Db.Action.{Result, ok, err, Action, pure, read, require, transaction, ◌>>=◌, ◌>>◌}
use key_page.Keys.Repo.{
  InsertInput, UpdateInput, insert_key_entry, update_key_entry, list_key_entry_ids,
  record_activity_event,
}
use key_page.Auth.Vault.{assert_mutations_allowed}
use key_page.Routes.Entries.{unknown_entry}

-- the `catch` of POST /, for isDuplicateIdError
unfoldable pub duplicate_id : HttpError → HttpError
duplicate_id constraint_primary_key =
    invalid_request "Duplicate key entry id"
      (record { field = "id"; message = "already exists" } ∷ [])
duplicate_id e = e

unfoldable pub catch_duplicate : {A : Type 0} → Result A × Db → Result A × Db
catch_duplicate (err e, db) = (err (duplicate_id e), db)
catch_duplicate (ok a, db) = (ok a, db)

-- ImportResult
pub record Imported : Type 0 where
  pub imported : ℕ
  pub skipped_ids : List String

abbrev skip : String → Imported → Imported
skip id r = record r { skipped_ids = id ∷ r.skipped_ids }

abbrev add_one : Imported → Imported
add_one r = record r { imported = suc r.imported }

module _ (session_id : String) (now : ℕ) (occurred_at : String) where
  -- an entry and the event of its creation
  unfoldable pub insert_recorded : InsertInput → (event_id : String) → Action KeyEntryRow
  insert_recorded input event_id = do
    entry ← insert_key_entry input occurred_at
    record_activity_event event_id entry.id created occurred_at
    pure entry

  -- the transaction of POST /
  unfoldable pub create_entry : InsertInput → (event_id : String) → Action KeyEntryRow
  create_entry input event_id =
      transaction (do assert_mutations_allowed session_id now; insert_recorded input event_id)

  -- POST /
  unfoldable pub apply_create : InsertInput → (event_id : String) → Action KeyEntryRow
  apply_create input event_id db = catch_duplicate (create_entry input event_id db)

  -- the body of the loop of POST /import, with the rest of the loop
  unfoldable pub import_entry :
      (present : Bool)
      → InsertInput
      → (event_id : String) → (rest : List String → Action Imported) → List String
      → Action Imported
  import_entry true input event_id rest ids = do r ← rest ids; pure (skip input.id r)
  import_entry false input event_id rest ids = do
    entry ← insert_recorded input event_id
    r ← rest (entry.id ∷ ids)
    pure (add_one r)

  -- the loop over the entries, with the ids that are there so far; `event_id n` is the id that the
  -- n-th event draws
  unfoldable pub import_entries :
      List InsertInput → (event_id : ℕ → String) → ℕ → List String → Action Imported
  import_entries [] event_id n ids = pure (record { imported = 0; skipped_ids = [] })
  import_entries (input ∷ inputs) event_id n ids =
      import_entry (contains input.id ids) input (event_id n)
        (import_entries inputs event_id (suc n)) ids

  -- POST /import
  unfoldable pub apply_import : List InsertInput → (event_id : ℕ → String) → Action Imported
  apply_import inputs event_id = transaction (do
    assert_mutations_allowed session_id now
    ids ← read list_key_entry_ids
    import_entries inputs event_id 0 ids)

  -- PATCH /:id
  unfoldable pub apply_update : UpdateInput → (event_id : String) → Action KeyEntryRow
  apply_update input event_id = transaction (do
    assert_mutations_allowed session_id now
    found ← update_key_entry input
    updated ← require found unknown_entry
    record_activity_event event_id input.id edited occurred_at
    pure updated)

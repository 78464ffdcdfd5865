-- ===== src/Integrity/Bodies.antt =====
-- The handlers of apps/api/src/routes/key-entries.ts that take entry fields keep the vault coherent.
use key_page.Prelude.{ℕ, String, List}
use key_page.Db.Rows.{Db}
use key_page.Db.Leaves.{Leaves, Leaves-bind, Leaves-throw_if}
use key_page.Routes.Request.{validate_key_entry_id}
use key_page.Routes.Login.{Server}
use key_page.Routes.Entries.{Context}
use key_page.Routes.Bodies.{CreateBody, ImportItem, UpdateBody, create_one, import_all, edit_entry}
use key_page.Routes.Checks.{
  validate_create-Leaves, validate_import_entries-Leaves, validate_update-Leaves,
}
use key_page.Integrity.{IsCoherent}
use key_page.Integrity.Writes.{
  apply_create-IsCoherent, apply_import-IsCoherent, apply_update-IsCoherent,
  with_session-IsCoherent, require_key_write_proof-IsCoherent,
}

module _ (server : Server) (cx : Context) where
  pub create_one-IsCoherent :
      (body : CreateBody) (db : Db)
      → IsCoherent db
      → Leaves IsCoherent (create_one server cx body db)
  unfolding create_one
  create_one-IsCoherent body db h =
      Leaves-bind _ _ (with_session-IsCoherent server cx db h) λ session_id d k.
        Leaves-bind _ _ (require_key_write_proof-IsCoherent _ cx.headers _ cx.now d k) λ _ d1 k1.
          Leaves-bind _ _ (validate_create-Leaves _ body d1 k1) λ input d2 k2. record {
            at =
                (apply_create-IsCoherent session_id cx.now cx.occurred_at input cx.event_id).at d2
                  k2;
          }

  pub import_all-IsCoherent :
      (items : List ImportItem) (event_id : ℕ → String) (db : Db)
      → IsCoherent db
      → Leaves IsCoherent (import_all server cx items event_id db)
  unfolding import_all
  import_all-IsCoherent items event_id db h =
      Leaves-bind _ _ (with_session-IsCoherent server cx db h) λ session_id d k.
        Leaves-bind _ _ (require_key_write_proof-IsCoherent _ cx.headers _ cx.now d k) λ _ d1 k1.
          Leaves-bind _ _ (validate_import_entries-Leaves _ items 0 d1 k1) λ inputs d2 k2. record {
            at =
                (apply_import-IsCoherent session_id cx.now cx.occurred_at inputs event_id).at d2 k2;
          }

  pub edit_entry-IsCoherent :
      (id : String) (body : UpdateBody) (db : Db)
      → IsCoherent db
      → Leaves IsCoherent (edit_entry server cx id body db)
  unfolding edit_entry validate_key_entry_id
  edit_entry-IsCoherent id body db h =
      Leaves-bind _ _ (with_session-IsCoherent server cx db h) λ session_id d k.
        Leaves-throw_if _ _ d _ k λ uuid.
          Leaves-bind _ _ (require_key_write_proof-IsCoherent _ cx.headers _ cx.now d k) λ _ d1 k1.
            Leaves-bind _ _ (validate_update-Leaves _ id body cx.occurred_at d1 k1) λ input d2 k2.
              record {
                at =
                    (apply_update-IsCoherent session_id cx.now cx.occurred_at input cx.event_id).at
                      d2 k2;
              }

-- ===== src/Routes/Bodies.antt =====
-- The handlers of apps/api/src/routes/key-entries.ts that take entry fields: POST /, POST /import
-- and PATCH /:id, each with its `requireSession`, from the body to the transaction.
use key_page.Prelude.{ℕ, suc, String, Option, none, some, List, [], ◌∷◌}
use key_page.Db.Rows.{KeyEntryRow}
use key_page.Db.Action.{Action, pure, ◌>>=◌, ◌>>◌}
use key_page.Keys.Repo.{CipherInput, InsertInput, UpdateInput, end}
use key_page.Shared.Fields.{FieldsInput, Fields}
use key_page.Shared.Proof.{◌+++◌}
use key_page.Routes.Request.{Platform, validate_key_entry_id}
use key_page.Routes.Proof.{require_key_write_proof}
use key_page.Routes.Login.{Server}
use key_page.Routes.Entries.{Context, with_session}
use key_page.Routes.Writes.{Imported, apply_create, apply_import, apply_update}
use key_page.Routes.Validate.{
  validate_cipher_input, normalize_key_entry_write_fields, normalize_import_timestamp,
  with_entry_field_prefix,
}

-- KeyEntryCreateRequest
pub record CreateBody : Type 0 where
  pub id : String
  pub fields : FieldsInput
  pub cipher : CipherInput

-- KeyEntryImportItem, where a null time is one that is not there
pub record ImportItem : Type 0 where
  pub id : String
  pub fields : FieldsInput
  pub cipher : CipherInput
  pub created_at : Option String
  pub updated_at : Option String
  pub last_used_at : Option String

-- KeyEntryUpdateRequest
pub record UpdateBody : Type 0 where
  pub key_version : ℕ
  pub fields : FieldsInput
  pub cipher : Option CipherInput

unfoldable pub create_input : CreateBody → Fields → InsertInput
create_input body fields = record {
  id = body.id;
  label = fields.label;
  service_id = fields.service_id;
  custom_service_name = fields.custom_service_name;
  description = fields.description;
  tags = fields.tags;
  cipher = body.cipher;
  created_at = none;
  updated_at = none;
  last_used_at = none;
  place = none;
}

unfoldable pub import_input :
    ImportItem → Fields → (created_at updated_at last_used_at : Option String) → InsertInput
import_input item fields created_at updated_at last_used_at = record {
  id = item.id;
  label = fields.label;
  service_id = fields.service_id;
  custom_service_name = fields.custom_service_name;
  description = fields.description;
  tags = fields.tags;
  cipher = item.cipher;
  created_at = created_at;
  updated_at = updated_at;
  last_used_at = last_used_at;
  place = some end;
}

unfoldable pub update_input : String → UpdateBody → Fields → String → UpdateInput
update_input id body fields occurred_at = record {
  id = id;
  key_version = body.key_version;
  label = fields.label;
  service_id = fields.service_id;
  custom_service_name = fields.custom_service_name;
  description = fields.description;
  tags = fields.tags;
  cipher = body.cipher;
  updated_at = occurred_at;
}

module _ (p : Platform) where
  -- the checks of POST /, after its proof
  unfoldable pub validate_create : CreateBody → Action InsertInput
  validate_create body = do
    validate_key_entry_id p body.id
    fields ← normalize_key_entry_write_fields p body.fields
    validate_cipher_input p body.cipher
    pure (create_input body fields)

  -- the function that validateImportEntry prefixes
  unfoldable pub validate_import_item : ImportItem → Action InsertInput
  validate_import_item item = do
    validate_key_entry_id p item.id
    fields ← normalize_key_entry_write_fields p item.fields
    validate_cipher_input p item.cipher
    created_at ← normalize_import_timestamp p item.created_at "createdAt"
    updated_at ← normalize_import_timestamp p item.updated_at "updatedAt"
    last_used_at ← normalize_import_timestamp p item.last_used_at "lastUsedAt"
    pure (import_input item fields created_at updated_at last_used_at)

  -- validateImportEntry
  unfoldable pub validate_import_entry : ImportItem → ℕ → Action InsertInput
  validate_import_entry item index = with_entry_field_prefix p index (validate_import_item item)

  -- `body.entries.map(…)`
  unfoldable pub validate_import_entries : List ImportItem → ℕ → Action (List InsertInput)
  validate_import_entries [] index = pure []
  validate_import_entries (item ∷ items) index = do
    input ← validate_import_entry item index
    inputs ← validate_import_entries items (suc index)
    pure (input ∷ inputs)

  unfoldable pub validate_cipher : Option CipherInput → Action (Unit {0})
  validate_cipher none = pure tt
  validate_cipher (some cipher) = validate_cipher_input p cipher

  -- the checks of PATCH /:id, after its proof
  unfoldable pub validate_update : String → UpdateBody → String → Action UpdateInput
  validate_update id body occurred_at = do
    fields ← normalize_key_entry_write_fields p body.fields
    validate_cipher body.cipher
    pure (update_input id body fields occurred_at)

module _ (server : Server) (cx : Context) where
  -- POST /
  unfoldable pub create_one : CreateBody → Action KeyEntryRow
  create_one body = do
    session_id ← with_session server cx
    require_key_write_proof server.platform cx.headers "/api/keys" cx.now
    input ← validate_create server.platform body
    apply_create session_id cx.now cx.occurred_at input cx.event_id

  -- POST /import; `event_id n` is the id that the n-th event draws
  unfoldable pub import_all : List ImportItem → (event_id : ℕ → String) → Action Imported
  import_all items event_id = do
    session_id ← with_session server cx
    require_key_write_proof server.platform cx.headers "/api/keys/import" cx.now
    inputs ← validate_import_entries server.platform items 0
    apply_import session_id cx.now cx.occurred_at inputs event_id

  -- PATCH /:id
  unfoldable pub edit_entry : String → UpdateBody → Action KeyEntryRow
  edit_entry id body = do
    session_id ← with_session server cx
    validate_key_entry_id server.platform id
    require_key_write_proof server.platform cx.headers ("/api/keys/" +++ id) cx.now
    input ← validate_update server.platform id body cx.occurred_at
    apply_update session_id cx.now cx.occurred_at input cx.event_id

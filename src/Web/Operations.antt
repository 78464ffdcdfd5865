-- ===== src/Web/Operations.antt =====
-- apps/web/src/vault/keyEntryOperations.ts with key-version-pin.ts: what the browser sends to the
-- server for an unlocked vault. The requests, the ciphers and the clipboard are parameters; an
-- operation that is refused because of the key version locks the browser.
pub mod Agree
use key_page.Prelude.{
  ℕ, ◌+◌, ◌-◌, ◌/◌, String, Bool, true, false, not, Option, none, some, List, [], ◌∷◌, ◌==◌, ◌=ℕ◌,
  length, if◌then◌else◌,
}
use key_page.Tables.{select, contains}
use key_page.Db.Rows.{KeyEntryRow, CipherPayload}
use key_page.Keys.Repo.{CipherInput}
use key_page.Shared.Text.{TextOps}
use key_page.Shared.Fields.{
  Issue, Checked, valid, invalid, FieldsInput, Fields, normalize_fields, normalize_description,
  resolve_service_for_import,
}
use key_page.Routes.Bodies.{CreateBody, ImportItem, UpdateBody}
use key_page.Routes.Writes.{Imported}

-- why an operation throws; `api` says whether the code is `key_version_mismatch`
pub data Failure : Type 0 where
  session_expired broken_cipher : Failure
  bad_fields : String → List Issue → Failure
  api : (mismatch : Bool) → Failure

pub data Try (A : Type 0) : Type 0 where
  done : A → Try A
  failed : Failure → Try A

unfoldable pub then_try : {A B : Type 0} → Try A → (A → Try B) → Try B
then_try (done a) rest = rest a
then_try (failed e) rest = failed e

-- KeyEntryOperationsPorts, with what the pin reads
pub record Ports : Type 0 where
  pub text : TextOps
  pub version : Option ℕ
  pub key : Option ℕ
  pub new_key_entry_id : String
  pub encrypt_payload : (key : ℕ) → (id plaintext : String) → Option CipherPayload
  pub decrypt_key_value : KeyEntryRow → Option String
  pub post_key_entry : CreateBody → Try KeyEntryRow
  pub patch_key_entry : String → UpdateBody → Try KeyEntryRow
  pub delete_key_entry : String → ℕ → Try (Unit {0})
  pub post_key_entry_use : String → (copied : Bool) → Try KeyEntryRow
  pub post_key_entry_import : List ImportItem → Try Imported
  -- the reason of a ClipboardWriteError, if the clipboard refuses
  pub copy_text : String → (clear_ms : ℕ) → Option String

-- NewKeyEntryInput
pub record NewKeyEntry : Type 0 where
  pub fields : FieldsInput
  pub key_value : String

-- EditKeyEntryInput
pub record EditKeyEntry : Type 0 where
  pub fields : FieldsInput
  pub key_value : Option String

-- BackupEntry of packages/shared/src/backup.ts
pub record BackupEntry : Type 0 where
  pub id : String
  pub label : String
  pub service_id : String
  pub custom_service_name : Option String
  pub description : Option String
  pub tags : List String
  pub key_value : String
  pub created_at : String
  pub updated_at : String
  pub last_used_at : Option String

-- RevealSecretResult
pub data Revealed : Type 0 where
  reveal_failed : Revealed
  revealed : String → (last_used_at : Option String) → Revealed
  revealed_only : String → Revealed

-- CopySecretResult
pub data Copied : Type 0 where
  copy_failed : Copied
  clipboard_refused : String → Copied
  copied : (clear_seconds : ℕ) → (last_used_at : Option String) → Copied
  copied_only : (clear_seconds : ℕ) → Copied

-- ImportKeyEntriesResult
pub record ImportedEntries : Type 0 where
  pub result : Imported
  pub client_skipped : ℕ

unfoldable pub of_checked : {A : Type 0} → Checked A → Try A
of_checked (valid a) = done a
of_checked (invalid message issues) = failed (bad_fields message issues)

-- the body of a request has the fields that are not null
abbrev pub sent : Fields → FieldsInput
sent f = record {
  label = f.label;
  service_id = f.service_id;
  custom_service_name = f.custom_service_name;
  description = f.description;
  tags = f.tags;
}

-- guardWrite: the result, and whether `lockLocal("rekeyed")` was called
unfoldable pub guard_write : {A : Type 0} → Try A → Try A × Bool
guard_write (done a) = (done a, false)
guard_write (failed (api mismatch)) = (failed (api mismatch), mismatch)
guard_write (failed session_expired) = (failed session_expired, false)
guard_write (failed broken_cipher) = (failed broken_cipher, false)
guard_write (failed (bad_fields m is)) = (failed (bad_fields m is), false)

-- a throw before the request, which no guard sees
unfoldable pub guarded : {A B : Type 0} → Try A → (A → Try B) → Try B × Bool
guarded (done a) request = guard_write (request a)
guarded (failed e) request = (failed e, false)

unfoldable pub last_used : Try KeyEntryRow → Option (Option String)
last_used (done e) = some e.last_used_at
last_used (failed e) = none

unfoldable pub or_expired : {A : Type 0} → Option A → Try A
or_expired none = failed session_expired
or_expired (some a) = done a

unfoldable pub stamp : ℕ → Option CipherPayload → Try CipherInput
stamp version none = failed broken_cipher
stamp version (some payload) = done (record { payload = payload; key_version = version })

unfoldable pub reveal_used : String → Option (Option String) → Revealed
reveal_used value none = revealed_only value
reveal_used value (some used) = revealed value used

unfoldable pub copy_used : ℕ → Option (Option String) → Copied
copy_used seconds none = copied_only seconds
copy_used seconds (some used) = copied seconds used

module _ (ports : Ports) where
  -- requireForWrite
  unfoldable pub require_for_write : Try ℕ
  require_for_write = or_expired ports.version

  -- encryptKeyValue
  unfoldable pub encrypt_key_value : (id key_value : String) → Try CipherInput
  encrypt_key_value id key_value = then_try require_for_write λ version.
      then_try (or_expired ports.key) λ key. stamp version (ports.encrypt_payload key id key_value)

  -- writeFieldsFromInput
  unfoldable pub write_fields_from_input : FieldsInput → Try FieldsInput
  write_fields_from_input input =
      then_try (of_checked (normalize_fields ports.text input)) λ fields. done (sent fields)

  -- the body that create sends
  unfoldable pub create_body : NewKeyEntry → Try CreateBody
  create_body input = then_try (write_fields_from_input input.fields) λ fields.
      then_try (encrypt_key_value ports.new_key_entry_id input.key_value)
        λ cipher. done (record { id = ports.new_key_entry_id; fields = fields; cipher = cipher })

  -- create
  unfoldable pub create : NewKeyEntry → Try KeyEntryRow × Bool
  create input = guarded (create_body input) ports.post_key_entry

  unfoldable pub new_cipher : String → Option String → Try (Option CipherInput)
  new_cipher id none = done none
  new_cipher id (some value) =
      if value == ""
      then done none
      else then_try (encrypt_key_value id value) (λ cipher. done (some cipher))

  -- the body that update sends
  unfoldable pub update_body : String → EditKeyEntry → Try UpdateBody
  update_body id input = then_try require_for_write λ version.
      then_try (write_fields_from_input input.fields) λ fields.
        then_try (new_cipher id input.key_value)
          λ cipher. done (record { key_version = version; fields = fields; cipher = cipher })

  -- update
  unfoldable pub edit : String → EditKeyEntry → Try KeyEntryRow × Bool
  edit id input = guarded (update_body id input) (ports.patch_key_entry id)

  -- remove
  unfoldable pub remove : String → Try (Unit {0}) × Bool
  remove id = guarded require_for_write (ports.delete_key_entry id)

  -- revealSecret
  unfoldable pub reveal_secret : KeyEntryRow → Revealed
  reveal_secret entry = elim (ports.decrypt_key_value entry) [
    | none ↦ reveal_failed
    | some value ↦ reveal_used value (last_used (ports.post_key_entry_use entry.id false))
  ]

  -- the clipboard, then the activity; `Math.round(clipboardClearMs / 1000)`
  unfoldable pub copy_value : KeyEntryRow → ℕ → Option String → Copied
  copy_value entry clear_ms none = copy_failed
  copy_value entry clear_ms (some value) = elim (ports.copy_text value clear_ms) [
    | some reason ↦ clipboard_refused reason
    | none ↦
        copy_used ((clear_ms + 500) / 1000) (last_used (ports.post_key_entry_use entry.id true))
  ]

  -- copySecret, with the value that the page has revealed
  unfoldable pub copy_secret : KeyEntryRow → (revealed : Option String) → ℕ → Copied
  copy_secret entry none clear_ms = copy_value entry clear_ms (ports.decrypt_key_value entry)
  copy_secret entry (some value) clear_ms =
      if value == ""
      then copy_value entry clear_ms (ports.decrypt_key_value entry)
      else copy_value entry clear_ms (some value)

  -- the fields of an entry of a backup, with its service resolved
  unfoldable pub import_fields : BackupEntry → Try FieldsInput
  import_fields entry =
      then_try (of_checked (normalize_description ports.text entry.description)) λ description.
        let service =
          resolve_service_for_import ports.text entry.service_id entry.custom_service_name in
        write_fields_from_input (record {
          label = entry.label;
          service_id = service.0;
          custom_service_name = service.1;
          description = description;
          tags = entry.tags;
        })

  -- the body of the loop of importEntries
  unfoldable pub import_item : BackupEntry → Try ImportItem
  import_item entry = then_try (import_fields entry) λ fields.
      then_try (encrypt_key_value entry.id entry.key_value) λ cipher. done (record {
        id = entry.id;
        fields = fields;
        cipher = cipher;
        created_at = some entry.created_at;
        updated_at = some entry.updated_at;
        last_used_at = entry.last_used_at;
      })

  unfoldable pub import_items : List BackupEntry → Try (List ImportItem)
  import_items [] = done []
  import_items (entry ∷ entries) =
      then_try (import_item entry)
        λ item. then_try (import_items entries) λ items. done (item ∷ items)

  unfoldable pub post_items : List BackupEntry → Try Imported × Bool
  post_items [] = (done (record { imported = 0; skipped_ids = [] }), false)
  post_items (entry ∷ entries) =
      guarded (import_items (entry ∷ entries)) ports.post_key_entry_import

  -- importEntries, with the ids that the vault has
  unfoldable pub import_entries_of :
      List BackupEntry → (existing : List String) → Try ImportedEntries × Bool
  import_entries_of entries existing =
      let candidates = select (λ e. not (contains e.id existing)) entries in
      let (result, locked) = post_items candidates in
      (
        then_try result (λ r.
            done (record { result = r; client_skipped = length entries - length candidates })),
        locked,
      )

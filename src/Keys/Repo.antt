-- ===== src/Keys/Repo.antt =====
-- apps/api/src/keys/key-entry-repo.ts and activity-repo.ts: every statement that writes the table
-- `key_entries`, and the check of the key version beside it.
pub mod Rekey
pub mod Reorder
use key_page.Prelude.{
  ℕ, zero, suc, ◌+◌, String, Bool, not, ◌||◌, Option, none, some, List, [], ◌∷◌, map, ◌=ℕ◌, ◌==◌,
  length, or_else,
}
use key_page.Http.{invalid_request, setup_required, key_version_mismatch, constraint_primary_key}
use key_page.Tables.{find, update, delete, count, any, contains, distinct}
use key_page.Db.Rows.{Db, VaultAuthRow, KeyEntryRow, CipherPayload, ActivityAction, ℤ, pos}
use key_page.Db.Action.{Action, pure, read, write, throw_if, require, ◌>>=◌, ◌>>◌}
use key_page.Keys.Order.{sucℤ, predℤ, min_order, max_order, sort_rows}

-- getVaultAuth, of apps/api/src/auth/vault-repo.ts
abbrev pub get_vault_auth : Action (Option VaultAuthRow)
get_vault_auth = read (λ db. db.vault_auth)

-- KeyEntryCipherInput
pub record CipherInput : Type 0 where
  pub payload : CipherPayload
  pub key_version : ℕ

-- assertCipherKeyVersion
unfoldable pub assert_cipher_key_version : ℕ → CipherInput → Action (Unit {0})
assert_cipher_key_version vault_key_version cipher =
    throw_if (not (cipher.key_version =ℕ vault_key_version))
      (key_version_mismatch "cipher.keyVersion" vault_key_version cipher.key_version)

-- assertClientKeyVersion
unfoldable pub assert_client_key_version : ℕ → String → Action (Unit {0})
assert_client_key_version declared field = do
  found ← get_vault_auth
  vault ← require found setup_required
  throw_if (not (declared =ℕ vault.key_version))
      (key_version_mismatch field vault.key_version declared)

-- listKeyEntries; a row stands for the KeyEntry that rowToKeyEntry makes of it
unfoldable pub list_key_entries : Db → List KeyEntryRow
list_key_entries db = sort_rows db.key_entries

-- listKeyEntryIds
unfoldable pub list_key_entry_ids : Db → List String
list_key_entry_ids db = map (λ e. e.id) db.key_entries

-- listKeyEntryCipherIvs: the entry's iv in the map
unfoldable pub cipher_iv_of : String → Db → Option String
cipher_iv_of id db = elim (find (λ e. e.id == id) db.key_entries) [
  | none ↦ none
  | some e ↦ some e.cipher.iv_b64
]

-- getKeyEntry
unfoldable pub get_key_entry : String → Db → Option KeyEntryRow
get_key_entry id db = find (λ e. e.id == id) db.key_entries

-- markKeyEntryUsed; an UPDATE that changes no row is one whose id no row has, so the read after it
-- gives the `null` of the source
unfoldable pub mark_key_entry_used : String → String → Action (Option KeyEntryRow)
unfolding get_key_entry
mark_key_entry_used id used_at = do
  write (λ db. record db {
    key_entries =
        update (λ e. e.id == id) (λ e. record e { last_used_at = some used_at }) db.key_entries;
  })
  read (get_key_entry id)

pub data Place : Type 0 where
  start end : Place

-- InsertKeyEntryInput
pub record InsertInput : Type 0 where
  pub id : String
  pub label : String
  pub service_id : String
  pub custom_service_name : Option String
  pub description : Option String
  pub tags : List String
  pub cipher : CipherInput
  pub created_at : Option String
  pub updated_at : Option String
  pub last_used_at : Option String
  pub place : Option Place

next_to : Place → Option ℤ → ℤ
next_to place none = pos zero
next_to start (some value) = predℤ value
next_to end (some value) = sucℤ value

-- nextSortOrder
unfoldable pub next_sort_order : Place → List KeyEntryRow → ℤ
unfolding next_to
next_sort_order start rows = next_to start (min_order rows)
next_sort_order end rows = next_to end (max_order rows)

unfoldable pub insert_row_of : InsertInput → String → ℤ → KeyEntryRow
insert_row_of input now sort_order = record {
  id = input.id;
  label = input.label;
  service_id = input.service_id;
  custom_service_name = input.custom_service_name;
  description = input.description;
  tags = input.tags;
  cipher = input.cipher.payload;
  key_version = input.cipher.key_version;
  created_at = or_else input.created_at now;
  updated_at = or_else input.updated_at now;
  last_used_at = input.last_used_at;
  sort_order = sort_order;
}

-- insertKeyEntry: `id` is the primary key
unfoldable pub insert_key_entry : InsertInput → String → Action KeyEntryRow
insert_key_entry input now = do
  found ← get_vault_auth
  vault ← require found setup_required
  assert_cipher_key_version vault.key_version input.cipher
  sort_order ← read (λ db. next_sort_order (or_else input.place start) db.key_entries)
  taken ← read (λ db. any (λ e. e.id == input.id) db.key_entries)
  throw_if taken constraint_primary_key
  let row = insert_row_of input now sort_order
  write (λ db. record db { key_entries = row ∷ db.key_entries })
  pure row

-- UpdateKeyEntryInput
pub record UpdateInput : Type 0 where
  pub id : String
  pub key_version : ℕ
  pub label : String
  pub service_id : String
  pub custom_service_name : Option String
  pub description : Option String
  pub tags : List String
  pub cipher : Option CipherInput
  pub updated_at : String

-- the assignments of the UPDATE statement
unfoldable pub set_cipher : Option CipherInput → KeyEntryRow → KeyEntryRow
set_cipher none e = e
set_cipher (some c) e = record e { cipher = c.payload; key_version = c.key_version }

unfoldable pub set_fields : UpdateInput → KeyEntryRow → KeyEntryRow
unfolding set_cipher
set_fields input e = set_cipher input.cipher (record e {
  label = input.label;
  service_id = input.service_id;
  custom_service_name = input.custom_service_name;
  description = input.description;
  tags = input.tags;
  updated_at = input.updated_at;
})

unfoldable pub check_cipher : Option CipherInput → Action (Unit {0})
unfolding assert_cipher_key_version
check_cipher none = pure tt
check_cipher (some c) = do
  found ← get_vault_auth
  vault ← require found setup_required
  assert_cipher_key_version vault.key_version c

-- updateKeyEntry; `null` as in markKeyEntryUsed
unfoldable pub update_key_entry : UpdateInput → Action (Option KeyEntryRow)
unfolding check_cipher
update_key_entry input = do
  assert_client_key_version input.key_version "keyVersion"
  check_cipher input.cipher
  write (λ db. record db {
    key_entries = update (λ e. e.id == input.id) (set_fields input) db.key_entries;
  })
  read (get_key_entry input.id)

-- deleteKeyEntry
unfoldable pub delete_key_entry : String → ℕ → Action Bool
delete_key_entry id key_version = do
  assert_client_key_version key_version "keyVersion"
  present ← read (λ db. any (λ e. e.id == id) db.key_entries)
  write (λ db. record db { key_entries = delete (λ e. e.id == id) db.key_entries })
  pure present

-- ReencryptedEntryInput
pub record ReencryptedEntry : Type 0 where
  pub id : String
  pub base_iv_b64 : String
  pub cipher : CipherPayload

unfoldable pub set_rotated : ReencryptedEntry → ℕ → KeyEntryRow → KeyEntryRow
set_rotated entry key_version e = record e { cipher = entry.cipher; key_version = key_version }

-- replaceKeyEntryCiphers: the loop over the table, and the rows that it changed
unfoldable pub replace_ciphers : List ReencryptedEntry → ℕ → List KeyEntryRow → List KeyEntryRow
unfolding set_rotated
replace_ciphers [] key_version rows = rows
replace_ciphers (entry ∷ entries) key_version rows =
    replace_ciphers entries key_version
      (update (λ e. e.id == entry.id) (set_rotated entry key_version) rows)

unfoldable pub replaced : List ReencryptedEntry → List KeyEntryRow → ℕ
replaced [] rows = 0
replaced (entry ∷ entries) rows = count (λ e. e.id == entry.id) rows + replaced entries rows

unfoldable pub replace_key_entry_ciphers : List ReencryptedEntry → ℕ → Action ℕ
replace_key_entry_ciphers entries key_version = do
  updated ← read (λ db. replaced entries db.key_entries)
  write (λ db. record db { key_entries = replace_ciphers entries key_version db.key_entries })
  pure updated

-- the loop of reorderKeyEntries
unfoldable pub set_orders : List String → ℕ → List KeyEntryRow → List KeyEntryRow
set_orders [] index rows = rows
set_orders (id ∷ ids) index rows =
    set_orders ids (suc index)
      (update (λ e. e.id == id) (λ e. record e { sort_order = pos index }) rows)

-- the ids are those of the vault, each once
unfoldable pub is_permutation : List String → List String → Bool
is_permutation ids existing = not (
    not (distinct ids)
    || not (length ids =ℕ length existing)
    || any (λ id. not (contains id existing)) ids)

-- reorderKeyEntries
unfoldable pub reorder_key_entries : List String → Action (List KeyEntryRow)
reorder_key_entries ordered_ids = do
  existing ← read list_key_entry_ids
  throw_if (not (is_permutation ordered_ids existing)) (
      invalid_request "Invalid key entry order"
        (record { field = "orderedIds"; message = "must be a permutation of the vault" } ∷ []))
  write (λ db. record db { key_entries = set_orders ordered_ids 0 db.key_entries })
  read list_key_entries

-- recordActivityEvent, with the id that it draws
unfoldable pub record_activity_event :
    (id key_entry_id : String) → ActivityAction → String → Action (Unit {0})
record_activity_event id key_entry_id action occurred_at = do
  taken ← read (λ db. any (λ v. v.id == id) db.activity_events)
  throw_if taken constraint_primary_key
  write (λ db. record db {
    activity_events =
        record { id = id; key_entry_id = key_entry_id; action = action; occurred_at = occurred_at }
        ∷ db.activity_events;
  })

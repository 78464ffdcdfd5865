-- ===== src/Integrity/Entries.antt =====
-- The writes of apps/api/src/keys keep the vault coherent.
use key_page.Prelude.{
  ℕ, suc, ◌≡◌, refl, String, Bool, Option, none, some, List, [], ◌∷◌, arith, ◌==◌,
}
use key_page.Tables.{All, update, delete, distinct}
use key_page.Tables.Laws.{update-All, delete-All, map-update, any-contains, distinct-delete}
use key_page.Db.Rows.{Db, VaultAuthRow, KeyEntryRow, RecoveryCodeRow, ActivityAction, pos}
use key_page.Db.Action.{Result}
use key_page.Db.Ensures.{
  Ensures, Ensures-ok, Ensures-bind, Ensures-check, Ensures-throw_if, Ensures-require,
}
use key_page.Keys.Repo.{
  CipherInput, set_cipher, InsertInput, insert_row_of, insert_key_entry, assert_cipher_key_version,
  assert_client_key_version, UpdateInput, set_fields, update_key_entry, check_cipher,
  delete_key_entry, mark_key_entry_used, set_orders, reorder_key_entries, record_activity_event,
}
use key_page.Integrity.{Labelled, IsCoherent}

Labelled-rows :
    (o : Option VaultAuthRow) (old rows : List KeyEntryRow) (codes : List RecoveryCodeRow)
    → Labelled o old codes
    → ((n : ℕ) → All (λ e. e.key_version ≡ n) old → All (λ e. e.key_version ≡ n) rows)
    → (old ≡ [] → rows ≡ [])
    → Labelled o rows codes
Labelled-rows none old rows codes h keep empty = (empty h.0, h.1)
Labelled-rows (some v) old rows codes h keep empty = (keep v.key_version h.0, h.1)

update_nil :
    (p : KeyEntryRow → Bool) (f : KeyEntryRow → KeyEntryRow) (rows : List KeyEntryRow)
    → rows ≡ []
    → update p f rows ≡ []
unfolding update
update_nil p f [] e = refl
update_nil p f (x ∷ rows) e = absurd (ground arith)

update-IsCoherent :
    (db : Db) (p : KeyEntryRow → Bool) (f : KeyEntryRow → KeyEntryRow)
    → ((e : KeyEntryRow) → (f e).id ≡ e.id)
    → ((n : ℕ) (e : KeyEntryRow) → e.key_version ≡ n → (f e).key_version ≡ n)
    → IsCoherent db
    → IsCoherent (record db { key_entries = update p f db.key_entries })
update-IsCoherent db p f ids labels h = record {
  labelled =
      Labelled-rows db.vault_auth db.key_entries (update p f db.key_entries) db.recovery_codes
        h.labelled (λ n. update-All (λ e. e.key_version ≡ n) p f db.key_entries (labels n))
        (update_nil p f db.key_entries);
  tickets = h.tickets;
  unique = rw (map-update (λ e. e.id) p f db.key_entries ids) h.unique;
}

delete-IsCoherent :
    (db : Db) (p : KeyEntryRow → Bool)
    → IsCoherent db
    → IsCoherent (record db { key_entries = delete p db.key_entries })
unfolding delete
delete-IsCoherent db p h = record {
  labelled =
      Labelled-rows db.vault_auth db.key_entries (delete p db.key_entries) db.recovery_codes
        h.labelled (λ n. delete-All (λ e. e.key_version ≡ n) p db.key_entries) (λ e. rw e);
  tickets = h.tickets;
  unique = distinct-delete (λ e. e.id) p db.key_entries h.unique;
}

abbrev pub Coherently : {A : Type 0} → Result A × Db → Type 0
Coherently r = Ensures r (λ _ db'. IsCoherent db')

-- Marking an entry as used touches neither ids nor ciphertexts.
pub mark_key_entry_used-IsCoherent :
    (id used_at : String) (db : Db) → IsCoherent db → Coherently (mark_key_entry_used id used_at db)
unfolding mark_key_entry_used
mark_key_entry_used-IsCoherent id used_at db h = Ensures-ok _ _ _ (
    update-IsCoherent db (λ e. e.id == id) (λ e. record e { last_used_at = some used_at })
      (λ e. refl) (λ n e k. k) h)

pub record_activity_event-IsCoherent :
    (id entry_id : String) (action : ActivityAction) (time : String) (db : Db)
    → IsCoherent db
    → Coherently (record_activity_event id entry_id action time db)
unfolding record_activity_event
record_activity_event-IsCoherent id entry_id action time db h = Ensures-throw_if _ _ db _ λ free.
    Ensures-ok _ _ _ (record { labelled = h.labelled; tickets = h.tickets; unique = h.unique })

insert-Labelled :
    (o : Option VaultAuthRow) (vault : VaultAuthRow) (rows : List KeyEntryRow)
    (codes : List RecoveryCodeRow) (row : KeyEntryRow)
    → o ≡ some vault
    → row.key_version ≡ vault.key_version
    → Labelled o rows codes
    → Labelled o (row ∷ rows) codes
insert-Labelled none vault rows codes row e k h = absurd (ground arith)
insert-Labelled (some v) vault rows codes row e k h = ((ground arith, h.0), h.1)

-- A new entry carries the vault's key version, and an id that no entry had.
pub insert_key_entry-IsCoherent :
    (input : InsertInput) (now : String) (db : Db)
    → IsCoherent db
    → Coherently (insert_key_entry input now db)
unfolding insert_key_entry insert_row_of assert_cipher_key_version distinct
insert_key_entry-IsCoherent input now db h = Ensures-require db.vault_auth _ db _ λ vault found.
    Ensures-throw_if _ _ db _ λ same. Ensures-throw_if _ _ db _ λ free. Ensures-ok _ _ _ (record {
      labelled = insert-Labelled db.vault_auth vault _ _ _ found (ground arith) h.labelled;
      tickets = h.tickets;
      unique =
          rw (rw (any-contains (λ (e : KeyEntryRow). e.id) input.id db.key_entries) at free)
            h.unique;
    })

update-Labelled :
    (o : Option VaultAuthRow) (vault : VaultAuthRow) (rows : List KeyEntryRow)
    (codes : List RecoveryCodeRow) (p : KeyEntryRow → Bool) (f : KeyEntryRow → KeyEntryRow)
    → o ≡ some vault
    → ((e : KeyEntryRow)
        → e.key_version ≡ vault.key_version
        → (f e).key_version ≡ vault.key_version)
    → Labelled o rows codes
    → Labelled o (update p f rows) codes
update-Labelled none vault rows codes p f e keep h = absurd (ground arith)
update-Labelled (some v) vault rows codes p f e keep h = (
  update-All (λ e. e.key_version ≡ v.key_version) p f rows (λ x k. ground (arith, keep x)) h.0,
  h.1,
)

-- A check that returned has written nothing, and the version that it was given is the vault's.
abbrev IsCurrent : ℕ → Db → Type 0
IsCurrent n db = (vault : VaultAuthRow) × (db.vault_auth ≡ some vault) × (n ≡ vault.key_version)

pub assert_client_key_version-IsCurrent :
    (declared : ℕ) (field : String) (db : Db)
    → Ensures
        (assert_client_key_version declared field db)
        (λ _ db'. (db' ≡ db) × IsCurrent declared db)
unfolding assert_client_key_version
assert_client_key_version-IsCurrent declared field db =
    Ensures-require _ _ _ _
      λ vault found. Ensures-check _ _ _ λ same. (refl, (vault, found, ground arith))

abbrev FitsCipher : Option CipherInput → Db → Type 0
FitsCipher none db = Unit
FitsCipher (some c) db = IsCurrent c.key_version db

check_cipher-FitsCipher :
    (cipher : Option CipherInput) (db : Db)
    → Ensures (check_cipher cipher db) (λ _ db'. (db' ≡ db) × FitsCipher cipher db)
unfolding check_cipher assert_cipher_key_version
check_cipher-FitsCipher none db = Ensures-ok _ _ _ (refl, tt)
check_cipher-FitsCipher (some c) db =
    Ensures-require _ _ _ _
      λ vault found. Ensures-check _ _ _ λ same. (refl, (vault, found, ground arith))

set_fields-label :
    (input : UpdateInput) (vault : VaultAuthRow) (db : Db) (e : KeyEntryRow)
    → db.vault_auth ≡ some vault
    → FitsCipher input.cipher db
    → e.key_version ≡ vault.key_version
    → (set_fields input e).key_version ≡ vault.key_version
unfolding set_fields
set_fields-label input vault db e found fits k = set_cipher-label input.cipher fits
  where
    set_cipher-label :
        (o : Option CipherInput)
        → FitsCipher o db
        → (set_cipher o (record e {
          label = input.label;
          service_id = input.service_id;
          custom_service_name = input.custom_service_name;
          description = input.description;
          tags = input.tags;
          updated_at = input.updated_at;
        })).key_version
          ≡ vault.key_version
    set_cipher-label none _ = k
    set_cipher-label (some c) (v, found_v, same) = ground arith

set_fields-id : (input : UpdateInput) (e : KeyEntryRow) → (set_fields input e).id ≡ e.id
unfolding set_fields
set_fields-id input e = ground arith

written :
    (input : UpdateInput) (db : Db)
    → IsCoherent db
    → IsCurrent input.key_version db
    → FitsCipher input.cipher db
    → IsCoherent (record db {
      key_entries = update (λ e. e.id == input.id) (set_fields input) db.key_entries;
    })
written input db h (vault, found, _) fits = record {
  labelled =
      update-Labelled db.vault_auth vault _ _ _ (set_fields input) found
        (λ e k. set_fields-label input vault db e found fits k) h.labelled;
  tickets = h.tickets;
  unique =
      rw (map-update (λ e. e.id) _ (set_fields input) db.key_entries (set_fields-id input))
        h.unique;
}

-- An update writes a ciphertext only under the vault's key version.
pub update_key_entry-IsCoherent :
    (input : UpdateInput) (db : Db) → IsCoherent db → Coherently (update_key_entry input db)
unfolding update_key_entry
update_key_entry-IsCoherent input db h =
    Ensures-bind (λ _ db'. (db' ≡ db) × IsCurrent input.key_version db) _ _
      (assert_client_key_version-IsCurrent input.key_version "keyVersion" db)
      λ _ d (same, current).
        Ensures-bind (λ _ db'. (db' ≡ d) × FitsCipher input.cipher d) _ _
          (check_cipher-FitsCipher input.cipher d)
          λ _ d' (same', fits).
            Ensures-ok _ _ _ (rw same' (written input d (rw same h) (rw same current) fits))

-- A deletion leaves the other entries as they are.
pub delete_key_entry-IsCoherent :
    (id : String) (key_version : ℕ) (db : Db)
    → IsCoherent db
    → Coherently (delete_key_entry id key_version db)
unfolding delete_key_entry
delete_key_entry-IsCoherent id key_version db h =
    Ensures-bind (λ _ db'. (db' ≡ db) × IsCurrent key_version db) _ _
      (assert_client_key_version-IsCurrent key_version "keyVersion" db)
      λ _ d (same, current). Ensures-ok _ _ _ (delete-IsCoherent d _ (rw same h))

set_orders-IsCoherent :
    (ids : List String) (n : ℕ) (db : Db)
    → IsCoherent db
    → IsCoherent (record db { key_entries = set_orders ids n db.key_entries })
unfolding set_orders
set_orders-IsCoherent [] n db h = h
set_orders-IsCoherent (id ∷ ids) n db h = set_orders-IsCoherent ids (suc n) _ (
    update-IsCoherent db (λ e. e.id == id) (λ e. record e { sort_order = pos n }) (λ e. refl)
      (λ m e k. k) h)

-- A reordering changes the order alone.
pub reorder_key_entries-IsCoherent :
    (ids : List String) (db : Db) → IsCoherent db → Coherently (reorder_key_entries ids db)
unfolding reorder_key_entries
reorder_key_entries-IsCoherent ids db h =
    Ensures-throw_if _ _ _ _ λ valid. Ensures-ok _ _ _ (set_orders-IsCoherent ids 0 db h)

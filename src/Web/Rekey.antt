-- ===== src/Web/Rekey.antt =====
-- apps/web/src/vault/client-rekey.ts: the browser decrypts every entry under the old key and encrypts
-- it under the new one. The ciphers, the derivation of the next keys and the envelopes are
-- parameters, which may fail; a key is a number that stands for its bytes, and the keys that are
-- zeroized are listed.
pub mod Matches
use key_page.Prelude.{ℕ, String, Bool, true, false, Option, none, some, List, [], ◌∷◌}
use key_page.Db.Rows.{KeyEntryRow, CipherPayload}
use key_page.Keys.Repo.{ReencryptedEntry}
use key_page.Auth.Vault.{Envelope}

-- DecryptedEntry
pub record DecryptedEntry : Type 0 where
  pub id : String
  pub plaintext : String
  pub base_iv_b64 : String

-- the first entry that failed, for the message
pub record Named : Type 0 where
  pub label : String
  pub id : String

-- what a step returns, or why it throws
pub data Outcome (A : Type 0) : Type 0 where
  done : A → Outcome A
  empty_failure partial_failure : Named → Outcome A
  broken : Outcome A

-- the loop of decryptAllKeyEntries: what was decrypted, and the first failure
pub record Decrypted : Type 0 where
  pub entries : List DecryptedEntry
  pub first_failed : Option Named

unfoldable pub add_entry : KeyEntryRow → Option String → Decrypted → Decrypted
add_entry e none later = record later {
  first_failed = some (record { label = e.label; id = e.id });
}
add_entry e (some plaintext) later = record later {
  entries =
      record { id = e.id; plaintext = plaintext; base_iv_b64 = e.cipher.iv_b64 } ∷ later.entries;
}

unfoldable pub settle_parts : Option Named → List DecryptedEntry → Outcome (List DecryptedEntry)
settle_parts none entries = done entries
settle_parts (some first) [] = empty_failure first
settle_parts (some first) (e ∷ es) = partial_failure first

-- the end of decryptAllKeyEntries; where nothing was decrypted, an entry failed
unfoldable pub settle : Decrypted → Outcome (List DecryptedEntry)
settle d = settle_parts d.first_failed d.entries

pub record NextKeys : Type 0 where
  pub encryption_key : ℕ
  pub master_key : ℕ

pub record Rekeyed : Type 0 where
  pub reencrypted : List ReencryptedEntry
  pub codes : List String
  pub envelopes : List Envelope
  pub next_encryption_key : ℕ

module _ (decrypt : KeyEntryRow → Option String) where
  unfoldable pub decrypt_each : List KeyEntryRow → Decrypted
  decrypt_each [] = record { entries = []; first_failed = none }
  decrypt_each (e ∷ es) = add_entry e (decrypt e) (decrypt_each es)

  -- decryptAllKeyEntries
  unfoldable pub decrypt_all_key_entries : List KeyEntryRow → Outcome (List DecryptedEntry)
  decrypt_all_key_entries entries = settle (decrypt_each entries)

module _ (encrypt : ℕ → (id plaintext : String) → Option CipherPayload) where
  unfoldable pub add_cipher :
      DecryptedEntry
      → Option CipherPayload
      → Option (List ReencryptedEntry)
      → Option (List ReencryptedEntry)
  add_cipher item none later = none
  add_cipher item (some cipher) none = none
  add_cipher item (some cipher) (some later) =
      some (record { id = item.id; base_iv_b64 = item.base_iv_b64; cipher = cipher } ∷ later)

  -- encryptAllKeyEntries
  unfoldable pub encrypt_all_key_entries : ℕ → List DecryptedEntry → Option (List ReencryptedEntry)
  encrypt_all_key_entries key [] = some []
  encrypt_all_key_entries key (item ∷ items) =
      add_cipher item (encrypt key item.id item.plaintext) (encrypt_all_key_entries key items)

module _ (decrypt : KeyEntryRow → Option String)
    (encrypt : ℕ → (id plaintext : String) → Option CipherPayload)
    (build_envelopes : ℕ → Option (List String × List Envelope)) where
  -- the `try` of rekeyEntriesAndEnvelopes and its `catch`, with the keys that are zeroized
  unfoldable pub finish :
      NextKeys
      → Option (List ReencryptedEntry)
      → Option (List String × List Envelope)
      → Outcome Rekeyed × List ℕ
  finish next none built = (broken, next.encryption_key ∷ next.master_key ∷ [])
  finish next (some entries) none = (broken, next.encryption_key ∷ next.master_key ∷ [])
  finish next (some entries) (some (codes, envelopes)) = (
    done (record {
      reencrypted = entries;
      codes = codes;
      envelopes = envelopes;
      next_encryption_key = next.encryption_key;
    }),
    next.master_key ∷ [],
  )

  unfoldable pub rekey_with : Option NextKeys → List DecryptedEntry → Outcome Rekeyed × List ℕ
  rekey_with none decrypted = (broken, [])
  rekey_with (some next) decrypted =
      finish next (encrypt_all_key_entries encrypt next.encryption_key decrypted)
        (build_envelopes next.master_key)

  unfoldable pub after_decrypt :
      Option NextKeys → Outcome (List DecryptedEntry) → Outcome Rekeyed × List ℕ
  after_decrypt next (done decrypted) = rekey_with next decrypted
  after_decrypt next (empty_failure first) = (empty_failure first, [])
  after_decrypt next (partial_failure first) = (partial_failure first, [])
  after_decrypt next broken = (broken, [])

  -- rekeyEntriesAndEnvelopes
  unfoldable pub rekey_entries_and_envelopes :
      Option NextKeys → List KeyEntryRow → Outcome Rekeyed × List ℕ
  rekey_entries_and_envelopes next entries =
      after_decrypt next (decrypt_all_key_entries decrypt entries)

-- ===== src/Web/Rekey/Matches.antt =====
-- What the browser re-encrypts is what the server expects.
use key_page.Prelude.{
  ℕ, suc, ◌≡◌, refl, subst, ap, ◌∙◌, String, true, false, Option, none, some, List, [], ◌∷◌, map,
  length, arith, ◌==◌, eq_iff,
}
use key_page.Tables.{find, all, contains, distinct, All}
use key_page.Db.Rows.{Db, KeyEntryRow, CipherPayload}
use key_page.Db.Action.{ok, throw_if}
use key_page.Keys.Order.{sort_rows}
use key_page.Keys.Order.Ids.{
  id_of, contains-sort_rows, distinct-sort_rows, length-sort_rows, All-sort_rows,
}
use key_page.Keys.Repo.{ReencryptedEntry, list_key_entries, list_key_entry_ids, cipher_iv_of}
use key_page.Auth.Vault.{Envelope}
use key_page.Auth.Rotation.{same_ids, iv_fits, assert_entries_match}
use key_page.Web.Rekey.{
  DecryptedEntry, Outcome, done, empty_failure, partial_failure, broken, Decrypted, Named,
  add_entry, settle, settle_parts, NextKeys, Rekeyed, decrypt_each, decrypt_all_key_entries,
  add_cipher, encrypt_all_key_entries, finish, rekey_with, after_decrypt,
  rekey_entries_and_envelopes,
}

-- in a table without a repeated id, each row is the one that its id finds

IsFound : List KeyEntryRow → KeyEntryRow → Type 0
IsFound rows r = find (λ e. e.id == r.id) rows ≡ some r

others :
    (k : String) (xs : List KeyEntryRow)
    → contains k (map id_of xs) ≡ false
    → All (λ r. (k == r.id) ≡ false) xs
unfolding contains
others k [] h = tt
others k (x ∷ xs) h =
    (ground (arith, h, eq_iff k x.id, eq_iff x.id k), others k xs (ground (arith, h)))

IsFound-later :
    (x : KeyEntryRow) (rows xs : List KeyEntryRow)
    → All (λ r. (x.id == r.id) ≡ false) xs
    → All (IsFound rows) xs
    → All (IsFound (x ∷ rows)) xs
unfolding IsFound find
IsFound-later x rows [] h k = tt
IsFound-later x rows (r ∷ xs) (other, h) (found, k) = (rw other found, IsFound-later x rows xs h k)

all-IsFound : (rows : List KeyEntryRow) → distinct (map id_of rows) ≡ true → All (IsFound rows) rows
unfolding distinct IsFound find
all-IsFound [] h = tt
all-IsFound (x ∷ xs) h = (
  ground (arith, eq_iff x.id x.id),
  IsFound-later x xs xs (others x.id xs (ground (arith, h))) (all-IsFound xs (ground (arith, h))),
)

-- an entry has kept the id and the iv of its row

Follows : List KeyEntryRow → List DecryptedEntry → Type 0
Follows [] [] = Unit
Follows [] (d ∷ ds) = ⊥
Follows (e ∷ es) [] = ⊥
Follows (e ∷ es) (d ∷ ds) = (d.id ≡ e.id) × (d.base_iv_b64 ≡ e.cipher.iv_b64) × Follows es ds

Carries : List KeyEntryRow → List ReencryptedEntry → Type 0
Carries [] [] = Unit
Carries [] (d ∷ ds) = ⊥
Carries (e ∷ es) [] = ⊥
Carries (e ∷ es) (d ∷ ds) = (d.id ≡ e.id) × (d.base_iv_b64 ≡ e.cipher.iv_b64) × Carries es ds

decrypt_each-Follows :
    (decrypt : KeyEntryRow → Option String) (es : List KeyEntryRow)
    → (decrypt_each decrypt es).first_failed ≡ none
    → Follows es (decrypt_each decrypt es).entries
unfolding decrypt_each Follows add_entry
decrypt_each-Follows decrypt [] h = tt
decrypt_each-Follows decrypt (e ∷ es) h =
    by_result (decrypt e) (decrypt_each decrypt es) (decrypt_each-Follows decrypt es) h
  where
    by_result :
        (o : Option String) (later : Decrypted)
        → (later.first_failed ≡ none → Follows es later.entries)
        → (add_entry e o later).first_failed ≡ none
        → Follows (e ∷ es) (add_entry e o later).entries
    by_result none later k h = absurd (ground (arith, h))
    by_result (some plaintext) later k h = (refl, refl, k h)

IsCarried : List KeyEntryRow → Option (List ReencryptedEntry) → Type 0
IsCarried es none = Unit
IsCarried es (some r) = Carries es r

add_cipher-IsCarried :
    (encrypt : ℕ → (id plaintext : String) → Option CipherPayload) (e : KeyEntryRow)
    (d : DecryptedEntry) (es : List KeyEntryRow) (c : Option CipherPayload)
    (later : Option (List ReencryptedEntry))
    → d.id ≡ e.id
    → d.base_iv_b64 ≡ e.cipher.iv_b64
    → IsCarried es later
    → IsCarried (e ∷ es) (add_cipher encrypt d c later)
unfolding add_cipher IsCarried Carries
add_cipher-IsCarried encrypt e d es none later i v h = tt
add_cipher-IsCarried encrypt e d es (some c) none i v h = tt
add_cipher-IsCarried encrypt e d es (some c) (some r) i v h = (i, v, h)

encrypt-IsCarried :
    (encrypt : ℕ → (id plaintext : String) → Option CipherPayload) (key : ℕ) (es : List KeyEntryRow)
    (ds : List DecryptedEntry)
    → Follows es ds
    → IsCarried es (encrypt_all_key_entries encrypt key ds)
unfolding encrypt_all_key_entries Follows IsCarried Carries
encrypt-IsCarried encrypt key [] [] f = tt
encrypt-IsCarried encrypt key [] (d ∷ ds) f = absurd f
encrypt-IsCarried encrypt key (e ∷ es) [] f = absurd f
encrypt-IsCarried encrypt key (e ∷ es) (d ∷ ds) (i, v, f) =
    add_cipher-IsCarried encrypt e d es _ _ i v (encrypt-IsCarried encrypt key es ds f)

-- what was carried over is what the server checks

Carries-ids :
    (es : List KeyEntryRow) (r : List ReencryptedEntry)
    → Carries es r
    → map (λ x. x.id) r ≡ map id_of es
unfolding Carries
Carries-ids [] [] h = refl
Carries-ids [] (x ∷ r) h = absurd h
Carries-ids (e ∷ es) [] h = absurd h
Carries-ids (e ∷ es) (x ∷ r) (i, v, h) = ground (arith, i, Carries-ids es r h)

iv_fits-IsFound :
    (db : Db) (e : KeyEntryRow) (x : ReencryptedEntry)
    → x.id ≡ e.id
    → x.base_iv_b64 ≡ e.cipher.iv_b64
    → IsFound db.key_entries e
    → iv_fits db x ≡ true
unfolding iv_fits cipher_iv_of IsFound
iv_fits-IsFound db e x i v found =
    let at : find (λ r. r.id == x.id) db.key_entries ≡ some e = rw i found in
    rw (iv_fits, cipher_iv_of, at) (ground (arith, v, eq_iff e.cipher.iv_b64 x.base_iv_b64))

Carries-iv_fits :
    (db : Db) (es : List KeyEntryRow) (r : List ReencryptedEntry)
    → Carries es r
    → All (IsFound db.key_entries) es
    → all (iv_fits db) r ≡ true
unfolding Carries all
Carries-iv_fits db [] [] h k = refl
Carries-iv_fits db [] (x ∷ r) h k = absurd h
Carries-iv_fits db (e ∷ es) [] h k = absurd h
Carries-iv_fits db (e ∷ es) (x ∷ r) (i, v, h) (found, k) =
    rw (iv_fits-IsFound db e x i v found) (Carries-iv_fits db es r h k)

all-contains :
    (xs ids : List String)
    → ((k : String) → contains k xs ≡ true → contains k ids ≡ true)
    → all (λ id. contains id ids) xs ≡ true
unfolding all contains
all-contains [] ids sub = refl
all-contains (x ∷ xs) ids sub =
    ground (arith, sub x, eq_iff x x, all-contains xs ids (λ k h. sub k (ground (arith, h))))

length-map_id : (xs : List KeyEntryRow) → length (map id_of xs) ≡ length xs
length-map_id [] = refl
length-map_id (x ∷ xs) = ap (λ n. suc n) (length-map_id xs)

same_ids-sort_rows :
    (rows : List KeyEntryRow)
    → distinct (map id_of rows) ≡ true
    → same_ids (map id_of (sort_rows rows)) (map id_of rows) ≡ true
unfolding same_ids
same_ids-sort_rows rows h = ground (
  arith,
  distinct-sort_rows rows h,
  length-map_id (sort_rows rows),
  length-map_id rows,
  length-sort_rows rows,
  all-contains (map id_of rows) (map id_of (sort_rows rows)) (λ k c. contains-sort_rows k rows ∙ c),
)

-- what the steps return carries every entry over

Returned : List KeyEntryRow → Outcome (List DecryptedEntry) → Type 0
Returned es (done ds) = Follows es ds
Returned es (empty_failure first) = Unit
Returned es (partial_failure first) = Unit
Returned es broken = Unit

settle_parts-Returned :
    (es : List KeyEntryRow) (o : Option Named) (ds : List DecryptedEntry)
    → (o ≡ none → Follows es ds)
    → Returned es (settle_parts o ds)
unfolding settle_parts Returned
settle_parts-Returned es none ds h = h refl
settle_parts-Returned es (some first) [] h = tt
settle_parts-Returned es (some first) (d ∷ ds) h = tt

IsComplete : List KeyEntryRow → Outcome Rekeyed × List ℕ → Type 0
IsComplete es (done r, wiped) = Carries es r.reencrypted
IsComplete es (empty_failure first, wiped) = Unit
IsComplete es (partial_failure first, wiped) = Unit
IsComplete es (broken, wiped) = Unit

module _ (decrypt : KeyEntryRow → Option String)
    (encrypt : ℕ → (id plaintext : String) → Option CipherPayload)
    (build_envelopes : ℕ → Option (List String × List Envelope)) (next : NextKeys) where
  finish-IsComplete :
      (es : List KeyEntryRow) (o : Option (List ReencryptedEntry))
      (built : Option (List String × List Envelope))
      → IsCarried es o
      → IsComplete es (finish decrypt encrypt build_envelopes next o built)
  unfolding finish IsComplete IsCarried
  finish-IsComplete es none built h = tt
  finish-IsComplete es (some r) none h = tt
  finish-IsComplete es (some r) (some (codes, envelopes)) h = h

  after_decrypt-IsComplete :
      (es : List KeyEntryRow) (o : Outcome (List DecryptedEntry))
      → Returned es o
      → IsComplete es (after_decrypt decrypt encrypt build_envelopes (some next) o)
  unfolding after_decrypt rekey_with IsComplete Returned
  after_decrypt-IsComplete es (done ds) h =
      finish-IsComplete es _ _ (encrypt-IsCarried encrypt next.encryption_key es ds h)
  after_decrypt-IsComplete es (empty_failure first) h = tt
  after_decrypt-IsComplete es (partial_failure first) h = tt
  after_decrypt-IsComplete es broken h = tt

  rekey-IsComplete :
      (es : List KeyEntryRow)
      → IsComplete es (rekey_entries_and_envelopes decrypt encrypt build_envelopes (some next) es)
  unfolding rekey_entries_and_envelopes decrypt_all_key_entries settle
  rekey-IsComplete es =
      after_decrypt-IsComplete es _ (settle_parts-Returned es _ _ (decrypt_each-Follows decrypt es))

  Carries-assert_entries_match :
      (db : Db) (r : List ReencryptedEntry)
      → distinct (map (λ e. e.id) db.key_entries) ≡ true
      → Carries (sort_rows db.key_entries) r
      → assert_entries_match r db ≡ (ok tt, db)
  unfolding assert_entries_match list_key_entry_ids throw_if
  Carries-assert_entries_match db r unique h =
      rw
        (
          Carries-ids (sort_rows db.key_entries) r h,
          same_ids-sort_rows db.key_entries unique,
          Carries-iv_fits db (sort_rows db.key_entries) r h (
              All-sort_rows (IsFound db.key_entries) db.key_entries
                (all-IsFound db.key_entries unique)),
        )
        refl

  -- What the browser re-encrypts from the list of the key entries, where no two share an id, passes
  -- the server's check of the entries: every entry is there once, with its current iv.
  pub rekey-assert_entries_match :
      (db : Db) (r : Rekeyed) (wiped : List ℕ)
      → distinct (map (λ e. e.id) db.key_entries) ≡ true
      → rekey_entries_and_envelopes decrypt encrypt build_envelopes
          (some next)
          (list_key_entries db)
        ≡ (done r, wiped)
      → assert_entries_match r.reencrypted db ≡ (ok tt, db)
  unfolding list_key_entries IsComplete
  rekey-assert_entries_match db r wiped unique e =
      Carries-assert_entries_match db r.reencrypted unique (
        subst (IsComplete (sort_rows db.key_entries)) e
          (rekey-IsComplete (sort_rows db.key_entries)))

-- ===== src/Keys/Repo/Rekey.antt =====
-- The loop that replaces the ciphertexts of a vault.
use key_page.Prelude.{
  ℕ, ◌≡◌, refl, ◌∙◌, ◌⊎◌, inl, inr, true, false, sym, Bool-cases, List, [], ◌∷◌, map, arith, ◌==◌,
  eq_iff,
}
use key_page.Tables.{All, update, all, contains}
use key_page.Tables.Laws.{map-update}
use key_page.Db.Rows.{KeyEntryRow}
use key_page.Keys.Repo.{ReencryptedEntry, set_rotated, replace_ciphers}

-- The ids, and their order, stay.
pub map_id-replace_ciphers :
    (entries : List ReencryptedEntry) (n : ℕ) (rows : List KeyEntryRow)
    → map (λ e. e.id) (replace_ciphers entries n rows) ≡ map (λ e. e.id) rows
unfolding replace_ciphers set_rotated
map_id-replace_ciphers [] n rows = refl
map_id-replace_ciphers (entry ∷ entries) n rows =
    map_id-replace_ciphers entries n _
    ∙ map-update (λ e. e.id) (λ e. e.id == entry.id) (set_rotated entry n) rows (λ e. refl)

-- rewritten, or still to come
abbrev Pending : List ReencryptedEntry → ℕ → KeyEntryRow → Type 0
Pending entries n e = (e.key_version ≡ n) ⊎ (contains e.id (map (λ x. x.id) entries) ≡ true)

update-Pending :
    (entry : ReencryptedEntry) (entries : List ReencryptedEntry) (n : ℕ) (rows : List KeyEntryRow)
    → All (Pending (entry ∷ entries) n) rows
    → All (Pending entries n) (update (λ e. e.id == entry.id) (set_rotated entry n) rows)
unfolding update contains set_rotated
update-Pending entry entries n [] h = tt
update-Pending entry entries n (e ∷ rows) (p, h) = (
  ground (arith, eq_iff e.id entry.id, eq_iff entry.id e.id),
  update-Pending entry entries n rows h,
)

replace_ciphers-Pending :
    (entries : List ReencryptedEntry) (n : ℕ) (rows : List KeyEntryRow)
    → All (Pending entries n) rows
    → All (λ e. e.key_version ≡ n) (replace_ciphers entries n rows)
unfolding replace_ciphers contains
replace_ciphers-Pending [] n rows h = settled rows h
  where
    settled :
        (rows : List KeyEntryRow) → All (Pending [] n) rows → All (λ e. e.key_version ≡ n) rows
    settled [] h = tt
    settled (e ∷ rows) (inl p, h) = (p, settled rows h)
    settled (e ∷ rows) (inr p, h) = cc
replace_ciphers-Pending (entry ∷ entries) n rows h =
    replace_ciphers-Pending entries n _ (update-Pending entry entries n rows h)

listed-Pending :
    (entries : List ReencryptedEntry) (n : ℕ) (rows : List KeyEntryRow)
    → all (λ id. contains id (map (λ x. x.id) entries)) (map (λ e. e.id) rows) ≡ true
    → All (Pending entries n) rows
unfolding all
listed-Pending entries n [] h = tt
listed-Pending entries n (e ∷ rows) h =
    (inr (ground arith), listed-Pending entries n rows (ground arith))

-- If every id of the vault is listed, every entry ends under the new version.
pub replace_ciphers-label :
    (entries : List ReencryptedEntry) (n : ℕ) (rows : List KeyEntryRow)
    → all (λ id. contains id (map (λ x. x.id) entries)) (map (λ e. e.id) rows) ≡ true
    → All (λ e. e.key_version ≡ n) (replace_ciphers entries n rows)
replace_ciphers-label entries n rows h =
    replace_ciphers-Pending entries n rows (listed-Pending entries n rows h)

-- the request has an entry with this id and this ciphertext
abbrev pub Sent : List ReencryptedEntry → KeyEntryRow → Type 0
Sent [] e = false ≡ true
Sent (x ∷ xs) e = ((x.id ≡ e.id) × (x.cipher ≡ e.cipher)) ⊎ Sent xs e

-- rewritten to what was sent, or still to come
abbrev Awaits : List ReencryptedEntry → List ReencryptedEntry → KeyEntryRow → Type 0
Awaits sent entries e = Sent sent e ⊎ (contains e.id (map (λ x. x.id) entries) ≡ true)

abbrev Rewrites : List ReencryptedEntry → ℕ → ReencryptedEntry → Type 0
Rewrites sent n x = (e : KeyEntryRow) → e.id ≡ x.id → Sent sent (set_rotated x n e)

update-Awaits :
    (sent : List ReencryptedEntry) (entry : ReencryptedEntry) (entries : List ReencryptedEntry)
    (n : ℕ) (rows : List KeyEntryRow)
    → Rewrites sent n entry
    → All (Awaits sent (entry ∷ entries)) rows
    → All (Awaits sent entries) (update (λ e. e.id == entry.id) (set_rotated entry n) rows)
unfolding update contains
update-Awaits sent entry entries n [] make h = tt
update-Awaits sent entry entries n (e ∷ rows) make (p, h) = (
  elim (Bool-cases (e.id == entry.id)) [
    | inl same ↦ rw same (inl (make e ((eq_iff e.id entry.id).0 same)))
    | inr other ↦ rw other (elim p [
      | inl done ↦ inl done
      | inr listed ↦ inr (ground (arith, eq_iff e.id entry.id, eq_iff entry.id e.id))
    ])
  ],
  update-Awaits sent entry entries n rows make h,
)

replace_ciphers-Awaits :
    (sent entries : List ReencryptedEntry) (n : ℕ) (rows : List KeyEntryRow)
    → All (Rewrites sent n) entries
    → All (Awaits sent entries) rows
    → All (Sent sent) (replace_ciphers entries n rows)
unfolding replace_ciphers contains
replace_ciphers-Awaits sent [] n rows make h = settled rows h
  where
    settled : (rows : List KeyEntryRow) → All (Awaits sent []) rows → All (Sent sent) rows
    settled [] h = tt
    settled (e ∷ rows) (inl p, h) = (p, settled rows h)
    settled (e ∷ rows) (inr p, h) = cc
replace_ciphers-Awaits sent (entry ∷ entries) n rows (one, make) h =
    replace_ciphers-Awaits sent entries n _ make (update-Awaits sent entry entries n rows one h)

Rewrites-cons :
    (x : ReencryptedEntry) (sent : List ReencryptedEntry) (n : ℕ) (entries : List ReencryptedEntry)
    → All (Rewrites sent n) entries
    → All (Rewrites (x ∷ sent) n) entries
Rewrites-cons x sent n [] h = tt
Rewrites-cons x sent n (y ∷ entries) (one, h) =
    (λ e same. inr (one e same), Rewrites-cons x sent n entries h)

Rewrites-all : (n : ℕ) (entries : List ReencryptedEntry) → All (Rewrites entries n) entries
unfolding set_rotated
Rewrites-all n [] = tt
Rewrites-all n (x ∷ entries) =
    (λ e same. inl (sym same, refl), Rewrites-cons x entries n entries (Rewrites-all n entries))

listed-Awaits :
    (sent entries : List ReencryptedEntry) (rows : List KeyEntryRow)
    → all (λ id. contains id (map (λ x. x.id) entries)) (map (λ e. e.id) rows) ≡ true
    → All (Awaits sent entries) rows
unfolding all
listed-Awaits sent entries [] h = tt
listed-Awaits sent entries (e ∷ rows) h =
    (inr (ground arith), listed-Awaits sent entries rows (ground arith))

-- If every id of the vault is listed, every entry ends with the ciphertext that was sent for its id.
pub replace_ciphers-Sent :
    (entries : List ReencryptedEntry) (n : ℕ) (rows : List KeyEntryRow)
    → all (λ id. contains id (map (λ x. x.id) entries)) (map (λ e. e.id) rows) ≡ true
    → All (Sent entries) (replace_ciphers entries n rows)
replace_ciphers-Sent entries n rows h =
    replace_ciphers-Awaits entries entries n rows (Rewrites-all n entries)
      (listed-Awaits entries entries rows h)

-- ===== src/Keys/Order.antt =====
-- The integers of `sort_order`, and `ORDER BY sort_order ASC, id ASC` of listKeyEntries in
-- apps/api/src/keys/key-entry-repo.ts. SQLite compares texts by their bytes, which orders them as
-- their code points do.
pub mod Sorted
pub mod Ids
use Prim.Native.Char.{code}
use key_page.Prelude.{
  zero, suc, String, Bool, true, false, ◌&&◌, ◌||◌, Option, none, some, List, [], ◌∷◌, ltb, ◌=ℕ◌,
  if◌then◌else◌,
}
use key_page.Db.Rows.{ℤ, pos, negsuc, KeyEntryRow}

abbrev pub ltℤ : ℤ → ℤ → Bool
ltℤ (pos a) (pos b) = ltb a b
ltℤ (pos a) (negsuc b) = false
ltℤ (negsuc a) (pos b) = true
ltℤ (negsuc a) (negsuc b) = ltb b a

abbrev pub eqℤ : ℤ → ℤ → Bool
eqℤ (pos a) (pos b) = a =ℕ b
eqℤ (pos a) (negsuc b) = false
eqℤ (negsuc a) (pos b) = false
eqℤ (negsuc a) (negsuc b) = a =ℕ b

abbrev pub sucℤ : ℤ → ℤ
sucℤ (pos n) = pos (suc n)
sucℤ (negsuc zero) = pos zero
sucℤ (negsuc (suc n)) = negsuc n

abbrev pub predℤ : ℤ → ℤ
predℤ (pos zero) = negsuc zero
predℤ (pos (suc n)) = pos n
predℤ (negsuc n) = negsuc (suc n)

-- `MIN(sort_order)` and `MAX(sort_order)`, `none` for an empty table
unfoldable pub min_order : List KeyEntryRow → Option ℤ
min_order [] = none
min_order (e ∷ es) = elim (min_order es) [
  | none ↦ some e.sort_order
  | some m ↦ some (if ltℤ m e.sort_order then m else e.sort_order)
]

unfoldable pub max_order : List KeyEntryRow → Option ℤ
max_order [] = none
max_order (e ∷ es) = elim (max_order es) [
  | none ↦ some e.sort_order
  | some m ↦ some (if ltℤ e.sort_order m then m else e.sort_order)
]

-- the order of SQLite's texts
unfoldable pub text_le : String → String → Bool
text_le String.[] t = true
text_le (String.◌∷◌ c s) String.[] = false
text_le (String.◌∷◌ c s) (String.◌∷◌ d t) = ltb (code c) (code d) || code c =ℕ code d && text_le s t

unfoldable pub row_le : KeyEntryRow → KeyEntryRow → Bool
unfolding text_le
row_le a b = ltℤ a.sort_order b.sort_order || eqℤ a.sort_order b.sort_order && text_le a.id b.id

unfoldable pub insert_row : KeyEntryRow → List KeyEntryRow → List KeyEntryRow
insert_row e [] = e ∷ []
insert_row e (x ∷ xs) = if row_le e x then e ∷ x ∷ xs else x ∷ insert_row e xs

unfoldable pub sort_rows : List KeyEntryRow → List KeyEntryRow
sort_rows [] = []
sort_rows (e ∷ es) = insert_row e (sort_rows es)

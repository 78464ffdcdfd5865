-- ===== src/Keys/Order/Ids.antt =====
-- The sorted list of the key entries has the ids of the table, each as often.
use key_page.Prelude.{
  suc, ◌≡◌, refl, ◌∙◌, String, true, false, ◌||◌, List, [], ◌∷◌, map, length, arith, ◌==◌,
  Bool-cases, inl, inr, eq_iff,
}
use key_page.Tables.{contains, distinct, All}
use key_page.Db.Rows.{KeyEntryRow}
use key_page.Keys.Order.{row_le, insert_row, sort_rows}

abbrev pub id_of : KeyEntryRow → String
id_of e = e.id

contains-insert_row :
    (k : String) (e : KeyEntryRow) (xs : List KeyEntryRow)
    → contains k (map id_of (insert_row e xs)) ≡ (e.id == k || contains k (map id_of xs))
unfolding contains insert_row
contains-insert_row k e [] = refl
contains-insert_row k e (x ∷ xs) = ground (arith, contains-insert_row k e xs)

pub contains-sort_rows :
    (k : String) (xs : List KeyEntryRow)
    → contains k (map id_of (sort_rows xs)) ≡ contains k (map id_of xs)
unfolding contains sort_rows
contains-sort_rows k [] = refl
contains-sort_rows k (x ∷ xs) =
    ground (arith, contains-insert_row k x (sort_rows xs), contains-sort_rows k xs)

distinct-insert_row :
    (e : KeyEntryRow) (xs : List KeyEntryRow)
    → contains e.id (map id_of xs) ≡ false
    → distinct (map id_of xs) ≡ true
    → distinct (map id_of (insert_row e xs)) ≡ true
unfolding distinct contains insert_row
distinct-insert_row e [] new h = refl
distinct-insert_row e (x ∷ xs) new h = ground (
  arith,
  new,
  h,
  distinct-insert_row e xs,
  contains-insert_row x.id e xs,
  eq_iff e.id x.id,
  eq_iff x.id e.id,
)

pub distinct-sort_rows :
    (xs : List KeyEntryRow)
    → distinct (map id_of xs) ≡ true
    → distinct (map id_of (sort_rows xs)) ≡ true
unfolding distinct sort_rows
distinct-sort_rows [] h = refl
distinct-sort_rows (x ∷ xs) h =
    distinct-insert_row x (sort_rows xs) (contains-sort_rows x.id xs ∙ (ground (arith, h)))
      (distinct-sort_rows xs (ground (arith, h)))

length-insert_row :
    (e : KeyEntryRow) (xs : List KeyEntryRow) → length (insert_row e xs) ≡ suc (length xs)
unfolding insert_row
length-insert_row e [] = refl
length-insert_row e (x ∷ xs) = ground (arith, length-insert_row e xs)

pub length-sort_rows : (xs : List KeyEntryRow) → length (sort_rows xs) ≡ length xs
unfolding sort_rows
length-sort_rows [] = refl
length-sort_rows (x ∷ xs) = ground (arith, length-insert_row x (sort_rows xs), length-sort_rows xs)

All-insert_row :
    (P : KeyEntryRow → Type 0) (e : KeyEntryRow) (xs : List KeyEntryRow)
    → P e
    → All P xs
    → All P (insert_row e xs)
unfolding insert_row
All-insert_row P e [] p h = (p, tt)
All-insert_row P e (x ∷ xs) p (q, h) = elim (Bool-cases (row_le e x)) [
  | inl le ↦ rw le (p, (q, h))
  | inr gt ↦ rw gt (q, All-insert_row P e xs p h)
]

pub All-sort_rows :
    (P : KeyEntryRow → Type 0) (xs : List KeyEntryRow) → All P xs → All P (sort_rows xs)
unfolding sort_rows
All-sort_rows P [] h = tt
All-sort_rows P (x ∷ xs) (p, h) = All-insert_row P x (sort_rows xs) p (All-sort_rows P xs h)

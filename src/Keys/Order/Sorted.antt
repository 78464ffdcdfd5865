-- ===== src/Keys/Order/Sorted.antt =====
-- The sort of the key entries: no row comes before one that should precede it.
use key_page.Prelude.{
  ◌≡◌, refl, String, Bool, true, false, ◌⊎◌, inl, inr, Bool-cases, List, [], ◌∷◌, arith, subst,
  if◌then◌else◌, ◌||◌, ◌&&◌,
}
use key_page.Db.Rows.{ℤ, pos, negsuc, KeyEntryRow}
use key_page.Keys.Order.{ltℤ, eqℤ, text_le, row_le, insert_row, sort_rows}

abbrev pub IsSorted : List KeyEntryRow → Type 0
IsSorted [] = Unit
IsSorted (x ∷ []) = Unit
IsSorted (x ∷ y ∷ ys) = (row_le x y ≡ true) × IsSorted (y ∷ ys)

text_le_total : (s t : String) → (text_le s t ≡ true) ⊎ (text_le t s ≡ true)
unfolding text_le
text_le_total String.[] t = inl refl
text_le_total (String.◌∷◌ c s) String.[] = inr refl
text_le_total (String.◌∷◌ c s) (String.◌∷◌ d t) = ground (arith, text_le_total s t)

row_le_total : (a b : KeyEntryRow) → row_le a b ≡ false → row_le b a ≡ true
unfolding row_le
row_le_total a b h = by_order a.sort_order b.sort_order (text_le_total a.id b.id) h
  where
    by_order :
        (i j : ℤ) {u v : Bool}
        → (u ≡ true) ⊎ (v ≡ true)
        → (ltℤ i j || eqℤ i j && u) ≡ false
        → (ltℤ j i || eqℤ j i && v) ≡ true
    by_order (pos i) (pos j) t h = ground (arith, t, h)
    by_order (pos i) (negsuc j) t h = refl
    by_order (negsuc i) (pos j) t h = ground (arith, h)
    by_order (negsuc i) (negsuc j) t h = ground (arith, t, h)

insert_row-IsSorted :
    (e : KeyEntryRow) (xs : List KeyEntryRow) → IsSorted xs → IsSorted (insert_row e xs)
unfolding insert_row
insert_row-IsSorted e [] h = tt
insert_row-IsSorted e (x ∷ []) h = elim (Bool-cases (row_le e x)) [
  | inl le ↦ rw le (le, tt)
  | inr gt ↦ rw gt (row_le_total e x gt, tt)
]
insert_row-IsSorted e (x ∷ y ∷ ys) (xy, h) = elim (Bool-cases (row_le e x)) [
  | inl le ↦ rw le (le, (xy, h))
  | inr gt ↦ rw gt (elim (Bool-cases (row_le e y)) [
    | inl le ↦ rw le (row_le_total e x gt, (le, h))
    | inr later ↦
        let rest : IsSorted (insert_row e (y ∷ ys)) = insert_row-IsSorted e (y ∷ ys) h in
        rw later
          (xy, subst (λ b. IsSorted (if b then e ∷ y ∷ ys else y ∷ insert_row e ys)) later rest)
  ])
]

pub sort_rows-IsSorted : (rows : List KeyEntryRow) → IsSorted (sort_rows rows)
unfolding sort_rows
sort_rows-IsSorted [] = tt
sort_rows-IsSorted (e ∷ es) = insert_row-IsSorted e (sort_rows es) (sort_rows-IsSorted es)

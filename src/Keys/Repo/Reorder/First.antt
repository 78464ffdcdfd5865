-- ===== src/Keys/Repo/Reorder/First.antt =====
-- A sorted list of rows whose orders are the places of their ids in a list.
use key_page.Prelude.{
  ℕ, suc, ◌≤◌, ◌≡◌, refl, ap, String, Bool, true, false, ◌||◌, ◌&&◌, inl, inr, List, [], ◌∷◌, map,
  length, arith, eq_iff,
}
use text.Mathlib.TextPositions.{eq_refl}
use key_page.Tables.{All, any, contains, distinct}
use key_page.Tables.Subset.{IsWithin, IsWithin-covers}
use key_page.Db.Rows.{KeyEntryRow, pos}
use key_page.Keys.Order.{ltℤ, eqℤ, row_le}
use key_page.Keys.Order.Ids.{id_of}
use key_page.Keys.Order.Sorted.{IsSorted}
use key_page.Keys.Repo.Reorder.Loop.{At, Ge, At-contains, At-Ge}

row_le-pos :
    (e f : KeyEntryRow) (n m : ℕ)
    → e.sort_order ≡ pos n
    → f.sort_order ≡ pos m
    → row_le e f ≡ true
    → n ≤ m
unfolding row_le
row_le-pos e f n m a b le = by_order _ (rw (a, b) at le)
  where
    by_order : (u : Bool) → (ltℤ (pos n) (pos m) || eqℤ (pos n) (pos m) && u) ≡ true → n ≤ m
    by_order u h = ground (arith, h)

Ge-weaken : (n m : ℕ) → n ≤ m → (rows : List KeyEntryRow) → All (Ge m) rows → All (Ge n) rows
Ge-weaken n m le [] h = tt
Ge-weaken n m le (g ∷ rows) ((i, order, far), h) =
    ((i, order, omega arith), Ge-weaken n m le rows h)

pub length-map_id : (rows : List KeyEntryRow) → length (map id_of rows) ≡ length rows
length-map_id [] = refl
length-map_id (e ∷ rows) = ap suc (length-map_id rows)

-- in a sorted list, no order is below that of the first row
IsSorted-Ge :
    (e : KeyEntryRow) (rows : List KeyEntryRow) (ids : List String) (k n : ℕ)
    → IsSorted (e ∷ rows)
    → e.sort_order ≡ pos n
    → All (At ids k) rows
    → All (Ge n) rows
IsSorted-Ge e [] ids k n s order h = tt
IsSorted-Ge e (f ∷ rows) ids k n (le, s) order (at, h) =
    let (m, next, far) = At-Ge ids k f at in
    let step : n ≤ m = row_le-pos e f n m order next le in
    ((m, next, step), Ge-weaken n m step rows (IsSorted-Ge f rows ids k m s next h))

not_there :
    (id : String) (ids : List String) (k n : ℕ) (rows : List KeyEntryRow)
    → contains id ids ≡ false
    → suc k ≤ n
    → All (At (id ∷ ids) k) rows
    → All (Ge n) rows
    → contains id (map id_of rows) ≡ false
unfolding contains
not_there id ids k n [] out above h g = refl
not_there id ids k n (e ∷ rows) out above (inl (same, order), h) ((m, is_m, far), g) =
    absurd (ground (arith, order, is_m, above, far))
not_there id ids k n (e ∷ rows) out above (inr at, h) (_, g) =
    ground
      (arith, At-contains ids (suc k) e at, eq_iff e.id id, not_there id ids k n rows out above h g)

At-rest :
    (id : String) (ids : List String) (k : ℕ) (rows : List KeyEntryRow)
    → contains id (map id_of rows) ≡ false
    → All (At (id ∷ ids) k) rows
    → All (At ids (suc k)) rows
unfolding contains
At-rest id ids k [] out h = tt
At-rest id ids k (e ∷ rows) out (inl (same, order), h) = absurd (ground (arith, eq_iff e.id id))
At-rest id ids k (e ∷ rows) out (inr at, h) = (at, At-rest id ids k rows (ground arith) h)

At-IsWithin :
    (ids : List String) (k : ℕ) (rows : List KeyEntryRow)
    → All (At ids k) rows
    → IsWithin ids (map id_of rows)
unfolding any
At-IsWithin ids k [] h = refl
At-IsWithin ids k (e ∷ rows) (at, h) = rw (At-contains ids k e at) (At-IsWithin ids k rows h)

IsSorted-rest : (e : KeyEntryRow) (rows : List KeyEntryRow) → IsSorted (e ∷ rows) → IsSorted rows
IsSorted-rest e [] s = tt
IsSorted-rest e (f ∷ rows) (le, s) = s

-- the first of a sorted list has the first id
first_id :
    (id : String) (ids : List String) (k : ℕ) (e : KeyEntryRow) (rows : List KeyEntryRow)
    → distinct (id ∷ ids) ≡ true
    → distinct (map id_of (e ∷ rows)) ≡ true
    → length ids ≡ length rows
    → IsSorted (e ∷ rows)
    → All (At (id ∷ ids) k) (e ∷ rows)
    → e.id ≡ id
unfolding distinct contains
first_id id ids k e rows d unique len s (inl (same, order), h) = same
first_id id ids k e rows d unique len s (inr at, h) =
    let (n, order, above) = At-Ge ids (suc k) e at in
    let far = IsSorted-Ge e rows (id ∷ ids) k n s order h in
    let absent =
      not_there id ids k n (e ∷ rows) (ground (arith, d)) above (inr at, h)
        ((n, order, omega arith), far) in
    let there =
      IsWithin-covers (map id_of (e ∷ rows)) (id ∷ ids) id unique
        (At-IsWithin (id ∷ ids) k (e ∷ rows) (inr at, h)) (omega (arith, len, length-map_id rows))
        (rw (eq_refl id) refl) in
    absurd (cc)

pub map_id-sorted :
    (ids : List String) (k : ℕ) (rows : List KeyEntryRow)
    → distinct ids ≡ true
    → distinct (map id_of rows) ≡ true
    → length ids ≡ length rows
    → IsSorted rows
    → All (At ids k) rows
    → map id_of rows ≡ ids
unfolding distinct
map_id-sorted [] k [] d unique len s h = refl
map_id-sorted [] k (e ∷ rows) d unique len s h = absurd (omega arith)
map_id-sorted (id ∷ ids) k [] d unique len s h = absurd (omega arith)
map_id-sorted (id ∷ ids) k (e ∷ rows) d unique len s h =
    let same = first_id id ids k e rows d unique (omega (arith, len)) s h in
    let gone : contains id (map id_of rows) ≡ false = ground (arith, unique, same) in
    rw
      (
        same,
        map_id-sorted ids (suc k) rows (ground (arith, d)) (ground (arith, unique))
            (omega (arith, len)) (IsSorted-rest e rows s) (At-rest id ids k rows gone h.1),
      )
      refl

-- ===== src/Web/EntryOrder/Moves.antt =====
-- apps/web/src/lib/key-entry-order.ts, moveVisibleEntry and dropVisibleEntry: one entry of the
-- filtered list takes another place.
use key_page.Prelude.{
  ℕ, zero, suc, ◌+◌, ◌-◌, String, Option, none, some, List, [], ◌∷◌, ◌==◌, leb, length,
  if◌then◌else◌,
}
use key_page.Web.EntryOrder.{apply_visible_reorder}

-- `delta`, by its sign
pub data Delta : Type 0 where
  up down : ℕ → Delta

abbrev pub later : Option ℕ → Option ℕ
later none = none
later (some i) = some (suc i)

-- `indexOf`, where `none` is -1
unfoldable pub index_of : String → List String → Option ℕ
index_of id [] = none
index_of id (x ∷ xs) = if x == id then some 0 else later (index_of id xs)

-- `splice(from, 1)`: what it returns, and what it leaves
unfoldable pub splice_out : ℕ → List String → Option (String × List String)
splice_out i [] = none
splice_out zero (x ∷ xs) = some (x, xs)
splice_out (suc i) (x ∷ xs) = elim (splice_out i xs) [
  | none ↦ none
  | some found ↦ some (found.0, x ∷ found.1)
]

-- `splice(to, 0, moved)`, at the end if `to` is beyond it
unfoldable pub splice_in : ℕ → String → List String → List String
splice_in i moved [] = moved ∷ []
splice_in zero moved (x ∷ xs) = moved ∷ x ∷ xs
splice_in (suc i) moved (x ∷ xs) = x ∷ splice_in i moved xs

-- the end that both functions have
unfoldable pub place_at : (all_ids visible : List String) (from to : ℕ) → List String
place_at all_ids visible from to = elim (splice_out from visible) [
  | none ↦ all_ids
  | some found ↦ apply_visible_reorder all_ids visible (splice_in to found.0 found.1)
]

-- `from + delta`, where `none` is below 0
unfoldable pub target : ℕ → Delta → Option ℕ
target from (down n) = some (from + n)
target from (up n) = if leb n from then some (from - n) else none

unfoldable pub move_to : (all_ids visible : List String) (from : ℕ) → Option ℕ → List String
move_to all_ids visible from none = all_ids
move_to all_ids visible from (some to) =
    if leb (length visible) to then all_ids else place_at all_ids visible from to

-- moveVisibleEntry
unfoldable pub move_visible_entry :
    (all_ids visible : List String) (id : String) → Delta → List String
move_visible_entry all_ids visible id delta = elim (index_of id visible) [
  | none ↦ all_ids
  | some from ↦ move_to all_ids visible from (target from delta)
]

unfoldable pub drop_at : (all_ids visible : List String) → (from to : Option ℕ) → List String
drop_at all_ids visible (some from) (some to) = place_at all_ids visible from to
drop_at all_ids visible (some from) none = all_ids
drop_at all_ids visible none to = all_ids

-- dropVisibleEntry
unfoldable pub drop_visible_entry :
    (all_ids visible : List String) (dragged_id target_id : String) → List String
drop_visible_entry all_ids visible dragged_id target_id =
    if dragged_id == target_id
    then all_ids
    else drop_at all_ids visible (index_of dragged_id visible) (index_of target_id visible)

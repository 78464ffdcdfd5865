-- ===== src/Web/EntryOrder.antt =====
-- apps/web/src/lib/key-entry-order.ts, applyVisibleReorder: a filtered list was put in a new order,
-- and the whole list takes it over.
pub mod Laws
pub mod Moves
pub mod Placed
use key_page.Prelude.{
  ℕ, String, Bool, true, false, not, ◌||◌, ◌=ℕ◌, List, [], ◌∷◌, length, if◌then◌else◌,
}
use key_page.Tables.{any, contains, distinct}

-- `nextVisible[cursor] ?? id`, and the ids from the cursor on
unfoldable pub next_or : List String → String → String
next_or [] id = id
next_or (n ∷ next) id = n

unfoldable pub rest : List String → List String
rest [] = []
rest (n ∷ next) = next

-- `allIds.map`, with the new order from the cursor on
unfoldable pub fill : (visible next ids : List String) → List String
fill visible next [] = []
fill visible next (id ∷ ids) =
    if contains id visible
    then next_or next id ∷ fill visible (rest next) ids
    else id ∷ fill visible next ids

-- the conditions under which the new order is not taken
unfoldable pub is_refused : (all_ids visible next : List String) → Bool
is_refused all_ids visible next =
    not (length visible =ℕ length next)
    || not (distinct visible)
    || any (λ id. not (contains id all_ids)) visible
    || any (λ id. not (contains id visible)) next

-- applyVisibleReorder
unfoldable pub apply_visible_reorder : (all_ids visible next : List String) → List String
apply_visible_reorder all_ids visible next =
    if is_refused all_ids visible next then all_ids else fill visible next all_ids

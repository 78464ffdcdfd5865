-- ===== src/Keys/Repo/Reorder.antt =====
-- reorderKeyEntries and listKeyEntries: the list after a change of the order.
pub mod Loop
pub mod First
use key_page.Prelude.{
  ℕ, zero, suc, ◌+◌, ◌≤◌, ◌≡◌, refl, sym, ap, ◌∙◌, String, Bool, true, false, not, ◌||◌, ◌⊎◌, ◌&&◌,
  inl, inr, Bool-cases, List, [], ◌∷◌, map, length, arith, ◌==◌, eq_iff,
}
use text.Mathlib.TextPositions.{eq_refl}
use key_page.Tables.{All, any, contains, distinct, update}
use key_page.Tables.Laws.{map-update}
use key_page.Tables.Subset.{IsWithin, IsWithin-covers}
use key_page.Db.Rows.{Db, KeyEntryRow, ℤ, pos, negsuc}
use key_page.Db.Action.{ok}
use key_page.Keys.Order.{ltℤ, eqℤ, row_le, sort_rows}
use key_page.Keys.Order.Ids.{
  id_of, contains-sort_rows, distinct-sort_rows, length-sort_rows, All-sort_rows,
}
use key_page.Keys.Order.Sorted.{IsSorted, sort_rows-IsSorted}
use key_page.Keys.Repo.{
  list_key_entries, list_key_entry_ids, set_orders, is_permutation, reorder_key_entries,
}
use key_page.Keys.Repo.Reorder.Loop.{
  At, Waits, set_orders-Waits, map_id-set_orders, covered, settled,
}
use key_page.Keys.Repo.Reorder.First.{map_id-sorted, length-map_id}

-- the sorted rows after the loop, where the ids are those of the rows
sort-set_orders :
    (ids : List String) (rows : List KeyEntryRow)
    → distinct (map id_of rows) ≡ true
    → is_permutation ids (map id_of rows) ≡ true
    → map id_of (sort_rows (set_orders ids 0 rows)) ≡ ids
unfolding is_permutation
sort-set_orders ids rows unique e =
    let d : distinct ids ≡ true = ground arith in
    let within : IsWithin (map id_of rows) ids = ground arith in
    let len : length ids ≡ length (map id_of rows) = ground arith in
    let all_there =
      covered ids rows
        (λ k. IsWithin-covers ids (map id_of rows) k d within (omega (arith, len))) in
    let placed = set_orders ids 0 rows in
    let same_ids = map_id-set_orders ids 0 rows in
    let at = settled ids 0 placed (set_orders-Waits (λ e. false ≡ true) ids 0 rows d all_there) in
    map_id-sorted ids 0 (sort_rows placed) d
      (distinct-sort_rows placed (ap distinct same_ids ∙ unique))
      (len ∙ ap length (sym same_ids) ∙ length-map_id placed ∙ sym (length-sort_rows placed))
      (sort_rows-IsSorted placed) (All-sort_rows (At ids 0) placed at)

is_permutation-fits :
    (ids existing : List String)
    → distinct ids ≡ true
    → length ids ≡ length existing
    → IsWithin existing ids
    → is_permutation ids existing ≡ true
unfolding is_permutation
is_permutation-fits ids existing once len within = ground arith

-- Where no two key entries share an id, a change of the order to all of their ids, each once, returns;
-- the list that it answers, and the list of the database that it leaves, has the ids in the order of
-- the request.
pub reorder_key_entries-list :
    (ids : List String) (db : Db)
    → distinct (list_key_entry_ids db) ≡ true
    → distinct ids ≡ true
    → length ids ≡ length (list_key_entry_ids db)
    → any (λ id. not (contains id (list_key_entry_ids db))) ids ≡ false
    → let (result, db') = reorder_key_entries ids db in
      (result ≡ ok (list_key_entries db')) × (map (λ e. e.id) (list_key_entries db') ≡ ids)
unfolding reorder_key_entries list_key_entry_ids list_key_entries key_page.Db.Action.throw_if
reorder_key_entries-list ids db unique once len within =
    let fits : is_permutation ids (map id_of db.key_entries) ≡ true =
      is_permutation-fits ids (map id_of db.key_entries) once len within in
    rw fits (refl, sort-set_orders ids db.key_entries unique fits)

-- ===== src/Web/EntryOrder/Placed.antt =====
-- Where a dragged entry is after it was dropped.
use key_page.Prelude.{
  ℕ, zero, suc, ◌≤◌, ◌≡◌, refl, ap, String, Bool, true, false, not, Option, none, some, List, [],
  ◌∷◌, length, arith, Bool-cases, inl, inr, eq_iff, ◌==◌, if◌then◌else◌,
}
use text.Mathlib.TextPositions.{eq_refl}
use key_page.Tables.{any, contains, distinct}
use key_page.Web.EntryOrder.{is_refused, apply_visible_reorder}
use key_page.Web.EntryOrder.Laws.{shown, hidden, shown-apply_visible_reorder}
use key_page.Web.EntryOrder.Moves.{
  later, index_of, splice_out, splice_in, place_at, drop_at, drop_visible_entry,
}

-- a list less the first of an id
unfoldable pub without : String → List String → List String
without id [] = []
without id (x ∷ xs) = if x == id then xs else x ∷ without id xs

length-splice_in :
    (to : ℕ) (m : String) (xs : List String) → length (splice_in to m xs) ≡ suc (length xs)
unfolding splice_in
length-splice_in to m [] = refl
length-splice_in zero m (x ∷ xs) = refl
length-splice_in (suc to) m (x ∷ xs) = ap suc (length-splice_in to m xs)

any-splice_in :
    (p : String → Bool) (to : ℕ) (m : String) (xs : List String)
    → p m ≡ false
    → any p xs ≡ false
    → any p (splice_in to m xs) ≡ false
unfolding splice_in any
any-splice_in p to m [] pm e = ground arith
any-splice_in p zero m (x ∷ xs) pm e = ground arith
any-splice_in p (suc to) m (x ∷ xs) pm e = ground (arith, any-splice_in p to m xs pm)

any-without :
    (p : String → Bool) (id : String) (xs : List String)
    → any p xs ≡ false
    → any p (without id xs) ≡ false
unfolding without any
any-without p id [] e = refl
any-without p id (x ∷ xs) e = ground (arith, any-without p id xs)

later-some : (o : Option ℕ) (i : ℕ) → later o ≡ some i → (j : ℕ) × (o ≡ some j) × (i ≡ suc j)
later-some none i e = absurd (ground arith)
later-some (some j) i e = (j, refl, ground arith)

-- what an id's index says of the list
record Found (id : String) (xs : List String) (i : ℕ) : Type 0 where
  taken : splice_out i xs ≡ some (id, without id xs)
  left : length xs ≡ suc (length (without id xs))
  below : suc i ≤ length xs

index_of-Found : (id : String) (xs : List String) (i : ℕ) → index_of id xs ≡ some i → Found id xs i
unfolding index_of splice_out without
index_of-Found id [] i e = absurd (ground arith)
index_of-Found id (x ∷ xs) i e = elim (Bool-cases (x == id)) [
  | inl same ↦
      let at_start : i ≡ 0 = ground arith in
      record {
        taken = rw (at_start, same) (ap (λ y. some (y, xs)) ((eq_iff x id).0 same));
        left = rw same refl;
        below = omega (arith, at_start);
      }
  | inr differs ↦
      let (j, found, i_is) = later-some (index_of id xs) i (rw differs at e) in
      let before = index_of-Found id xs j found in
      record {
        taken = rw (i_is, differs, before.taken) refl;
        left = rw differs (ap suc before.left);
        below = omega (arith, before.below, i_is);
      }
]

contains-without :
    (id : String) (xs : List String) → distinct xs ≡ true → contains id (without id xs) ≡ false
unfolding contains without distinct
contains-without id [] d = refl
contains-without id (x ∷ xs) d = elim (Bool-cases (x == id)) [
  | inl same ↦ ground (arith, eq_iff x id)
  | inr differs ↦ ground (arith, contains-without id xs)
]

-- an id at a place of a list where it was not
index_of-splice_in :
    (i : ℕ) (id : String) (xs : List String)
    → contains id xs ≡ false
    → i ≤ length xs
    → (index_of id (splice_in i id xs) ≡ some i) × (without id (splice_in i id xs) ≡ xs)
unfolding index_of splice_in without contains
index_of-splice_in zero id [] out le = rw (eq_refl id) (refl, refl)
index_of-splice_in (suc i) id [] out le = absurd (omega arith)
index_of-splice_in zero id (x ∷ xs) out le = rw (eq_refl id) (refl, refl)
index_of-splice_in (suc i) id (x ∷ xs) out le = ground (arith, index_of-splice_in i id xs)

any-not-contains :
    (ys xs : List String)
    → ((id : String) → contains id ys ≡ true → contains id xs ≡ true)
    → any (λ id. not (contains id xs)) ys ≡ false
unfolding any contains
any-not-contains [] xs sub = refl
any-not-contains (y ∷ ys) xs sub =
    let here : contains y xs ≡ true = sub y (rw (eq_refl y) refl) in
    rw here (any-not-contains ys xs λ id there. sub id (ground arith))

contains_of_index :
    (id : String) (xs : List String) (i : ℕ) → index_of id xs ≡ some i → contains id xs ≡ true
unfolding index_of contains
contains_of_index id [] i e = absurd (ground arith)
contains_of_index id (x ∷ xs) i e = elim (Bool-cases (x == id)) [
  | inl same ↦ rw same refl
  | inr differs ↦
      let (j, found, i_is) = later-some (index_of id xs) i (rw differs at e) in
      rw (differs, contains_of_index id xs j found) refl
]

module _ (all_ids visible : List String) where
  placed-is_refused :
      (id : String) (from to : ℕ)
      → distinct visible ≡ true
      → any (λ v. not (contains v all_ids)) visible ≡ false
      → index_of id visible ≡ some from
      → is_refused all_ids visible (splice_in to id (without id visible)) ≡ false
  unfolding is_refused
  placed-is_refused id from to once listed found =
      let known : not (contains id visible) ≡ false =
        ap not (contains_of_index id visible from found) in
      let others =
        any-without (λ v. not (contains v visible)) id visible
          (any-not-contains visible visible λ v e. e) in
      let inside = any-splice_in (λ v. not (contains v visible)) to id _ known others in
      ground (
        arith,
        once,
        listed,
        inside,
        length-splice_in to id (without id visible),
        (index_of-Found id visible from found).left,
      )

  drop_visible_entry-reorders :
      (dragged target : String) (from to : ℕ)
      → index_of dragged visible ≡ some from
      → index_of target visible ≡ some to
      → (dragged == target) ≡ false
      → drop_visible_entry all_ids visible dragged target
        ≡ apply_visible_reorder all_ids visible (splice_in to dragged (without dragged visible))
  unfolding drop_visible_entry drop_at place_at
  drop_visible_entry-reorders dragged target from to found aim differ =
      rw (differ, found, aim)
        (ap
          (λ out. elim out [
            | none ↦ all_ids
            | some f ↦ apply_visible_reorder all_ids visible (splice_in to f.0 f.1)
          ])
          (index_of-Found dragged visible from found).taken)

  -- A visible entry that is dropped on another one, where no two visible ids are the same and each
  -- is in the list once: it takes the place that the other one had among the visible, the order of
  -- the rest of the visible stays, and so do the hidden ids.
  pub drop_visible_entry-places :
      distinct visible ≡ true
      → any (λ v. not (contains v all_ids)) visible ≡ false
      → length (shown visible all_ids) ≡ length visible
      → (dragged target : String) (from to : ℕ) → index_of dragged visible ≡ some from
      → index_of target visible ≡ some to
      → (dragged == target) ≡ false
      → let result = drop_visible_entry all_ids visible dragged target in
        (index_of dragged (shown visible result) ≡ some to)
        × (without dragged (shown visible result) ≡ without dragged visible)
        × (hidden visible result ≡ hidden visible all_ids)
  drop_visible_entry-places once listed len dragged target from to found aim differ =
      let from_found = index_of-Found dragged visible from found in
      let aim_found = index_of-Found target visible to aim in
      let next = splice_in to dragged (without dragged visible) in
      let (seen, unseen) =
        shown-apply_visible_reorder visible all_ids next
          (placed-is_refused dragged from to once listed found)
          (omega
            (arith, len, length-splice_in to dragged (without dragged visible), from_found.left)) in
      let (at, rest) =
        index_of-splice_in to dragged (without dragged visible)
          (contains-without dragged visible once)
          (omega (arith, aim_found.below, from_found.left)) in
      rw (drop_visible_entry-reorders dragged target from to found aim differ, seen)
        (at, rest, unseen)

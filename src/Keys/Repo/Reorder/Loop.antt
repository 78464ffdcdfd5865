-- ===== src/Keys/Repo/Reorder/Loop.antt =====
-- The loop of reorderKeyEntries: the order that every row has after it.
use key_page.Prelude.{
  ℕ, suc, ◌≤◌, ◌≡◌, refl, ◌∙◌, String, true, false, ◌⊎◌, inl, inr, Bool-cases, List, [], ◌∷◌, map,
  arith, ◌==◌, eq_iff,
}
use text.Mathlib.TextPositions.{eq_refl}
use key_page.Tables.{All, contains, distinct, update}
use key_page.Tables.Laws.{map-update}
use key_page.Db.Rows.{KeyEntryRow, pos}
use key_page.Keys.Order.Ids.{id_of}
use key_page.Keys.Repo.{set_orders}

-- the row has the order of its id in the list, counted from `k`
abbrev pub At : List String → ℕ → KeyEntryRow → Type 0
At [] k e = false ≡ true
At (id ∷ ids) k e = ((e.id ≡ id) × (e.sort_order ≡ pos k)) ⊎ At ids (suc k) e

-- the row has an order of at least `k`
abbrev pub Ge : ℕ → KeyEntryRow → Type 0
Ge k e = (n : ℕ) × (e.sort_order ≡ pos n) × (k ≤ n)

pub At-contains :
    (ids : List String) (k : ℕ) (e : KeyEntryRow) → At ids k e → contains e.id ids ≡ true
unfolding contains
At-contains [] k e h = cc
At-contains (id ∷ ids) k e (inl h) = ground (arith, eq_iff id e.id)
At-contains (id ∷ ids) k e (inr h) = ground (arith, At-contains ids (suc k) e h)

pub At-Ge : (ids : List String) (k : ℕ) (e : KeyEntryRow) → At ids k e → Ge k e
At-Ge [] k e h = absurd (ground arith)
At-Ge (id ∷ ids) k e (inl h) = (k, h.1, omega arith)
At-Ge (id ∷ ids) k e (inr h) = let (n, order, le) = At-Ge ids (suc k) e h in (n, order, omega arith)

-- settled by the loop so far, or still to come
abbrev pub Waits : (KeyEntryRow → Type 0) → List String → KeyEntryRow → Type 0
Waits S ids e = (S e × (contains e.id ids ≡ false)) ⊎ (contains e.id ids ≡ true)

update-Waits :
    (S : KeyEntryRow → Type 0) (id : String) (ids : List String) (k : ℕ) (rows : List KeyEntryRow)
    → contains id ids ≡ false
    → All (Waits S (id ∷ ids)) rows
    → All
        (Waits (λ e. S e ⊎ ((e.id ≡ id) × (e.sort_order ≡ pos k))) ids)
        (update (λ e. e.id == id) (λ e. record e { sort_order = pos k }) rows)
unfolding update contains
update-Waits S id ids k [] out h = tt
update-Waits S id ids k (e ∷ rows) out (w, h) = (
  elim (Bool-cases (e.id == id)) [
    | inl same ↦
        let is_id = (eq_iff e.id id).0 same in rw same (inl (inr (is_id, refl), rw is_id out))
    | inr other ↦ rw other (elim w [
      | inl (s, absent) ↦ inl (inl s, ground arith)
      | inr listed ↦ inr (ground (arith, eq_iff id e.id, eq_iff e.id id))
    ])
  ],
  update-Waits S id ids k rows out h,
)

pub set_orders-Waits :
    (S : KeyEntryRow → Type 0) (ids : List String) (k : ℕ) (rows : List KeyEntryRow)
    → distinct ids ≡ true
    → All (Waits S ids) rows
    → All (λ e. S e ⊎ At ids k e) (set_orders ids k rows)
unfolding set_orders contains distinct
set_orders-Waits S [] k rows d h = settled rows h
  where
    settled : (rows : List KeyEntryRow) → All (Waits S []) rows → All (λ e. S e ⊎ At [] k e) rows
    settled [] h = tt
    settled (e ∷ rows) (inl w, h) = (inl w.0, settled rows h)
    settled (e ∷ rows) (inr w, h) = cc
set_orders-Waits S (id ∷ ids) k rows d h =
    let T : KeyEntryRow → Type 0 = λ e. S e ⊎ ((e.id ≡ id) × (e.sort_order ≡ pos k)) in
    regroup _ (
      set_orders-Waits T ids (suc k) _ (ground arith)
        (update-Waits S id ids k rows (ground arith) h))
  where
    regroup :
        (rows : List KeyEntryRow)
        → All (λ e. (S e ⊎ ((e.id ≡ id) × (e.sort_order ≡ pos k))) ⊎ At ids (suc k) e) rows
        → All (λ e. S e ⊎ At (id ∷ ids) k e) rows
    regroup [] h = tt
    regroup (e ∷ rows) (inl (inl s), h) = (inl s, regroup rows h)
    regroup (e ∷ rows) (inl (inr s), h) = (inr (inl s), regroup rows h)
    regroup (e ∷ rows) (inr s, h) = (inr (inr s), regroup rows h)

pub map_id-set_orders :
    (ids : List String) (k : ℕ) (rows : List KeyEntryRow)
    → map id_of (set_orders ids k rows) ≡ map id_of rows
unfolding set_orders
map_id-set_orders [] k rows = refl
map_id-set_orders (id ∷ ids) k rows =
    map_id-set_orders ids (suc k) _
    ∙ map-update id_of (λ e. e.id == id) (λ e. record e { sort_order = pos k }) rows (λ e. refl)

pub covered :
    (ids : List String) (rows : List KeyEntryRow)
    → ((k : String) → contains k (map id_of rows) ≡ true → contains k ids ≡ true)
    → All (Waits (λ e. false ≡ true) ids) rows
unfolding contains
covered ids [] h = tt
covered ids (e ∷ rows) h =
    (inr (h e.id (rw (eq_refl e.id) refl)), covered ids rows λ k there. h k (ground arith))

pub settled :
    (ids : List String) (k : ℕ) (rows : List KeyEntryRow)
    → All (λ e. (false ≡ true) ⊎ At ids k e) rows
    → All (At ids k) rows
settled ids k [] h = tt
settled ids k (e ∷ rows) (inl never, h) = cc
settled ids k (e ∷ rows) (inr at, h) = (at, settled ids k rows h)

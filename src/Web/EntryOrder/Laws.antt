-- ===== src/Web/EntryOrder/Laws.antt =====
-- What the whole list is after the visible part was put in a new order.
use key_page.Prelude.{
  ◌≡◌, refl, String, false, not, List, [], ◌∷◌, length, arith, Bool-cases, inl, inr,
}
use key_page.Tables.{any, contains, select}
use key_page.Web.EntryOrder.{next_or, rest, fill, is_refused, apply_visible_reorder}

-- the ids of a list that are visible, and those that are not
abbrev pub shown : List String → List String → List String
shown visible ids = select (λ id. contains id visible) ids

abbrev pub hidden : List String → List String → List String
hidden visible ids = select (λ id. not (contains id visible)) ids

module _ (visible : List String) where
  shown-fill :
      (ids next : List String)
      → any (λ id. not (contains id visible)) next ≡ false
      → length (shown visible ids) ≡ length next
      → (shown visible (fill visible next ids) ≡ next)
        × (hidden visible (fill visible next ids) ≡ hidden visible ids)
  unfolding fill select any next_or rest
  shown-fill [] [] inside len = (refl, refl)
  shown-fill [] (n ∷ next) inside len = absurd (omega arith)
  shown-fill (id ∷ ids) [] inside len = elim (Bool-cases (contains id visible)) [
    | inl v ↦ absurd (ground arith)
    | inr v ↦ ground (arith, shown-fill ids [] inside)
  ]
  shown-fill (id ∷ ids) (n ∷ next) inside len = elim (Bool-cases (contains id visible)) [
    | inl v ↦ ground (arith, shown-fill ids next)
    | inr v ↦ ground (arith, shown-fill ids (n ∷ next) inside)
  ]

  inside :
      (all_ids next : List String)
      → is_refused all_ids visible next ≡ false
      → any (λ id. not (contains id visible)) next ≡ false
  unfolding is_refused
  inside all_ids next e = ground arith

  -- A new order of the visible ids that is not refused, where as many ids of the list are visible as
  -- the new order has, becomes the order of the visible part, and the hidden ids stay as they are.
  pub shown-apply_visible_reorder :
      (all_ids next : List String)
      → is_refused all_ids visible next ≡ false
      → length (shown visible all_ids) ≡ length next
      → let result = apply_visible_reorder all_ids visible next in
        (shown visible result ≡ next) × (hidden visible result ≡ hidden visible all_ids)
  unfolding apply_visible_reorder
  shown-apply_visible_reorder all_ids next taken len =
      rw taken (shown-fill all_ids next (inside all_ids next taken) len)

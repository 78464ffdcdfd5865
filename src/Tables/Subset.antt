-- ===== src/Tables/Subset.antt =====
-- Lists of texts without repetition, and how many others they can be among.
use key_page.Prelude.{
  suc, ◌≤◌, ◌≡◌, refl, String, true, false, not, List, [], ◌∷◌, length, arith, Bool-cases, inl, inr,
  ◌==◌, eq_iff,
}
use key_page.Tables.{any, contains, delete, distinct}

-- every text of `xs` is in `ys`
abbrev pub IsWithin : List String → List String → Type 0
IsWithin ys xs = any (λ x. not (contains x ys)) xs ≡ false

length-delete-le : (k : String) (xs : List String) → length (delete (λ x. x == k) xs) ≤ length xs
unfolding delete
length-delete-le k [] = omega arith
length-delete-le k (x ∷ xs) = ground (arith, length-delete-le k xs)

length-delete-lt :
    (k : String) (xs : List String)
    → contains k xs ≡ true
    → suc (length (delete (λ x. x == k) xs)) ≤ length xs
unfolding delete contains
length-delete-lt k [] h = absurd (ground arith)
length-delete-lt k (x ∷ xs) h = ground (arith, length-delete-lt k xs, length-delete-le k xs)

contains-delete-other :
    (k y : String) (xs : List String)
    → (y == k) ≡ false
    → contains y xs ≡ true
    → contains y (delete (λ x. x == k) xs) ≡ true
unfolding delete contains
contains-delete-other k y [] differs h = h
contains-delete-other k y (x ∷ xs) differs h = elim (Bool-cases (x == k)) [
  | inl same ↦
      rw same
        (contains-delete-other k y xs differs (ground (arith, eq_iff x k, eq_iff x y, eq_iff y k)))
  | inr other ↦ rw other (ground (arith, contains-delete-other k y xs differs))
]

delete-IsWithin :
    (k : String) (ys xs : List String)
    → contains k xs ≡ false
    → IsWithin ys xs
    → IsWithin (delete (λ y. y == k) ys) xs
unfolding any contains
delete-IsWithin k ys [] out h = refl
delete-IsWithin k ys (x ∷ xs) out h =
    let here : contains x (delete (λ y. y == k) ys) ≡ true =
      contains-delete-other k x ys (ground arith) (ground arith) in
    rw here (delete-IsWithin k ys xs (ground arith) (ground arith))

IsWithin-le : (xs ys : List String) → distinct xs ≡ true → IsWithin ys xs → length xs ≤ length ys
unfolding distinct any
IsWithin-le [] ys d h = omega arith
IsWithin-le (x ∷ xs) ys d h =
    let rest =
      IsWithin-le xs (delete (λ y. y == x) ys) (ground arith)
        (delete-IsWithin x ys xs (ground arith) (ground arith)) in
    let less = length-delete-lt x ys (ground arith) in omega (arith, rest, less)

-- As many different texts of a list as it is long are all of it.
pub IsWithin-covers :
    (xs ys : List String) (k : String)
    → distinct xs ≡ true
    → IsWithin ys xs
    → length ys ≤ length xs
    → contains k ys ≡ true
    → contains k xs ≡ true
IsWithin-covers xs ys k d h len listed = elim (Bool-cases (contains k xs)) [
  | inl there ↦ there
  | inr missing ↦
      let rest = IsWithin-le xs (delete (λ y. y == k) ys) d (delete-IsWithin k ys xs missing h) in
      let less = length-delete-lt k ys listed in absurd (omega (arith, rest, less, len))
]

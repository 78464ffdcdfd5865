-- ===== src/Tables/Laws.antt =====
-- Laws of the table operations.
use key_page.Prelude.{
  String, map, ◌==◌, ◌≤◌, ◌≡◌, refl, Bool, true, false, none, List, [], ◌∷◌, arith,
}
use key_page.Tables.{contains, distinct, find, any, count, delete, update, All}

module _ {ℓ κ} {A : Type ℓ} (P : A → Type κ) where
  pub delete-All : (p : A → Bool) (xs : List A) → All P xs → All P (delete p xs)
  unfolding delete
  delete-All p [] h = tt
  delete-All p (x ∷ xs) h = ground (arith, delete-All p xs h.1)

  pub update-All :
      (p : A → Bool) (f : A → A) (xs : List A)
      → ((x : A) → P x → P (f x))
      → All P xs
      → All P (update p f xs)
  unfolding update
  update-All p f [] keep h = tt
  update-All p f (x ∷ xs) keep h = (ground (arith, keep x h.0), update-All p f xs keep h.1)

module _ {ℓ} {A : Type ℓ} where
  pub count-delete-le : (p q : A → Bool) (xs : List A) → count p (delete q xs) ≤ count p xs
  unfolding count delete
  count-delete-le p q [] = omega arith
  count-delete-le p q (x ∷ xs) = ground (arith, count-delete-le p q xs)

  -- what a deletion removed is not found, nor what implies it
  pub find-delete :
      (p q : A → Bool) (xs : List A)
      → ((x : A) → p x ≡ true → q x ≡ true)
      → find p (delete q xs) ≡ none
  unfolding find delete
  find-delete p q [] imp = refl
  find-delete p q (x ∷ xs) imp = ground (arith, imp x, find-delete p q xs imp)

  pub find_of_any-false :
      (p q : A → Bool) (xs : List A)
      → ((x : A) → p x ≡ true → q x ≡ true)
      → any q xs ≡ false
      → find p xs ≡ none
  unfolding find any
  find_of_any-false p q [] imp h = refl
  find_of_any-false p q (x ∷ xs) imp h = ground (arith, imp x, find_of_any-false p q xs imp)

  -- an update that leaves a field alone leaves its column alone
  pub map-update {κ} :
      {B : Type κ} (g : A → B) (p : A → Bool) (f : A → A) (xs : List A)
      → ((x : A) → g (f x) ≡ g x)
      → map g (update p f xs) ≡ map g xs
  unfolding update
  map-update g p f [] keep = refl
  map-update g p f (x ∷ xs) keep = ground (arith, keep x, map-update g p f xs keep)

  pub any-contains :
      (g : A → String) (k : String) (xs : List A) → any (λ x. g x == k) xs ≡ contains k (map g xs)
  unfolding any contains
  any-contains g k [] = refl
  any-contains g k (x ∷ xs) = ground (arith, any-contains g k xs)

  contains-delete :
      (g : A → String) (k : String) (p : A → Bool) (xs : List A)
      → contains k (map g xs) ≡ false
      → contains k (map g (delete p xs)) ≡ false
  unfolding contains delete
  contains-delete g k p [] h = refl
  contains-delete g k p (x ∷ xs) h = ground (arith, contains-delete g k p xs)

  pub distinct-delete :
      (g : A → String) (p : A → Bool) (xs : List A)
      → distinct (map g xs) ≡ true
      → distinct (map g (delete p xs)) ≡ true
  unfolding distinct delete
  distinct-delete g p [] h = refl
  distinct-delete g p (x ∷ xs) h =
      ground (arith, distinct-delete g p xs, contains-delete g (g x) p xs)

  -- a deletion of every row leaves none
  pub delete-eq-nil : (p : A → Bool) (xs : List A) → All (λ x. p x ≡ true) xs → delete p xs ≡ []
  unfolding delete
  delete-eq-nil p [] h = refl
  delete-eq-nil p (x ∷ xs) h = ground (arith, delete-eq-nil p xs h.1)

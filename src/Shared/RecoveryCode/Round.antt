-- ===== src/Shared/RecoveryCode/Round.antt =====
-- A recovery code that is written in groups reads back.
use key_page.Prelude.{
  ℕ, zero, suc, ◌+◌, ◌≡◌, refl, sym, ap, ◌∙◌, true, Option, none, some, List, [], ◌∷◌, ◌++◌, ◌=ℕ◌,
  length, arith, Bool-cases, inl, inr,
}
use native.Mathlib.Numerals.{unary_clauses}
use key_page.Tables.{all}
use key_page.Shared.RecoveryCode.{
  in_alphabet, is_alphanumeric, map_crockford_char, strip, cons_if, map_all, take, drop,
  format_recovery_code, normalize_recovery_code,
}

strip-all : (cs : List ℕ) → all in_alphabet cs ≡ true → strip cs ≡ cs
unfolding strip all in_alphabet is_alphanumeric
strip-all [] h = refl
strip-all (c ∷ cs) h = ground (arith, h, strip-all cs)

strip-append : (a b : List ℕ) → all in_alphabet a ≡ true → strip (a ++ b) ≡ a ++ strip b
unfolding strip all in_alphabet is_alphanumeric
strip-append [] b h = refl
strip-append (c ∷ a) b h = ground (arith, h, strip-append a b)

all-take : (n : ℕ) (cs : List ℕ) → all in_alphabet cs ≡ true → all in_alphabet (take n cs) ≡ true
unfolding all take
all-take zero cs h = refl
all-take (suc n) [] h = refl
all-take (suc n) (c ∷ cs) h = ground (arith, h, all-take n cs)

all-drop : (n : ℕ) (cs : List ℕ) → all in_alphabet cs ≡ true → all in_alphabet (drop n cs) ≡ true
unfolding all drop
all-drop zero cs h = h
all-drop (suc n) [] h = refl
all-drop (suc n) (c ∷ cs) h = ground (arith, h, all-drop n cs)

take-add : (m n : ℕ) (cs : List ℕ) → take m cs ++ take n (drop m cs) ≡ take (m + n) cs
unfolding take drop
take-add zero n cs = let e : n ≡ 0 + n = omega arith in ap (λ x. take x cs) e
take-add (suc m) zero [] = simp unary_clauses refl
take-add (suc m) (suc n) [] = simp unary_clauses refl
take-add (suc m) n (c ∷ cs) =
    let e : suc (m + n) ≡ suc m + n = omega arith in
    ap (λ x. c ∷ x) (take-add m n cs) ∙ ap (λ x. take x (c ∷ cs)) e

drop-drop : (m n : ℕ) (cs : List ℕ) → drop n (drop m cs) ≡ drop (m + n) cs
unfolding drop
drop-drop zero n cs = let e : n ≡ 0 + n = omega arith in ap (λ x. drop x cs) e
drop-drop (suc m) zero [] = simp unary_clauses refl
drop-drop (suc m) (suc n) [] = simp unary_clauses refl
drop-drop (suc m) n (c ∷ cs) =
    let e : suc (m + n) ≡ suc m + n = omega arith in drop-drop m n cs ∙ ap (λ x. drop x (c ∷ cs)) e

take-length : (n : ℕ) (cs : List ℕ) → length cs ≡ n → take n cs ≡ cs
unfolding take
take-length zero [] h = refl
take-length zero (c ∷ cs) h = absurd (omega (arith, h))
take-length (suc n) [] h = refl
take-length (suc n) (c ∷ cs) h = ap (λ x. c ∷ x) (take-length n cs (omega (arith, h)))

four_groups :
    (cs : List ℕ)
    → length cs ≡ 20
    → take 5 cs ++ (take 5 (drop 5 cs) ++ (take 5 (drop 10 cs) ++ take 5 (drop 15 cs))) ≡ cs
four_groups cs h =
    let last : take 5 (drop 10 cs) ++ take 5 (drop 15 cs) ≡ take 10 (drop 10 cs) =
      ap (λ x. take 5 (drop 10 cs) ++ take 5 x) (sym (drop-drop 10 5 cs))
      ∙ take-add 5 5 (drop 10 cs) in
    let middle : take 5 (drop 5 cs) ++ take 10 (drop 10 cs) ≡ take 15 (drop 5 cs) =
      ap (λ x. take 5 (drop 5 cs) ++ take 10 x) (sym (drop-drop 5 5 cs))
      ∙ take-add 5 10 (drop 5 cs) in
    ap (λ x. take 5 cs ++ (take 5 (drop 5 cs) ++ x)) last
    ∙ ap (λ x. take 5 cs ++ x) middle
    ∙ take-add 5 15 cs
    ∙ take-length 20 cs h

strip-format :
    (cs : List ℕ)
    → length cs ≡ 20
    → all in_alphabet cs ≡ true
    → strip (format_recovery_code cs) ≡ cs
unfolding format_recovery_code strip is_alphanumeric
strip-format cs len h =
    let last = b'-' ∷ take 5 (drop 15 cs) in
    let third = b'-' ∷ (take 5 (drop 10 cs) ++ last) in
    strip-append (take 5 cs) (b'-' ∷ (take 5 (drop 5 cs) ++ third)) (all-take 5 cs h)
    ∙ ap (λ x. take 5 cs ++ x) (strip-append (take 5 (drop 5 cs)) third (taken 5))
    ∙ ap (λ x. take 5 cs ++ (take 5 (drop 5 cs) ++ x))
        (strip-append (take 5 (drop 10 cs)) last (taken 10))
    ∙ ap (λ x. take 5 cs ++ (take 5 (drop 5 cs) ++ (take 5 (drop 10 cs) ++ x)))
        (strip-all (take 5 (drop 15 cs)) (taken 15))
    ∙ four_groups cs len
  where
    taken : (n : ℕ) → all in_alphabet (take 5 (drop n cs)) ≡ true
    taken n = all-take 5 (drop n cs) (all-drop n cs h)

map_crockford_char-in_alphabet : (c : ℕ) → in_alphabet c ≡ true → map_crockford_char c ≡ some c
unfolding map_crockford_char in_alphabet
map_crockford_char-in_alphabet c h = ground (arith, h)

map_all-all : (cs : List ℕ) → all in_alphabet cs ≡ true → map_all cs ≡ some cs
unfolding map_all all cons_if
map_all-all [] h = refl
map_all-all (c ∷ cs) h =
    rw (map_crockford_char-in_alphabet c (ground (arith, h)), map_all-all cs (ground (arith, h)))
      refl

mapped-in_alphabet : (c d : ℕ) → map_crockford_char c ≡ some d → in_alphabet d ≡ true
unfolding map_crockford_char in_alphabet
mapped-in_alphabet c d h = ground (arith, h)

-- the loop keeps the length, and leaves the alphabet's characters alone
map_all-IsValid :
    (cs r : List ℕ) → map_all cs ≡ some r → (length r ≡ length cs) × (all in_alphabet r ≡ true)
unfolding map_all all cons_if
map_all-IsValid [] r h = ground (arith, h)
map_all-IsValid (c ∷ cs) r h =
    by_parts (map_crockford_char c) (map_all cs) refl (λ rest f. map_all-IsValid cs rest f) h
  where
    by_parts :
        (d : Option ℕ) (rest : Option (List ℕ))
        → map_crockford_char c ≡ d
        → ((t : List ℕ) → rest ≡ some t → (length t ≡ length cs) × (all in_alphabet t ≡ true))
        → cons_if d rest ≡ some r
        → (length r ≡ length (c ∷ cs)) × (all in_alphabet r ≡ true)
    by_parts none rest e f h = absurd (ground (arith, h))
    by_parts (some d) none e f h = absurd (ground (arith, h))
    by_parts (some d) (some rest) e f h =
        let (long, valid) = f rest refl in ground (arith, h, long, valid, mapped-in_alphabet c d e)

module _ (to_upper_case : List ℕ → List ℕ) where
  -- A normalised recovery code has 20 characters, all of the alphabet.
  pub normalize_recovery_code-IsValid :
      (input r : List ℕ)
      → normalize_recovery_code to_upper_case input ≡ some r
      → (length r ≡ 20) × (all in_alphabet r ≡ true)
  unfolding normalize_recovery_code
  normalize_recovery_code-IsValid input r h =
      let stripped = strip (to_upper_case input) in
      elim (Bool-cases (length stripped =ℕ 20)) [
        | inl full ↦
            let (long, valid) = map_all-IsValid stripped r (ground (arith, h, full)) in
            (ground (arith, long, full), valid)
        | inr other ↦ absurd (ground (arith, h, other))
      ]

  -- A code of 20 characters of the alphabet, which is written in four groups of five, reads back as
  -- itself, if `toUpperCase` leaves what is written as it is.
  pub normalize-format :
      (cs : List ℕ)
      → length cs ≡ 20
      → all in_alphabet cs ≡ true
      → to_upper_case (format_recovery_code cs) ≡ format_recovery_code cs
      → normalize_recovery_code to_upper_case (format_recovery_code cs) ≡ some cs
  unfolding normalize_recovery_code
  normalize-format cs len h upper =
      rw (upper, strip-format cs len h) (ground (arith, len, map_all-all cs h))

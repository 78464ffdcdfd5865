-- ===== src/Shared/Fields/Tags.antt =====
-- The tags that normalizeTags returns.
use key_page.Prelude.{
  ℕ, suc, ◌⊎◌, ◌+◌, ◌≤◌, ◌<◌, ◌≡◌, refl, sym, subst, String, true, false, List, [], ◌∷◌, map,
  length, arith, Bool-cases, inl, inr, eq_iff, ltb, ◌=ℕ◌,
}
use text.Mathlib.TextPositions.{eq_refl}
use key_page.Tables.{All, contains, distinct}
use key_page.Shared.Text.{TextOps}
use key_page.Shared.Fields.{
  Issue, tag_case, tag_issues, keep_tags, collect_tag_issues, normalize_tags, valid, unless_issues,
  key_entry_tag_max, key_entry_tags_max,
}

pub unless_issues-valid :
    {A : Type 0} (issues : List Issue) (message : String) (a : A) {b : A}
    → unless_issues issues message a ≡ valid b
    → (issues ≡ []) × (a ≡ b)
unless_issues-valid [] message a e = (refl, ground arith)
unless_issues-valid (i ∷ issues) message a e = absurd (ground arith)

module _ (t : TextOps) where
  open t use {trim, to_lower_case, length_of}

  -- trimmed, not empty, not too long
  abbrev pub IsTag : String → Type 0
  IsTag tag = (trim tag ≡ tag) × (0 < length_of tag) × (length_of tag ≤ key_entry_tag_max)

  -- tags, of which none is there twice or among `seen`, up to the case of letters
  abbrev pub Tidy : List String → List String → Type 0
  Tidy [] seen = Unit
  Tidy (tag ∷ tags) seen =
      IsTag tag × (contains (to_lower_case tag) seen ≡ false) × Tidy tags (to_lower_case tag ∷ seen)

  abbrev Kept : List String → ℕ → List String → Type 0
  Kept seen n tags = Tidy tags seen × (n + length tags ≤ key_entry_tags_max)

  -- one round of both loops over a list without issues: the tag is passed over, or it is kept
  pub round :
      (tag : String) (tags seen : List String) (n : ℕ)
      → tag_issues t (tag ∷ tags) seen n ≡ []
      → ((tag_issues t tags seen n ≡ []) × (keep_tags t (tag ∷ tags) seen ≡ keep_tags t tags seen))
        ⊎ (IsTag (trim tag)
            × (contains (to_lower_case (trim tag)) seen ≡ false)
            × (n < key_entry_tags_max)
            × (tag_issues t tags (to_lower_case (trim tag) ∷ seen) (suc n) ≡ [])
            × (keep_tags t (tag ∷ tags) seen
                ≡ trim tag ∷ keep_tags t tags (to_lower_case (trim tag) ∷ seen)))
  unfolding tag_issues keep_tags tag_case
  round tag tags seen n e = elim (Bool-cases (length_of (trim tag) =ℕ 0)) [
    | inl a ↦ inl (ground arith, ground arith)
    | inr a ↦ elim (Bool-cases (ltb key_entry_tag_max (length_of (trim tag)))) [
      | inl b ↦ absurd (ground arith)
      | inr b ↦ elim (Bool-cases (contains (to_lower_case (trim tag)) seen)) [
        | inl c ↦ inl (ground arith, ground arith)
        | inr c ↦ inr (
          (t.trim-trim tag, ground arith, ground arith),
          c,
          ground arith,
          ground arith,
          ground arith,
        )
      ]
    ]
  ]

  keep_tags-Tidy :
      (tags seen : List String) (n : ℕ)
      → tag_issues t tags seen n ≡ []
      → n ≤ key_entry_tags_max
      → Tidy (keep_tags t tags seen) seen
        × (n + length (keep_tags t tags seen) ≤ key_entry_tags_max)
  unfolding keep_tags
  keep_tags-Tidy [] seen n e few = (tt, omega arith)
  keep_tags-Tidy (tag ∷ tags) seen n e few = elim (round tag tags seen n e) [
    | inl (none_here, same) ↦
        subst (Kept seen n) (sym same) (keep_tags-Tidy tags seen n none_here few)
    | inr (good, new, room, none_later, same) ↦
        let (tidy, enough) =
          keep_tags-Tidy tags (to_lower_case (trim tag) ∷ seen) (suc n) none_later (omega arith) in
        subst (Kept seen n) (sym same) ((good, new, tidy), omega arith)
  ]

  settled :
      (tags seen : List String) (n : ℕ)
      → Tidy tags seen
      → n + length tags ≤ key_entry_tags_max
      → (tag_issues t tags seen n ≡ []) × (keep_tags t tags seen ≡ tags)
  unfolding tag_issues keep_tags tag_case
  settled [] seen n h few = (refl, refl)
  settled (tag ∷ tags) seen n ((same, some_text, short), new, h) few =
      ground (arith, settled tags (to_lower_case tag ∷ seen) (suc n) h)

  absent :
      (key : String) (tags seen : List String)
      → contains key seen ≡ true
      → Tidy tags seen
      → contains key (map to_lower_case tags) ≡ false
  unfolding contains
  absent key [] seen there h = refl
  absent key (tag ∷ tags) seen there (good, new, h) = ground (
    arith,
    eq_iff (to_lower_case tag) key,
    absent key tags (to_lower_case tag ∷ seen),
    eq_iff key (to_lower_case tag),
  )

  Tidy-distinct :
      (tags seen : List String) → Tidy tags seen → distinct (map to_lower_case tags) ≡ true
  unfolding distinct contains
  Tidy-distinct [] seen h = refl
  Tidy-distinct (tag ∷ tags) seen (good, new, h) =
      let gone =
        absent (to_lower_case tag) tags (to_lower_case tag ∷ seen)
          (rw (eq_refl (to_lower_case tag)) refl) h in
      rw (gone, Tidy-distinct tags (to_lower_case tag ∷ seen) h) refl

  Tidy-IsTag : (tags seen : List String) → Tidy tags seen → All IsTag tags
  Tidy-IsTag [] seen h = tt
  Tidy-IsTag (tag ∷ tags) seen (good, new, h) = (good, Tidy-IsTag tags _ h)

  normalize_tags-Kept :
      (tags result : List String) → normalize_tags t tags ≡ valid result → Kept [] 0 result
  unfolding normalize_tags collect_tag_issues
  normalize_tags-Kept tags result e =
      let (none_here, same) = unless_issues-valid (tag_issues t tags [] 0) _ _ e in
      subst (Kept [] 0) same (keep_tags-Tidy tags [] 0 none_here (omega arith))

  -- The tags that normalizeTags returns are at most ten; each is trimmed, has at least one and at most
  -- 32 characters, and no two are the same but for the case of letters.
  pub normalize_tags-IsTag :
      (tags result : List String)
      → normalize_tags t tags ≡ valid result
      → (length result ≤ 10) × All IsTag result × (distinct (map to_lower_case result) ≡ true)
  unfolding normalize_tags collect_tag_issues
  normalize_tags-IsTag tags result e =
      let (h, few) = normalize_tags-Kept tags result e in
      (omega (arith, few), Tidy-IsTag result [] h, Tidy-distinct result [] h)

  -- Tags that were normalised are normal: normalising them again changes nothing.
  pub normalize_tags_idem :
      (tags result : List String)
      → normalize_tags t tags ≡ valid result
      → normalize_tags t result ≡ valid result
  unfolding normalize_tags collect_tag_issues
  normalize_tags_idem tags result e =
      let (h, few) = normalize_tags-Kept tags result e in
      let (none_here, same) = settled result [] 0 h few in rw (none_here, same) refl

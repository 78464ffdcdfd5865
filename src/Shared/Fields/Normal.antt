-- ===== src/Shared/Fields/Normal.antt =====
-- The fields that normalizeKeyEntryWriteFields returns.
use key_page.Prelude.{
  ◌≡◌, refl, sym, subst, ap, ◌∙◌, String, Option, none, some, List, [], ◌∷◌, ◌++◌, arith,
  Bool-cases, inl, inr, ◌==◌, ◌=ℕ◌,
}
use key_page.Shared.Text.{TextOps}
use key_page.Shared.Fields.{
  Issue, Checked, valid, unless_issues, FieldsInput, Fields, collect_label_issues,
  collect_description_issues, collect_tag_issues, collect_service_issues,
  collect_key_entry_field_issues, trimmed_description, custom_name, custom_name_issues,
  other_name_issues, trimmed_or_empty, normalize_description, normalize_tags, validate_service,
  normalize_fields, keep_tags, and_then,
}
use key_page.Shared.Fields.Tags.{unless_issues-valid, normalize_tags_idem}

append-nil : (xs ys : List Issue) → xs ++ ys ≡ [] → (xs ≡ []) × (ys ≡ [])
append-nil [] ys e = (refl, e)
append-nil (x ∷ xs) ys e = absurd (ground arith)

-- the fields as the input of another call
abbrev pub input_of : Fields → FieldsInput
input_of f = record {
  label = f.label;
  service_id = f.service_id;
  custom_service_name = f.custom_service_name;
  description = f.description;
  tags = f.tags;
}

stopped :
    {B : Type 0} (issues : List Issue) (rest : Unit {0} → Checked B) (message : String) {b : B}
    → and_then (unless_issues issues message tt) rest ≡ valid b
    → issues ≡ []
stopped [] rest message e = refl
stopped (i ∷ issues) rest message e = absurd (ground arith)

inner : {A : Type 0} {a b : A} → valid a ≡ valid b → a ≡ b
inner e = ground arith

module _ (t : TextOps) where
  open t use {trim, to_lower_case, length_of}

  -- the fields that the call makes where there are no issues
  abbrev made : FieldsInput → Fields
  made input = record {
    label = trim input.label;
    service_id = input.service_id;
    custom_service_name = custom_name t input.service_id input.custom_service_name;
    description = trimmed_description t input.description;
    tags = keep_tags t input.tags [];
  }

  record Clean (input : FieldsInput) : Type 0 where
    label : collect_label_issues t input.label ≡ []
    description : collect_description_issues t input.description ≡ []
    tags : collect_tag_issues t input.tags ≡ []
    service : collect_service_issues t input.service_id input.custom_service_name ≡ []

  normalize_fields-Clean :
      (input : FieldsInput) → Clean input → normalize_fields t input ≡ valid (made input)
  unfolding normalize_fields collect_key_entry_field_issues normalize_description normalize_tags
      validate_service
  normalize_fields-Clean input c = rw (c.label, c.description, c.tags, c.service) refl

  normalize_fields-valid :
      (input : FieldsInput) (f : Fields)
      → normalize_fields t input ≡ valid f
      → Clean input × (made input ≡ f)
  unfolding normalize_fields collect_key_entry_field_issues
  normalize_fields-valid input f e =
      let none_here = stopped _ _ _ e in
      let (label, rest) = append-nil (collect_label_issues t input.label) _ none_here in
      let (description, more) =
        append-nil (collect_description_issues t input.description) _ rest in
      let (tags, service) = append-nil (collect_tag_issues t input.tags) _ more in
      let clean : Clean input = record {
        label = label;
        description = description;
        tags = tags;
        service = service;
      } in
      (clean, inner (sym (normalize_fields-Clean input clean) ∙ e))

  trimmed_description-trimmed :
      (d : Option String)
      → collect_description_issues t d ≡ []
      → (collect_description_issues t (trimmed_description t d) ≡ [])
        × (trimmed_description t (trimmed_description t d) ≡ trimmed_description t d)
  unfolding collect_description_issues trimmed_description
  trimmed_description-trimmed none e = (refl, refl)
  trimmed_description-trimmed (some d) e = elim (Bool-cases (length_of (trim d) =ℕ 0)) [
    | inl a ↦ rw a (refl, refl)
    | inr a ↦ (ground (arith, t.trim-trim d), ground (arith, t.trim-trim d))
  ]

  custom_name-trimmed :
      (id : String) (name : Option String)
      → collect_service_issues t id name ≡ []
      → (collect_service_issues t id (custom_name t id name) ≡ [])
        × (custom_name t id (custom_name t id name) ≡ custom_name t id name)
  unfolding collect_service_issues custom_name trimmed_or_empty other_name_issues custom_name_issues
  custom_name-trimmed id none e = elim (Bool-cases (id == "custom")) [
    | inl a ↦ absurd (ground (arith, t.length_of_empty))
    | inr a ↦ (ground arith, ground arith)
  ]
  custom_name-trimmed id (some name) e = elim (Bool-cases (id == "custom")) [
    | inl a ↦ (ground (arith, t.trim-trim name), ground (arith, t.trim-trim name))
    | inr a ↦ (ground arith, ground arith)
  ]

  made-Clean :
      (input : FieldsInput)
      → Clean input
      → Clean (input_of (made input)) × (made (input_of (made input)) ≡ made input)
  unfolding collect_label_issues normalize_tags
  made-Clean input c =
      let (description, same_description) =
        trimmed_description-trimmed input.description c.description in
      let (service, same_service) =
        custom_name-trimmed input.service_id input.custom_service_name c.service in
      let once : normalize_tags t input.tags ≡ valid (keep_tags t input.tags []) = rw c.tags refl in
      let (tags, same_tags) = unless_issues-valid _ _ _ (normalize_tags_idem t input.tags _ once) in
      (
        record {
          label = rw (t.trim-trim input.label) c.label;
          description = description;
          tags = tags;
          service = service;
        },
        rw (t.trim-trim input.label, same_description, same_service, same_tags) refl,
      )

  -- Fields that were normalised are normal: normalising them again gives the same fields.
  pub normalize_fields_idem :
      (input : FieldsInput) (f : Fields)
      → normalize_fields t input ≡ valid f
      → normalize_fields t (input_of f) ≡ valid f
  normalize_fields_idem input f e =
      let (clean, same) = normalize_fields-valid input f e in
      let (again, fixed) = made-Clean input clean in
      subst (λ g. normalize_fields t (input_of g) ≡ valid g) same
        (normalize_fields-Clean (input_of (made input)) again ∙ ap valid fixed)

-- ===== src/Shared/Fields.antt =====
-- packages/shared/src/key-entry-fields.ts: the fields of a key entry as a form or a request gives
-- them, checked and normalised. The message of an issue names the limit in digits; it is fixed by the
-- issue's code, and stands here as that code.
pub mod Tags
pub mod Normal
use key_page.Prelude.{
  ℕ, suc, ◌+◌, String, Bool, true, false, not, Option, none, some, List, [], ◌∷◌, ◌++◌, ◌==◌, ◌=ℕ◌,
  ltb, leb, if◌then◌else◌, or_else, length,
}
use key_page.Tables.{contains}
use key_page.Shared.Text.{TextOps}

-- KeyEntryFieldCode
pub data IssueCode : Type 0 where
  label_required label_too_long description_too_long tag_too_long tags_too_many : IssueCode
  service_unknown custom_service_name_required custom_service_name_too_long : IssueCode
  custom_service_name_not_allowed : IssueCode

-- KeyEntryFieldIssue: a code belongs to one field
abbrev pub Issue : Type 0
Issue = IssueCode

-- the field that an issue is about
unfoldable pub field_of : IssueCode → String
field_of label_required = "label"
field_of label_too_long = "label"
field_of description_too_long = "description"
field_of tag_too_long = "tags"
field_of tags_too_many = "tags"
field_of service_unknown = "serviceId"
field_of custom_service_name_required = "customServiceName"
field_of custom_service_name_too_long = "customServiceName"
field_of custom_service_name_not_allowed = "customServiceName"

-- the message of an issue
unfoldable pub message_of : IssueCode → String
message_of label_required = "must be 1..120 characters after trim"
message_of label_too_long = "must be 1..120 characters after trim"
message_of description_too_long = "must be at most 500 characters"
message_of tag_too_long = "each tag must be 1..32 characters"
message_of tags_too_many = "must contain at most 10 tags"
message_of service_unknown = "must be a known service id"
message_of custom_service_name_required = "is required when serviceId is custom"
message_of custom_service_name_too_long = "must be at most 60 characters"
message_of custom_service_name_not_allowed = "must not be set unless serviceId is custom"

-- a value, or the KeyEntryFieldError that is thrown
pub data Checked (A : Type 0) : Type 0 where
  valid : A → Checked A
  invalid : String → List Issue → Checked A

-- `if (issues.length > 0) throw …;`, and the value
abbrev pub unless_issues : {A : Type 0} → List Issue → String → A → Checked A
unless_issues [] message a = valid a
unless_issues (i ∷ is) message a = invalid message (i ∷ is)

-- the calls of normalizeKeyEntryWriteFields, each of which may throw
abbrev pub and_then : {A B : Type 0} → Checked A → (A → Checked B) → Checked B
and_then (valid a) rest = rest a
and_then (invalid message issues) rest = invalid message issues

-- the limits of packages/shared/src/key-entries.ts
abbrev pub key_entry_label_max : ℕ
key_entry_label_max = 120

abbrev pub key_entry_description_max : ℕ
key_entry_description_max = 500

abbrev pub key_entry_tag_max : ℕ
key_entry_tag_max = 32

abbrev pub key_entry_tags_max : ℕ
key_entry_tags_max = 10

abbrev pub key_entry_custom_service_name_max : ℕ
key_entry_custom_service_name_max = 60

-- the ids of SERVICE_CATALOG
unfoldable pub service_ids : List String
service_ids =
    "openai" ∷ "anthropic" ∷ "aws" ∷ "google-cloud" ∷ "azure" ∷ "stripe" ∷ "github" ∷ "cloudflare"
    ∷ "vercel" ∷ "supabase" ∷ "custom" ∷ []

-- isKnownServiceId
unfoldable pub is_known_service_id : String → Bool
is_known_service_id service_id = contains service_id service_ids

-- what the loops over the tags find
pub data TagCase : Type 0 where
  blank too_long repeated fresh : TagCase

-- KeyEntryWriteFieldsInput
pub record FieldsInput : Type 0 where
  pub label : String
  pub service_id : String
  pub custom_service_name : Option String
  pub description : Option String
  pub tags : List String

-- KeyEntryWriteFields
pub record Fields : Type 0 where
  pub label : String
  pub service_id : String
  pub custom_service_name : Option String
  pub description : Option String
  pub tags : List String

module _ (t : TextOps) where
  open t use {trim, to_lower_case, length_of}

  -- collectLabelIssues
  unfoldable pub collect_label_issues : String → List Issue
  collect_label_issues label =
      if length_of (trim label) =ℕ 0
      then label_required ∷ []
      else if ltb key_entry_label_max (length_of (trim label))
      then label_too_long ∷ []
      else []

  -- collectDescriptionIssues
  unfoldable pub collect_description_issues : Option String → List Issue
  collect_description_issues none = []
  collect_description_issues (some description) =
      if length_of (trim description) =ℕ 0
      then []
      else if ltb key_entry_description_max (length_of (trim description))
      then description_too_long ∷ []
      else []

  -- the branches of the loop in collectTagIssues
  unfoldable pub tag_case : List String → String → TagCase
  tag_case seen tag =
      if length_of (trim tag) =ℕ 0
      then blank
      else if ltb key_entry_tag_max (length_of (trim tag))
      then too_long
      else if contains (to_lower_case (trim tag)) seen
      then repeated
      else fresh

  -- the loop of collectTagIssues
  unfoldable pub tag_issues : List String → List String → ℕ → List Issue
  tag_issues [] seen unique_count = []
  tag_issues (tag ∷ tags) seen unique_count = elim (tag_case seen tag) [
    | blank ↦ tag_issues tags seen unique_count
    | too_long ↦ tag_too_long ∷ tag_issues tags seen unique_count
    | repeated ↦ tag_issues tags seen unique_count
    | fresh ↦
        (if ltb key_entry_tags_max (suc unique_count) then tags_too_many ∷ [] else [])
        ++ tag_issues tags (to_lower_case (trim tag) ∷ seen) (suc unique_count)
  ]

  -- collectTagIssues
  unfoldable pub collect_tag_issues : List String → List Issue
  collect_tag_issues tags = tag_issues tags [] 0

  custom_name_issues : String → List Issue
  custom_name_issues trimmed =
      if length_of trimmed =ℕ 0
      then custom_service_name_required ∷ []
      else if ltb key_entry_custom_service_name_max (length_of trimmed)
      then custom_service_name_too_long ∷ []
      else []

  other_name_issues : Option String → List Issue
  other_name_issues none = []
  other_name_issues (some name) =
      if ltb 0 (length_of (trim name)) then custom_service_name_not_allowed ∷ [] else []

  -- `customServiceName?.trim() ?? ""`
  trimmed_or_empty : Option String → String
  trimmed_or_empty none = ""
  trimmed_or_empty (some name) = trim name

  -- collectServiceIssues
  unfoldable pub collect_service_issues : String → Option String → List Issue
  unfolding custom_name_issues other_name_issues trimmed_or_empty
  collect_service_issues service_id custom_service_name =
      if not (is_known_service_id service_id)
      then service_unknown ∷ []
      else if service_id == "custom"
      then custom_name_issues (trimmed_or_empty custom_service_name)
      else other_name_issues custom_service_name

  -- collectKeyEntryFieldIssues
  unfoldable pub collect_key_entry_field_issues : FieldsInput → List Issue
  collect_key_entry_field_issues input =
      collect_label_issues input.label
      ++ (collect_description_issues input.description
          ++ (collect_tag_issues input.tags
              ++ collect_service_issues input.service_id input.custom_service_name))

  -- normalizeLabel
  unfoldable pub normalize_label : String → Checked String
  normalize_label label = unless_issues (collect_label_issues label) "Invalid label" (trim label)

  trimmed_description : Option String → Option String
  trimmed_description none = none
  trimmed_description (some description) =
      if length_of (trim description) =ℕ 0 then none else some (trim description)

  -- normalizeDescription
  unfoldable pub normalize_description : Option String → Checked (Option String)
  unfolding trimmed_description
  normalize_description description =
      unless_issues (collect_description_issues description) "Invalid description"
        (trimmed_description description)

  -- the loop of normalizeTags, which does not look at the length of a tag
  unfoldable pub keep_tags : List String → List String → List String
  keep_tags [] seen = []
  keep_tags (tag ∷ tags) seen =
      if length_of (trim tag) =ℕ 0
      then keep_tags tags seen
      else if contains (to_lower_case (trim tag)) seen
      then keep_tags tags seen
      else trim tag ∷ keep_tags tags (to_lower_case (trim tag) ∷ seen)

  -- normalizeTags
  unfoldable pub normalize_tags : List String → Checked (List String)
  normalize_tags tags = unless_issues (collect_tag_issues tags) "Invalid tags" (keep_tags tags [])

  abbrev prepend_tag : String → Checked (List String) → Checked (List String)
  prepend_tag tag (valid tags) = valid (tag ∷ tags)
  prepend_tag tag (invalid message issues) = invalid message issues

  -- the loop of normalizeTagsCapped, with the number of tags so far
  unfoldable pub keep_capped : ℕ → List String → List String → ℕ → Checked (List String)
  keep_capped max [] seen n = valid []
  keep_capped max (tag ∷ tags) seen n = elim (tag_case seen tag) [
    | blank ↦ keep_capped max tags seen n
    | too_long ↦ invalid "Invalid tags" (tag_too_long ∷ [])
    | repeated ↦ keep_capped max tags seen n
    | fresh ↦ prepend_tag (trim tag) (elim (leb max (suc n)) [
      | true ↦ valid []
      | false ↦ keep_capped max tags (to_lower_case (trim tag) ∷ seen) (suc n)
    ])
  ]

  -- normalizeTagsCapped
  unfoldable pub normalize_tags_capped : List String → ℕ → Checked (List String)
  normalize_tags_capped tags max = keep_capped max tags [] 0

  -- the headline of validateService's error, by its first issue
  abbrev service_headline : List Issue → String
  service_headline (service_unknown ∷ is) = "Invalid serviceId"
  service_headline _ = "Invalid customServiceName"

  custom_name : String → Option String → Option String
  unfolding trimmed_or_empty
  custom_name service_id custom_service_name =
      if service_id == "custom" then some (trimmed_or_empty custom_service_name) else none

  -- validateService
  unfoldable pub validate_service : String → Option String → Checked (Option String)
  unfolding custom_name
  validate_service service_id custom_service_name =
      let issues = collect_service_issues service_id custom_service_name in
      unless_issues issues (service_headline issues) (custom_name service_id custom_service_name)

  -- normalizeKeyEntryWriteFields
  unfoldable pub normalize_fields : FieldsInput → Checked Fields
  normalize_fields input =
      and_then (unless_issues (collect_key_entry_field_issues input) "Invalid key entry fields" tt)
        λ _. and_then (normalize_description input.description) λ description.
          and_then (normalize_tags input.tags) λ tags.
            and_then (validate_service input.service_id input.custom_service_name)
              λ custom_service_name. valid (record {
                label = trim input.label;
                service_id = input.service_id;
                custom_service_name = custom_service_name;
                description = description;
                tags = tags;
              })

-- resolveServiceForImport: `customServiceName ? … : {}` and `customServiceName?.trim() || serviceId`
unfoldable pub resolve_service_for_import :
    TextOps → String → Option String → String × Option String
resolve_service_for_import t service_id custom_service_name =
    if is_known_service_id service_id
    then (service_id, given custom_service_name)
    else ("custom", some (named (given (trimmed custom_service_name))))
  where
    trimmed : Option String → Option String
    trimmed none = none
    trimmed (some name) = some (t.trim name)

    given : Option String → Option String
    given none = none
    given (some name) = if name == "" then none else some name

    named : Option String → String
    named name = or_else name service_id

-- ===== src/Tests/Fields.antt =====
-- The texts of an entry, recovery codes and the settings on concrete data.
use key_page.Prelude.{
  ℕ, zero, suc, ◌*◌, ◌≤◌, ◌≡◌, refl, ap, String, true, Option, none, some, List, [], ◌∷◌, map,
  length,
}
use key_page.Tables.{All, all, distinct}
use key_page.Db.Action.{ok}
use key_page.Shared.Fields.{Checked, valid, FieldsInput, Fields, normalize_tags, normalize_fields}
use key_page.Shared.Fields.Tags.{IsTag, normalize_tags-IsTag}
use key_page.Shared.Fields.Normal.{input_of, normalize_fields_idem}
use key_page.Shared.RecoveryCode.{in_alphabet, format_recovery_code, normalize_recovery_code}
use key_page.Shared.RecoveryCode.Round.{normalize_recovery_code-IsValid, normalize-format}
use key_page.Settings.{
  Finite, whole, SettingRow, AppSettings, app_settings, patch_settings, describe_idle_timeout,
  nearest, database, resolve_idle_timeout_seconds, resolve_clipboard_clear_seconds,
}
use key_page.Settings.Bounds.{settings_bounds}
use key_page.Settings.Stored.{patch_settings-describe}
use key_page.Tests.Fixtures.{plain_text, copies, count_chars}

abbrev tags : List String
tags = "work" ∷ "mail" ∷ "work" ∷ []

abbrev tidy_tags : List String
tidy_tags = "work" ∷ "mail" ∷ []

tags_run : normalize_tags plain_text tags ≡ valid tidy_tags
unfolding normalize_tags key_page.Shared.Fields.collect_tag_issues key_page.Shared.Fields.tag_issues
    key_page.Shared.Fields.tag_case key_page.Shared.Fields.keep_tags key_page.Tables.contains
tags_run = refl

normalize_tags-IsTag_example :
    (length tidy_tags ≤ 10)
    × All (IsTag plain_text) tidy_tags
    × (distinct (map plain_text.to_lower_case tidy_tags) ≡ true)
normalize_tags-IsTag_example = normalize_tags-IsTag plain_text tags tidy_tags tags_run

abbrev input : FieldsInput
input = record {
  label = "Key";
  service_id = "github";
  custom_service_name = none;
  description = some "";
  tags = tags;
}

abbrev fields : Fields
fields = record {
  label = "Key";
  service_id = "github";
  custom_service_name = none;
  description = none;
  tags = tidy_tags;
}

fields_run : normalize_fields plain_text input ≡ valid fields
unfolding normalize_fields normalize_tags key_page.Shared.Fields.collect_key_entry_field_issues
    key_page.Shared.Fields.collect_label_issues key_page.Shared.Fields.collect_description_issues
    key_page.Shared.Fields.collect_tag_issues key_page.Shared.Fields.tag_issues
    key_page.Shared.Fields.tag_case key_page.Shared.Fields.collect_service_issues
    key_page.Shared.Fields.is_known_service_id key_page.Shared.Fields.service_ids
    key_page.Shared.Fields.normalize_description key_page.Shared.Fields.validate_service
    key_page.Shared.Fields.keep_tags key_page.Tables.contains
fields_run = refl

normalize_fields_idem_example : normalize_fields plain_text (input_of fields) ≡ valid fields
normalize_fields_idem_example = normalize_fields_idem plain_text input fields fields_run

abbrev code : List ℕ
code = copies 20 b'7'

normalize-format_example :
    normalize_recovery_code (λ cs. cs) (format_recovery_code code) ≡ some code
unfolding all in_alphabet
normalize-format_example = normalize-format (λ cs. cs) code refl refl refl

abbrev typed : List ℕ
typed = b'O' ∷ b'-' ∷ copies 19 b'L'

abbrev read : List ℕ
read = b'0' ∷ copies 19 b'1'

normalize_recovery_code-IsValid_example : (length read ≡ 20) × (all in_alphabet read ≡ true)
unfolding normalize_recovery_code key_page.Shared.RecoveryCode.strip
    key_page.Shared.RecoveryCode.map_all key_page.Shared.RecoveryCode.is_alphanumeric
    key_page.Shared.RecoveryCode.map_crockford_char key_page.Shared.RecoveryCode.cons_if
normalize_recovery_code-IsValid_example = normalize_recovery_code-IsValid (λ cs. cs) typed read refl

-- numbers as tallies
abbrev number : String → Option Finite
number s = some (whole (count_chars s))

tally : ℕ → String
tally zero = String.[]
tally (suc n) = String.◌∷◌ "x" (tally n)

tally-number : (n : ℕ) → number (tally n) ≡ some (whole n)
unfolding tally
tally-number n = ap (λ k. some (whole k)) (counted n)
  where
    counted : (k : ℕ) → count_chars (tally k) ≡ k
    counted zero = refl
    counted (suc k) = ap (λ j. suc j) (counted k)

abbrev no_variable : String → Option String
no_variable name = none

patch_settings-describe_example :
    let r = patch_settings number no_variable tally (whole 25) "now" [] in
    (r.0 ≡ ok (app_settings number no_variable r.1))
    × (describe_idle_timeout number no_variable r.1 ≡ (nearest (whole 25), database))
unfolding key_page.Settings.is_idle_minutes_option key_page.Settings.is_value
    key_page.Settings.parsed key_page.Settings.given
patch_settings-describe_example =
    patch_settings-describe number no_variable tally (whole 25) "now" [] tally-number refl refl

settings_bounds_example :
    (15 * 60 ≤ resolve_idle_timeout_seconds number no_variable [])
    × (resolve_idle_timeout_seconds number no_variable [] ≤ 30 * 60)
    × (5 ≤ resolve_clipboard_clear_seconds number no_variable [])
    × (resolve_clipboard_clear_seconds number no_variable [] ≤ 300)
settings_bounds_example = settings_bounds number no_variable []

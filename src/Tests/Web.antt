-- ===== src/Tests/Web.antt =====
-- The browser's logic on concrete data.
use key_page.Prelude.{◌≡◌, refl, String, true, none, some, List, [], ◌∷◌, is_some, ◌=ℕ◌, map}
use key_page.Tables.{any, count, contains}
use key_page.Db.Rows.{Db, KeyEntryRow, pos, negsuc}
use key_page.Db.Action.{ok}
use key_page.Keys.Repo.{list_key_entries, list_key_entry_ids, reorder_key_entries}
use key_page.Keys.Repo.Reorder.{reorder_key_entries-list}
use key_page.Auth.Rotation.{assert_entries_match}
use key_page.Web.RecoverySession.{Held, Op, starts, begins, fails, clears, fresh, clear, step, run}
use key_page.Web.RecoverySession.Wiped.{is_kept, was_started, run-fresh_is_kept, clear-run_wipes}
use key_page.Web.Rekey.{NextKeys, Rekeyed}
use key_page.Web.Rekey.Matches.{rekey-assert_entries_match}
use key_page.Web.Filter.{collect_tag_facets}
use key_page.Web.Filter.Facets.{shown_for, has_tag, collect_tag_facets-count}
use key_page.Routes.Bodies.{CreateBody}
use key_page.Routes.Validate.{normalize_key_entry_write_fields}
use key_page.Web.Operations.{Try, done, failed, api, Ports, NewKeyEntry, create_body, create}
use key_page.Web.Operations.Agree.{received, create_body-accepted}
use key_page.Tests.Fixtures.{vault_db, plain_text, platform}
use key_page.Web.Guards.{
  recovery_wizard_route, recovery_codes_route, setup_required, codes, render, resolve_guard,
  is_recovery_codes_parked,
}
use key_page.Web.Guards.Redirects.{follow, follow-resolve_guard}
use key_page.Web.EntryOrder.{apply_visible_reorder, is_refused}
use key_page.Web.EntryOrder.Moves.{up, down, index_of, move_visible_entry, drop_visible_entry}
use key_page.Web.EntryOrder.Laws.{shown, hidden}
use key_page.Web.EntryOrder.Placed.{without, drop_visible_entry-places}

follow-resolve_guard_example :
    (is_some (
        follow 2 recovery_wizard_route setup_required codes
          (resolve_guard recovery_wizard_route setup_required codes))
      ≡ true)
    × (is_recovery_codes_parked codes ≡ true
        → follow 2 recovery_wizard_route setup_required codes
            (resolve_guard recovery_wizard_route setup_required codes)
          ≡ some (recovery_codes_route, render))
follow-resolve_guard_example = follow-resolve_guard recovery_wizard_route setup_required codes

abbrev all_entries : List String
all_entries = "a" ∷ "b" ∷ "c" ∷ "d" ∷ []

abbrev filtered : List String
filtered = "a" ∷ "c" ∷ []

abbrev three : List String
three = "a" ∷ "c" ∷ "d" ∷ []

drop_visible_entry-places_example :
    let result = drop_visible_entry all_entries three "d" "a" in
    (index_of "d" (shown three result) ≡ some 0)
    × (without "d" (shown three result) ≡ without "d" three)
    × (hidden three result ≡ hidden three all_entries)
unfolding key_page.Tables.distinct any contains key_page.Tables.select index_of
drop_visible_entry-places_example =
    drop_visible_entry-places all_entries three refl refl refl "d" "a" 2 0 refl refl refl

abbrev held : Held
held = record { ticket = "ticket"; challenge_nonce_b64 = "nonce"; entries = []; master_key = 7 }

-- an attempt that fails, and a second one that is overtaken by a lock
abbrev ops : List Op
ops = starts held ∷ begins ∷ fails 0 ∷ begins ∷ clears ∷ fails 0 ∷ []

run-fresh_is_kept_example : is_kept 7 (run ops fresh) ≡ true
unfolding was_started
run-fresh_is_kept_example = run-fresh_is_kept 7 ops refl

clear-run_wipes_example : any (λ w. w =ℕ 7) (clear (run ops fresh)).wiped ≡ true
unfolding was_started any run step fresh key_page.Web.RecoverySession.start
    key_page.Web.RecoverySession.begin_complete key_page.Web.RecoverySession.check_out
    key_page.Web.RecoverySession.failed key_page.Web.RecoverySession.fail
    key_page.Web.RecoverySession.nth key_page.Web.RecoverySession.restore_attempt
    key_page.Web.RecoverySession.settle key_page.Web.RecoverySession.wipe_attempt
    key_page.Web.RecoverySession.wipe_held clear
clear-run_wipes_example = clear-run_wipes 7 ops refl refl

abbrev entry : KeyEntryRow
entry = record {
  id = "e1";
  label = "Key";
  service_id = "github";
  custom_service_name = none;
  description = none;
  tags = "work" ∷ "work" ∷ [];
  cipher = record { iv_b64 = "iv"; ciphertext_b64 = "ct" };
  key_version = 1;
  created_at = "now";
  updated_at = "now";
  last_used_at = none;
  sort_order = pos 0;
}

abbrev one_entry : Db
one_entry = record vault_db { key_entries = entry ∷ [] }

collect_tag_facets-count_example :
    shown_for "work" (collect_tag_facets plain_text (entry ∷ []))
    ≡ count (has_tag plain_text "work") (entry ∷ [])
collect_tag_facets-count_example = collect_tag_facets-count plain_text (entry ∷ []) "work" refl

-- the second entry comes first, by its order, until the request puts it second
abbrev two_entries : Db
two_entries = record vault_db {
  key_entries = entry ∷ record entry { id = "e2"; sort_order = negsuc 0 } ∷ [];
}

reorder_key_entries-list_example :
    let (result, db') = reorder_key_entries ("e1" ∷ "e2" ∷ []) two_entries in
    (result ≡ ok (list_key_entries db'))
    × (map (λ e. e.id) (list_key_entries db') ≡ "e1" ∷ "e2" ∷ [])
unfolding list_key_entry_ids any contains key_page.Tables.distinct
reorder_key_entries-list_example =
    reorder_key_entries-list ("e1" ∷ "e2" ∷ []) two_entries refl refl refl refl

abbrev next_keys : NextKeys
next_keys = record { encryption_key = 1; master_key = 2 }

abbrev rekeyed : Rekeyed
rekeyed = record {
  reencrypted =
      record {
        id = "e1";
        base_iv_b64 = "iv";
        cipher = record { iv_b64 = "iv2"; ciphertext_b64 = "secret" };
      }
      ∷ [];
  codes = [];
  envelopes = [];
  next_encryption_key = 1;
}

rekey-assert_entries_match_example :
    assert_entries_match rekeyed.reencrypted one_entry ≡ (ok tt, one_entry)
unfolding key_page.Tables.distinct contains key_page.Web.Rekey.rekey_entries_and_envelopes
    key_page.Web.Rekey.decrypt_all_key_entries key_page.Web.Rekey.decrypt_each
    key_page.Web.Rekey.add_entry key_page.Web.Rekey.settle key_page.Web.Rekey.settle_parts
    key_page.Web.Rekey.after_decrypt key_page.Web.Rekey.rekey_with key_page.Web.Rekey.finish
    key_page.Web.Rekey.encrypt_all_key_entries key_page.Web.Rekey.add_cipher list_key_entries
    key_page.Keys.Order.sort_rows key_page.Keys.Order.insert_row
rekey-assert_entries_match_example =
    rekey-assert_entries_match (λ e. some "secret")
      (λ key id plaintext. some (record { iv_b64 = "iv2"; ciphertext_b64 = plaintext }))
      (λ key. some ([], [])) next_keys one_entry rekeyed (2 ∷ []) refl refl

-- a port whose server refuses everything, since the key version is an old one
abbrev ports : Ports
ports = record {
  text = plain_text;
  version = some 3;
  key = some 7;
  new_key_entry_id = "e9";
  encrypt_payload = λ key id plaintext. some (record { iv_b64 = "iv"; ciphertext_b64 = plaintext });
  decrypt_key_value = λ e. some "secret";
  post_key_entry = λ body. failed (api true);
  patch_key_entry = λ id body. failed (api true);
  delete_key_entry = λ id version. failed (api true);
  post_key_entry_use = λ id was_copied. failed (api true);
  post_key_entry_import = λ items. failed (api true);
  copy_text = λ text clear_ms. none;
}

abbrev typed_entry : NewKeyEntry
typed_entry = record {
  fields = record {
    label = "Key";
    service_id = "github";
    custom_service_name = none;
    description = some "";
    tags = "work" ∷ "work" ∷ [];
  };
  key_value = "secret";
}

abbrev sent_body : CreateBody
sent_body = record {
  id = "e9";
  fields = record {
    label = "Key";
    service_id = "github";
    custom_service_name = none;
    description = none;
    tags = "work" ∷ [];
  };
  cipher = record {
    payload = record { iv_b64 = "iv"; ciphertext_b64 = "secret" };
    key_version = 3;
  };
}

sent_run : create_body ports typed_entry ≡ done sent_body
unfolding create_body key_page.Web.Operations.write_fields_from_input
    key_page.Web.Operations.encrypt_key_value key_page.Web.Operations.require_for_write
    key_page.Web.Operations.or_expired key_page.Web.Operations.stamp
    key_page.Web.Operations.then_try key_page.Web.Operations.of_checked
    key_page.Shared.Fields.normalize_fields key_page.Shared.Fields.normalize_tags
    key_page.Shared.Fields.collect_key_entry_field_issues
    key_page.Shared.Fields.collect_label_issues key_page.Shared.Fields.collect_description_issues
    key_page.Shared.Fields.collect_tag_issues key_page.Shared.Fields.tag_issues
    key_page.Shared.Fields.tag_case key_page.Shared.Fields.collect_service_issues
    key_page.Shared.Fields.is_known_service_id key_page.Shared.Fields.service_ids
    key_page.Shared.Fields.normalize_description key_page.Shared.Fields.validate_service
    key_page.Shared.Fields.keep_tags key_page.Tables.contains
sent_run = refl

-- a create that the server refuses as stale locks the browser
stale_create_locks : create ports typed_entry ≡ (failed (api true), true)
unfolding create key_page.Web.Operations.guarded key_page.Web.Operations.guard_write
stale_create_locks = rw sent_run refl

create_body-accepted_example :
    ((db : Db)
      → normalize_key_entry_write_fields platform sent_body.fields db
        ≡ (ok (received sent_body.fields), db))
    × (some 3 ≡ some sent_body.cipher.key_version)
create_body-accepted_example =
    create_body-accepted ports platform refl typed_entry sent_body sent_run

-- the entry that is moved down passes the visible entry after it, and the hidden one stays
moved_down : move_visible_entry all_entries three "a" (down 1) ≡ "c" ∷ "b" ∷ "a" ∷ "d" ∷ []
unfolding move_visible_entry index_of key_page.Web.EntryOrder.Moves.move_to
    key_page.Web.EntryOrder.Moves.target key_page.Web.EntryOrder.Moves.place_at
    key_page.Web.EntryOrder.Moves.splice_out key_page.Web.EntryOrder.Moves.splice_in
    apply_visible_reorder is_refused key_page.Web.EntryOrder.fill key_page.Web.EntryOrder.next_or
    key_page.Web.EntryOrder.rest key_page.Tables.distinct any contains
moved_down = refl

dropped_first : drop_visible_entry all_entries three "d" "a" ≡ "d" ∷ "b" ∷ "a" ∷ "c" ∷ []
unfolding drop_visible_entry index_of key_page.Web.EntryOrder.Moves.drop_at
    key_page.Web.EntryOrder.Moves.place_at key_page.Web.EntryOrder.Moves.splice_out
    key_page.Web.EntryOrder.Moves.splice_in apply_visible_reorder is_refused
    key_page.Web.EntryOrder.fill key_page.Web.EntryOrder.next_or key_page.Web.EntryOrder.rest
    key_page.Tables.distinct any contains
dropped_first = refl

moved_above_the_top : move_visible_entry all_entries filtered "a" (up 1) ≡ all_entries
unfolding move_visible_entry index_of key_page.Web.EntryOrder.Moves.move_to
    key_page.Web.EntryOrder.Moves.target
moved_above_the_top = refl

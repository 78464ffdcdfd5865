-- ===== src/Tests/Setup.antt =====
-- The first boot on concrete data.
use key_page.Prelude.{
  ℕ, zero, suc, ◌+◌, ◌*◌, ◌≤◌, ◌<◌, ◌≡◌, refl, ap, ◌↔◌, String, true, false, none, some, List, [],
  ◌∷◌, length, arith, eq_iff,
}
use key_page.Db.Action.{Result, ok, err}
use key_page.Auth.SetupToken.{SetupGate, TokenFile, verify_token, consume_token, open_setup_gate}
use key_page.Auth.SetupToken.Lifetime.{open_setup_gate-verify_token}
use key_page.Auth.Sessions.{SessionInfo}
use key_page.Auth.Vault.{Envelope, count_unused_recovery_codes}
use key_page.Auth.Vault.Insert.{DrawsApart}
use key_page.Auth.Rotation.{NewVault}
use key_page.Routes.Request.{Platform}
use key_page.Routes.Setup.{Transport, SetupBody, validate_new_keys, setup}
use key_page.Routes.Setup.Checked.{validate_new_keys_iff}
use key_page.Routes.Setup.FirstBoot.{setup-ok}
use key_page.Routes.Setup.Once.{Refuses, setup_once}
use key_page.Routes.Kdf.Bounds.{IsAllowed, AreAllowed}
use key_page.Shared.Bytes.{is_stored_key_hex}
use key_page.Integrity.{IsCoherent}
use key_page.Routes.Vault.{recovery_claim, login_challenge}
use key_page.Auth.Claim.{NewTicket}
use key_page.Integrity.Reachable.{
  empty_db, start, next, post_setup, post_claim, get_challenge, Reachable-IsCoherent,
}
use key_page.Tests.Fixtures.{
  platform, server, request, new_session, kdf, mark, vault_db, count_chars,
}

abbrev envelope : String → Envelope
envelope hash = record {
  label = "A";
  lookup_hash = hash;
  kdf = kdf;
  wrapped_master_key_b64 = "wrapped";
}

abbrev ten_envelopes : List Envelope
ten_envelopes =
    envelope "h0"
    ∷ envelope "h1"
    ∷ envelope "h2"
    ∷ envelope "h3"
    ∷ envelope "h4"
    ∷ envelope "h5"
    ∷ envelope "h6"
    ∷ envelope "h7"
    ∷ envelope "h8"
    ∷ envelope "h9"
    ∷ []

abbrev body : SetupBody
body = record {
  setup_token = "first";
  kdf = kdf;
  proof_keys = record { auth_stored_key_hex = "11"; recovery_stored_key_hex = "22" };
  recovery_codes = ten_envelopes;
}

abbrev gate : SetupGate
gate = record { token = some "first"; expires_at = 900000 }

abbrev transport : Transport
transport = record {
  require_https_setup = true;
  allow_insecure_local_setup = false;
  protocol = "https";
  remote_address = none;
}

-- ids that differ in their length
unary : ℕ → String
unary zero = String.[]
unary (suc n) = String.◌∷◌ "x" (unary n)

count_unary : (n : ℕ) → count_chars (unary n) ≡ n
unfolding unary
count_unary zero = refl
count_unary (suc n) = ap (λ k. suc k) (count_unary n)

unary-DrawsApart : DrawsApart unary
unary-DrawsApart i j h =
    let same : unary i ≡ unary j → count_chars (unary i) ≡ count_chars (unary j) = ap count_chars in
    ground (arith, h, eq_iff (unary i) (unary j), same, count_unary i, count_unary j)

abbrev first_vault : NewVault
first_vault = record { code_id = unary; session = new_session }

keys_pass :
    validate_new_keys platform kdf body.proof_keys ten_envelopes empty_db ≡ (ok tt, empty_db)
unfolding validate_new_keys key_page.Routes.Kdf.validate_kdf_params
    key_page.Routes.Kdf.validate_salt_b64 key_page.Routes.Kdf.validate_pbkdf2_params
    key_page.Routes.Kdf.require_in_range key_page.Routes.Request.validate_stored_key_hex
    key_page.Routes.Kdf.validate_recovery_envelopes key_page.Routes.Kdf.check_envelopes
    key_page.Db.Action.throw_if key_page.Tables.contains is_stored_key_hex
    key_page.Shared.Bytes.all_codes key_page.Shared.Bytes.is_lower_hex empty_db
keys_pass = refl

abbrev first_ticket : NewTicket
first_ticket = record { id = "t1"; ticket = "ticket"; challenge_nonce_b64 = "nonce" }

setup-ok_example :
    let r = setup server 100 transport gate body request first_vault empty_db in
    ((info : SessionInfo) × (r.0.0 ≡ ok (record { key_version = 1; info = info })))
    × (count_unused_recovery_codes r.0.1 ≡ 10)
    × (r.1.token ≡ none)
unfolding empty_db key_page.Routes.Setup.is_insecure verify_token key_page.Tables.any
setup-ok_example =
    setup-ok server 100 body first_vault transport gate request empty_db
      (Reachable-IsCoherent server start) refl refl keys_pass refl unary-DrawsApart (refl, refl)

-- the vault is set up, a recovery code of it is claimed, and a challenge is issued
Reachable-IsCoherent_example :
    let after_setup = (setup server 100 transport gate body request first_vault empty_db).0.1 in
    let after_claim = (recovery_claim server 200 "h0" first_ticket after_setup).1 in
    IsCoherent (login_challenge server 300 "ch" "nonce" after_claim).1
Reachable-IsCoherent_example = Reachable-IsCoherent server (
    next
      (next (next start (post_setup transport gate body request first_vault 100 empty_db))
        (post_claim "h0" first_ticket 200 _))
      (get_challenge "ch" "nonce" 300 _))

setup_once_example :
    Refuses vault_db (setup server 100 transport gate body request first_vault vault_db).0
    × ((setup server 100 transport gate body request first_vault vault_db).1 ≡ gate)
unfolding key_page.Auth.Vault.is_vault_initialized
setup_once_example = setup_once server 100 transport gate body request first_vault vault_db refl

validate_new_keys_iff_example :
    (validate_new_keys platform kdf body.proof_keys ten_envelopes vault_db ≡ (ok tt, vault_db)) ↔ (
      IsAllowed platform kdf
      × ((is_stored_key_hex (platform.codes "11") ≡ true)
          × ((is_stored_key_hex (platform.codes "22") ≡ true)
              × ((length ten_envelopes ≡ 10) × AreAllowed platform vault_db ten_envelopes []))))
validate_new_keys_iff_example =
    validate_new_keys_iff platform vault_db kdf body.proof_keys ten_envelopes

abbrev old_file : TokenFile
old_file = record { content = "first"; changed_at = 0 }

open_setup_gate-verify_token_example :
    let gate =
      (open_setup_gate platform.codes
        (λ s. s)
        "one"
        "two"
        false
        (some 1)
        (some old_file)
        70000).0 in
    ((token : String) × (gate.token ≡ some token) × (verify_token mark gate token 70000 ≡ true))
    × (70000 < gate.expires_at)
    × (gate.expires_at ≤ 70000 + 1 * 60000)
    × ((candidate : String) (later : ℕ)
        → (verify_token mark (consume_token gate) candidate later ≡ false)
          × (verify_token mark
                (open_setup_gate platform.codes
                  (λ s. s)
                  "one"
                  "two"
                  true
                  (some 1)
                  (some old_file)
                  later).0
                candidate
                later
              ≡ false))
open_setup_gate-verify_token_example =
    open_setup_gate-verify_token platform.codes (λ s. s) "one" "two" mark (some 1) (some old_file)
      70000 (omega arith) (omega arith)

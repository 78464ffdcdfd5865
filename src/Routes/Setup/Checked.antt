-- ===== src/Routes/Setup/Checked.antt =====
-- Which key material the setup, the reset and the password change take.
use key_page.Prelude.{◌≡◌, true, ◌↔◌, length, arith, List, [], ◌∷◌, String}
use key_page.Db.Rows.{Db, KdfParams}
use key_page.Db.Action.{ok}
use key_page.Shared.Bytes.{is_stored_key_hex}
use key_page.Auth.Vault.{Envelope, ProofKeys}
use key_page.Auth.Vault.Insert.{AreNew}
use key_page.Routes.Request.{Platform, validate_stored_key_hex}
use key_page.Routes.Kdf.Bounds.{
  IsAllowed, AreAllowed, check_iff, part_iff, validate_kdf_params_iff, validate_kdf_params-keeps,
  validate_recovery_envelopes_iff,
}
use key_page.Routes.Setup.{validate_new_keys}

module _ (p : Platform) (db : Db) where
  -- Key material is taken exactly if its key derivation is allowed (a salt of 16 bytes, and the
  -- numbers in the bounds of the algorithm), both stored keys are 64 lowercase hex characters, and
  -- there are ten recovery codes, each with such a lookup hash, different from those before it, a
  -- wrapped key of 60 bytes and an allowed key derivation.
  pub validate_new_keys_iff :
      (kdf : KdfParams) (keys : ProofKeys) (codes : List Envelope)
      → (validate_new_keys p kdf keys codes db ≡ (ok tt, db)) ↔ (
          IsAllowed p kdf
          × ((is_stored_key_hex (p.codes keys.auth_stored_key_hex) ≡ true)
              × ((is_stored_key_hex (p.codes keys.recovery_stored_key_hex) ≡ true)
                  × ((length codes ≡ 10) × AreAllowed p db codes []))))
  unfolding validate_new_keys validate_stored_key_hex
  validate_new_keys_iff kdf keys codes =
      part_iff p db _ _ (validate_kdf_params-keeps p db kdf "kdf")
        (validate_kdf_params_iff p db kdf "kdf")
        (check_iff p db _ _ _ (ground arith)
          (check_iff p db _ _ _ (ground arith) (validate_recovery_envelopes_iff p db codes)))

  pub AreAllowed-AreNew :
      (es : List Envelope) (seen : List String) → AreAllowed p db es seen → AreNew es seen
  AreAllowed-AreNew [] seen h = tt
  AreAllowed-AreNew (e ∷ es) seen (hex, (new, (key, (kdf, rest)))) =
      (new, AreAllowed-AreNew es (e.lookup_hash ∷ seen) rest)

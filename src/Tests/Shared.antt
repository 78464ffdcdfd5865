-- ===== src/Tests/Shared.antt =====
-- The bytes and the proofs on concrete data.
use key_page.Prelude.{ℕ, ◌≡◌, refl, ◌↔◌, Bool, true, some, List, [], ◌∷◌, arith}
use key_page.Shared.Bytes.{bytes_equal, xor_bytes, hex_encode, hex_decode}
use key_page.Shared.Bytes.Equal.{bytes_equal_iff}
use key_page.Shared.Bytes.Hex.{hex_decode-hex_encode}
use key_page.Shared.Proof.{
  login_client_key_label, create_client_proof, verify_client_proof, stored_key_hex_from_secret,
}
use key_page.Shared.Proof.Laws.{verify-create, verify_total, verify-true_iff}
use key_page.Tests.Fixtures.{constant_crypto, zero_hash, zero_hash-IsHash}

abbrev some_bytes : List ℕ
some_bytes = 1 ∷ 255 ∷ []

abbrev other_bytes : List ℕ
other_bytes = 1 ∷ 254 ∷ []

bytes_equal_iff_example : (bytes_equal some_bytes other_bytes ≡ true) ↔ (some_bytes ≡ other_bytes)
bytes_equal_iff_example =
    bytes_equal_iff some_bytes other_bytes (omega arith, (omega arith, tt))
      (omega arith, (omega arith, tt))

hex_decode-hex_encode_example : hex_decode (hex_encode (10 ∷ 255 ∷ [])) ≡ some (10 ∷ 255 ∷ [])
hex_decode-hex_encode_example =
    hex_decode-hex_encode (10 ∷ 255 ∷ []) (omega arith) (omega arith, (omega arith, tt))

verify-create_example :
    (proof : List ℕ) × (create_client_proof constant_crypto
        (7 ∷ [])
        login_client_key_label
        "login:ch:nonce"
      ≡ some proof)
    × (verify_client_proof constant_crypto
          (stored_key_hex_from_secret constant_crypto (7 ∷ []) login_client_key_label)
          "login:ch:nonce"
          proof
        ≡ some true)
verify-create_example =
    verify-create constant_crypto (7 ∷ []) login_client_key_label "login:ch:nonce"

verify_total_example :
    (b : Bool) × (verify_client_proof constant_crypto (48 ∷ []) "login:ch:nonce" (1 ∷ []) ≡ some b)
verify_total_example = verify_total constant_crypto (48 ∷ []) "login:ch:nonce" (1 ∷ [])

verify-true_iff_example :
    (verify_client_proof constant_crypto (hex_encode zero_hash) "login:ch:nonce" zero_hash
      ≡ some true)
    ↔ ((hidden : List ℕ) × (xor_bytes zero_hash zero_hash ≡ some hidden) × (zero_hash ≡ zero_hash))
verify-true_iff_example =
    verify-true_iff constant_crypto zero_hash "login:ch:nonce" zero_hash zero_hash-IsHash refl

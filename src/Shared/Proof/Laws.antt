-- ===== src/Shared/Proof/Laws.antt =====
-- A proof that a client makes of its secret is accepted, and what is accepted names the stored key.
use key_page.Prelude.{
  ℕ, ◌≡◌, refl, ◌↔◌, String, Bool, true, false, some, List, arith, length, Bool-cases, inl, inr,
  ◌=ℕ◌,
}
use key_page.Shared.Bytes.{bytes_equal, xor_bytes, hex_encode, is_stored_key_hex}
use key_page.Shared.Bytes.Xor.{xor_bytes-cancel, xor_bytes_total}
use key_page.Shared.Bytes.Equal.{bytes_equal_iff}
use key_page.Shared.Bytes.Hex.{
  hex_decode-hex_encode, is_stored_key_hex-hex_encode, hex_decode-is_stored_key_hex,
}
use key_page.Shared.Proof.{
  Crypto, IsHash, client_proof_bytes, client_key, stored_key_hex_from_secret, create_client_proof,
  check_key, verify_client_proof,
}

module _ (c : Crypto) where
  open c use {hmac_sha256, sha256, utf8}

  -- what is left to check, for the digits of a hash and a proof of 32 bytes
  verify-check :
      (key : List ℕ) (message : String) (proof : List ℕ)
      → IsHash key
      → length proof ≡ 32
      → verify_client_proof c (hex_encode key) message proof
        ≡ check_key c key (xor_bytes proof (hmac_sha256 key (utf8 message)))
  unfolding verify_client_proof
  verify-check key message proof (len, bytes) plen =
      rw (is_stored_key_hex-hex_encode key len bytes, hex_decode-hex_encode key (omega arith) bytes)
        (ground arith)

  -- A proof that the holder of a secret makes is accepted under the stored key of that secret,
  -- whatever the message and the label; making it throws no error.
  pub verify-create :
      (secret : List ℕ) (label message : String)
      → (proof : List ℕ) × (create_client_proof c secret label message ≡ some proof)
        × (verify_client_proof c (stored_key_hex_from_secret c secret label) message proof
            ≡ some true)
  unfolding create_client_proof stored_key_hex_from_secret check_key
  verify-create secret label message =
      let key = client_key c secret label in
      let stored = sha256 key in
      let sig = hmac_sha256 stored (utf8 message) in
      let (klen, kbytes) = c.hmac_sha256-IsHash secret (utf8 label) in
      let (slen, sbytes) = c.hmac_sha256-IsHash stored (utf8 message) in
      let (proof, made, undone, plen) = xor_bytes-cancel key sig kbytes sbytes (omega arith) in
      (
        proof,
        made,
        rw (verify-check stored message proof (c.sha256-IsHash key) (omega arith), undone)
            (ground (
              arith,
              (bytes_equal_iff stored stored (c.sha256-IsHash key).1 (c.sha256-IsHash key).1).1
                  refl,
            )),
      )

  -- The check never throws, whatever text and bytes it is given.
  pub verify_total :
      (text : List ℕ) (message : String) (proof : List ℕ)
      → (b : Bool) × (verify_client_proof c text message proof ≡ some b)
  unfolding verify_client_proof check_key
  verify_total text message proof = elim (Bool-cases (is_stored_key_hex text)) [
    | inr bad ↦ (false, ground arith)
    | inl good ↦ elim (Bool-cases (length proof =ℕ client_proof_bytes)) [
      | inr short ↦ (false, ground arith)
      | inl whole ↦
          let (key, decoded) = hex_decode-is_stored_key_hex text good in
          let (k, combined) =
            xor_bytes_total proof (hmac_sha256 key (utf8 message))
              (ground (arith, (c.hmac_sha256-IsHash key (utf8 message)).0)) in
          (
            bytes_equal (sha256 k) key,
            rw (good, whole, decoded, verify_client_proof) (ground arith),
          )
    ]
  ]

  -- A proof of 32 bytes is accepted under a stored key exactly if it hides a client key whose
  -- SHA-256 is the stored key, under the signature of this message by the stored key.
  pub verify-true_iff :
      (key : List ℕ) (message : String) (proof : List ℕ)
      → IsHash key
      → length proof ≡ 32
      → (verify_client_proof c (hex_encode key) message proof ≡ some true) ↔ (
          (hidden : List ℕ) × (xor_bytes proof (hmac_sha256 key (utf8 message)) ≡ some hidden)
          × (sha256 hidden ≡ key))
  unfolding check_key
  verify-true_iff key message proof hash plen =
      let (hidden, combined) =
        xor_bytes_total proof (hmac_sha256 key (utf8 message))
          (ground (arith, (c.hmac_sha256-IsHash key (utf8 message)).0)) in
      let decides = bytes_equal_iff (sha256 hidden) key (c.sha256-IsHash hidden).1 hash.1 in
      rw (verify-check key message proof hash plen, combined)
        (
          λ e. (hidden, refl, decides.0 (ground arith)),
          λ h. ground (arith, decides, h.1, h.2, combined),
        )

-- ===== src/Shared/Bytes/Hex.antt =====
-- Hex digits give back the bytes.
use key_page.Prelude.{
  ℕ, ◌*◌, ◌/◌, ◌%◌, ◌<◌, ◌≡◌, refl, Bool, true, some, List, [], ◌∷◌, arith, length,
}
use key_page.Shared.Bytes.{
  hex_digit, hex_encode, is_lower_hex, is_hex, hex_value, decode_pairs, all_codes, hex_decode,
  is_stored_key_hex,
}
use key_page.Shared.Bytes.Xor.{IsBytes}

hex_digit_value :
    (n : ℕ) → n < 16 → (hex_value (hex_digit n) ≡ n) × (is_lower_hex (hex_digit n) ≡ true)
unfolding hex_digit hex_value is_lower_hex
hex_digit_value n h = ground arith

length-hex_encode : (bs : List ℕ) → length (hex_encode bs) ≡ 2 * length bs
unfolding hex_encode
length-hex_encode [] = omega arith
length-hex_encode (b ∷ bs) = omega (arith, length-hex_encode bs)

all_codes-hex_encode :
    (p : ℕ → Bool) (bs : List ℕ)
    → ((n : ℕ) → n < 16 → p (hex_digit n) ≡ true)
    → IsBytes bs
    → all_codes p (hex_encode bs) ≡ true
unfolding all_codes hex_encode
all_codes-hex_encode p [] each h = refl
all_codes-hex_encode p (b ∷ bs) each (hb, h) =
    rw (each (b / 16) (omega arith), each (b % 16) (omega arith)) (all_codes-hex_encode p bs each h)

decode_pairs-hex_encode : (bs : List ℕ) → IsBytes bs → decode_pairs (hex_encode bs) ≡ bs
unfolding decode_pairs hex_encode
decode_pairs-hex_encode [] h = refl
decode_pairs-hex_encode (b ∷ bs) (hb, h) =
    rw
      (
        (hex_digit_value (b / 16) (omega arith)).0,
        (hex_digit_value (b % 16) (omega arith)).0,
        decode_pairs-hex_encode bs h,
      )
      (ground arith)

is_hex_of_lower : (c : ℕ) → is_lower_hex c ≡ true → is_hex c ≡ true
unfolding is_hex
is_hex_of_lower c h = ground arith

-- Decoding the digits of a byte array that is not empty gives it back.
pub hex_decode-hex_encode :
    (bs : List ℕ) → 0 < length bs → IsBytes bs → hex_decode (hex_encode bs) ≡ some bs
unfolding hex_decode
hex_decode-hex_encode bs ne h =
    let digits : all_codes is_hex (hex_encode bs) ≡ true =
      all_codes-hex_encode is_hex bs (λ n k. is_hex_of_lower (hex_digit n) (hex_digit_value n k).1)
        h in
    rw (digits, decode_pairs-hex_encode bs h, length-hex_encode bs) (ground arith)

-- The digits of 32 bytes are a stored key.
pub is_stored_key_hex-hex_encode :
    (bs : List ℕ) → length bs ≡ 32 → IsBytes bs → is_stored_key_hex (hex_encode bs) ≡ true
unfolding is_stored_key_hex
is_stored_key_hex-hex_encode bs len h =
    rw
      (
        all_codes-hex_encode is_lower_hex bs (λ n k. (hex_digit_value n k).1) h,
        length-hex_encode bs,
      )
      (ground arith)

all_codes_mono :
    (p q : ℕ → Bool) (cs : List ℕ)
    → ((c : ℕ) → p c ≡ true → q c ≡ true)
    → all_codes p cs ≡ true
    → all_codes q cs ≡ true
unfolding all_codes
all_codes_mono p q [] imp h = refl
all_codes_mono p q (c ∷ cs) imp h = ground (arith, imp c, all_codes_mono p q cs imp)

-- A stored key can be decoded.
pub hex_decode-is_stored_key_hex :
    (text : List ℕ) → is_stored_key_hex text ≡ true → (bs : List ℕ) × (hex_decode text ≡ some bs)
unfolding hex_decode is_stored_key_hex
hex_decode-is_stored_key_hex text h =
    (decode_pairs text, ground (arith, all_codes_mono is_lower_hex is_hex text is_hex_of_lower))

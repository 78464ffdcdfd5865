-- ===== src/Routes/Request.antt =====
-- The checks of a request's texts in apps/api/src/auth/vault-request.ts, and what the handlers take
-- of the platform: the hash functions, the character codes of a string, and Node's Buffer.
use Prim.Native.String
use key_page.Prelude.{
  ℕ, zero, suc, String, Bool, true, false, not, ◌||◌, ◌&&◌, List, [], ◌∷◌, ◌==◌, ◌=ℕ◌, leb, length,
}
use key_page.Http.{HttpError, invalid_request}
use key_page.Db.Action.{Action, throw_if, ◌>>◌}
use key_page.Shared.Bytes.{is_stored_key_hex, is_hex}
use key_page.Shared.Text.{TextOps}
use key_page.Shared.Proof.{Crypto, client_proof_bytes}

pub record Platform : Type 0 where
  pub crypto : Crypto
  -- the hex digest of SHA-256 of a text
  pub sha256_hex : String → String
  pub codes : String → List ℕ
  -- `Buffer.from(_, "base64")`, and `toString("base64")`
  pub from_base64 : String → List ℕ
  pub to_base64 : List ℕ → String
  -- `String.fromCharCode`, and `toUpperCase`
  pub from_codes : List ℕ → String
  pub to_upper_case : String → String
  -- the methods of strings in packages/shared, a number in a template, and a finite `Date.parse`
  pub text : TextOps
  pub number_text : ℕ → String
  pub is_date : String → Bool

-- `[A-Za-z0-9+/]`
is_base64_code : ℕ → Bool
is_base64_code c =
    leb b'A' c && leb c b'Z'
    || leb b'a' c && leb c b'z'
    || leb b'0' c && leb c b'9'
    || c =ℕ b'+'
    || c =ℕ b'/'

-- the last group of STANDARD_BASE64, with or without padding
is_last_group : ℕ → ℕ → ℕ → ℕ → Bool
unfolding is_base64_code
is_last_group a b c d =
    is_base64_code a
    && is_base64_code b
    && (is_base64_code c && is_base64_code d
        || is_base64_code c && d =ℕ b'='
        || c =ℕ b'=' && d =ℕ b'=')

-- STANDARD_BASE64
unfoldable pub is_standard_base64 : List ℕ → Bool
unfolding is_base64_code is_last_group
is_standard_base64 [] = true
is_standard_base64 (a ∷ []) = false
is_standard_base64 (a ∷ b ∷ []) = false
is_standard_base64 (a ∷ b ∷ c ∷ []) = false
is_standard_base64 (a ∷ b ∷ c ∷ d ∷ []) = is_last_group a b c d
is_standard_base64 (a ∷ b ∷ c ∷ d ∷ e ∷ rest) =
    is_base64_code a
    && is_base64_code b
    && is_base64_code c
    && is_base64_code d
    && is_standard_base64 (e ∷ rest)

abbrev pub invalid_field : String → String → HttpError
invalid_field field message =
    invalid_request (String.◌++◌ "Invalid " field)
      (record { field = field; message = message } ∷ [])

module _ (p : Platform) where
  -- validateStoredKeyHex, and the same pattern for a lookup hash
  unfoldable pub validate_stored_key_hex : String → String → Action (Unit {0})
  validate_stored_key_hex value field =
      throw_if (not (is_stored_key_hex (p.codes value)))
        (invalid_field field "must be 64 lowercase hex characters")

  -- decodeExactBase64 throws
  unfoldable pub is_exact_base64 : String → Bool
  is_exact_base64 value =
      not (length (p.codes value) =ℕ 0 || not (is_standard_base64 (p.codes value)))
      && p.to_base64 (p.from_base64 value) == value

  -- validateClientProofB64
  unfoldable pub validate_client_proof_b64 : String → String → Action (Unit {0})
  validate_client_proof_b64 value field = do
    throw_if (not (is_exact_base64 value)) (invalid_field field "must be valid base64")
    throw_if (not (length (p.from_base64 value) =ℕ client_proof_bytes))
        (invalid_field field "must decode to exactly 32 bytes")

one : (ℕ → Bool) → (List ℕ → Bool) → List ℕ → Bool
one p rest [] = false
one p rest (c ∷ cs) = p c && rest cs

digits : ℕ → (List ℕ → Bool) → List ℕ → Bool
digits zero rest cs = rest cs
digits (suc n) rest [] = false
digits (suc n) rest (c ∷ cs) = is_hex c && digits n rest cs

no_more : List ℕ → Bool
no_more [] = true
no_more (c ∷ cs) = false

dash : (List ℕ → Bool) → List ℕ → Bool
unfolding one
dash rest cs = one (λ c. c =ℕ b'-') rest cs

-- `[89ab]` under the flag i
is_variant : ℕ → Bool
is_variant c = c =ℕ b'8' || c =ℕ b'9' || c =ℕ b'a' || c =ℕ b'b' || c =ℕ b'A' || c =ℕ b'B'

-- isUuidV4: UUID_V4_PATTERN
unfoldable pub is_uuid_v4 : List ℕ → Bool
unfolding one digits no_more dash is_variant
is_uuid_v4 cs =
    digits 8
      (dash (
        digits 4 (
          dash (
            one (λ c. c =ℕ b'4')
              (digits 3 (dash (one is_variant (digits 3 (dash (digits 12 no_more))))))))))
      cs

-- validateKeyEntryId
unfoldable pub validate_key_entry_id : Platform → String → Action (Unit {0})
validate_key_entry_id p id =
    throw_if (not (is_uuid_v4 (p.codes id)))
      (invalid_request "Invalid id" (record { field = "id"; message = "must be a UUID v4" } ∷ []))

-- ===== src/Shared/Bytes.antt =====
-- The byte and hex helpers of packages/shared/src/auth-proof.ts. A byte array is a list of numbers
-- below 256, a text of hex digits the list of its character codes; `none` is a thrown Error.
pub mod Xor
pub mod Equal
pub mod Hex
use Prim.Native.Nat.{bit_xor, bit_or}
use key_page.Prelude.{
  ℕ, ◌+◌, ◌-◌, ◌*◌, ◌/◌, ◌%◌, Bool, true, false, ◌&&◌, ◌||◌, not, Option, none, some, List, [], ◌∷◌,
  ltb, leb, ◌=ℕ◌, if◌then◌else◌, length,
}

-- the loop of bytesEqual
difference : ℕ → List ℕ → List ℕ → ℕ
difference diff [] bs = diff
difference diff (a ∷ r) [] = diff
difference diff (a ∷ r) (b ∷ bs) = difference (bit_or diff (bit_xor a b)) r bs

-- bytesEqual
unfoldable pub bytes_equal : List ℕ → List ℕ → Bool
unfolding difference
bytes_equal a b = if not (length a =ℕ length b) then false else difference 0 a b =ℕ 0

xor_each : List ℕ → List ℕ → List ℕ
xor_each [] bs = []
xor_each (a ∷ r) [] = []
xor_each (a ∷ r) (b ∷ bs) = bit_xor a b ∷ xor_each r bs

-- xorBytes
unfoldable pub xor_bytes : List ℕ → List ℕ → Option (List ℕ)
unfolding xor_each
xor_bytes a b = if not (length a =ℕ length b) then none else some (xor_each a b)

unfoldable pub hex_digit : ℕ → ℕ
hex_digit n = if ltb n 10 then b'0' + n else b'a' + (n - 10)

-- hexEncode
unfoldable pub hex_encode : List ℕ → List ℕ
unfolding hex_digit
hex_encode [] = []
hex_encode (b ∷ bs) = hex_digit (b / 16) ∷ hex_digit (b % 16) ∷ hex_encode bs

unfoldable pub is_lower_hex : ℕ → Bool
is_lower_hex c = leb b'0' c && leb c b'9' || leb b'a' c && leb c b'f'

-- `[0-9a-f]` under the flag i
unfoldable pub is_hex : ℕ → Bool
unfolding is_lower_hex
is_hex c = is_lower_hex c || leb b'A' c && leb c b'F'

-- the value of one digit in `Number.parseInt(_, 16)`
hex_value : ℕ → ℕ
hex_value c = if leb c b'9' then c - b'0' else if leb c b'F' then c - b'A' + 10 else c - b'a' + 10

unfoldable pub decode_pairs : List ℕ → List ℕ
unfolding hex_value
decode_pairs [] = []
decode_pairs (c ∷ []) = []
decode_pairs (c ∷ d ∷ cs) = (hex_value c * 16 + hex_value d) ∷ decode_pairs cs

unfoldable pub all_codes : (ℕ → Bool) → List ℕ → Bool
all_codes p [] = true
all_codes p (c ∷ cs) = p c && all_codes p cs

-- hexDecode
unfoldable pub hex_decode : List ℕ → Option (List ℕ)
hex_decode text =
    if length text =ℕ 0 || not (all_codes is_hex text) || not (length text % 2 =ℕ 0)
    then none
    else some (decode_pairs text)

-- isStoredKeyHex: `/^[0-9a-f]{64}$/`
unfoldable pub is_stored_key_hex : List ℕ → Bool
is_stored_key_hex value = length value =ℕ 64 && all_codes is_lower_hex value

-- ===== src/Shared/Bytes/Xor.antt =====
-- XOR of byte arrays, and facts of two bytes by evaluation.
use Prim.Native.Nat.{bit_xor}
use key_page.Prelude.{
  ℕ, zero, suc, ◌<◌, ◌≡◌, refl, Bool, true, ◌&&◌, some, List, [], ◌∷◌, arith, ltb, ◌=ℕ◌, length,
}
use key_page.Tables.{All}
use key_page.Shared.Bytes.{xor_each, xor_bytes}

abbrev pub IsBytes : List ℕ → Type 0
IsBytes bytes = All (λ b. b < 256) bytes

-- a test at every number under the bound, and at all pairs of bytes
unfoldable pub holds_under : (ℕ → Bool) → ℕ → Bool
holds_under test zero = true
holds_under test (suc bound) = holds_under test bound && test bound

unfoldable pub holds_of_bytes : (ℕ → ℕ → Bool) → Bool
unfolding holds_under
holds_of_bytes test = holds_under (λ a. holds_under (test a) 256) 256

holds_under_at :
    (test : ℕ → Bool) (k bound : ℕ) → k < bound → holds_under test bound ≡ true → test k ≡ true
unfolding holds_under
holds_under_at test k zero below e = absurd (omega arith)
holds_under_at test k (suc bound) below e = ground (arith, holds_under_at test k bound)

pub holds_of_bytes_at :
    (test : ℕ → ℕ → Bool) (a b : ℕ)
    → holds_of_bytes test ≡ true
    → a < 256
    → b < 256
    → test a b ≡ true
unfolding holds_of_bytes
holds_of_bytes_at test a b e ha hb =
    holds_under_at (test a) b 256 hb (holds_under_at (λ n. holds_under (test n) 256) a 256 ha e)

xor_cancels : ℕ → ℕ → Bool
xor_cancels a b = bit_xor (bit_xor a b) b =ℕ a && ltb (bit_xor a b) 256

xor_table : holds_of_bytes xor_cancels ≡ true
unfolding holds_of_bytes xor_cancels
xor_table = refl

xor_xor : (a b : ℕ) → a < 256 → b < 256 → (bit_xor (bit_xor a b) b ≡ a) × (bit_xor a b < 256)
unfolding xor_cancels
xor_xor a b ha hb = ground (arith, holds_of_bytes_at xor_cancels a b xor_table ha hb)

xor_each-cancel :
    (a b : List ℕ)
    → IsBytes a
    → IsBytes b
    → length a ≡ length b
    → (xor_each (xor_each a b) b ≡ a) × (length (xor_each a b) ≡ length b) × IsBytes (xor_each a b)
unfolding xor_each
xor_each-cancel [] [] ha hb h = (refl, refl, tt)
xor_each-cancel [] (y ∷ b) ha hb h = absurd (omega arith)
xor_each-cancel (x ∷ a) [] ha hb h = absurd (omega arith)
xor_each-cancel (x ∷ a) (y ∷ b) (hx, ha) (hy, hb) h =
    let (same, shared, bytes) = xor_each-cancel a b ha hb (omega arith) in
    let (cancels, small) = xor_xor x y hx hy in (ground arith, omega arith, (small, bytes))

-- XOR with the same bytes twice gives back the bytes.
pub xor_bytes-cancel :
    (a b : List ℕ)
    → IsBytes a
    → IsBytes b
    → length a ≡ length b
    → (p : List ℕ) × (xor_bytes a b ≡ some p) × (xor_bytes p b ≡ some a) × (length p ≡ length b)
unfolding xor_bytes
xor_bytes-cancel a b ha hb h =
    let (same, shared, bytes) = xor_each-cancel a b ha hb h in
    (xor_each a b, ground arith, ground arith, shared)

length-xor_each : (a b : List ℕ) → length a ≡ length b → length (xor_each a b) ≡ length b
unfolding xor_each
length-xor_each [] b h = h
length-xor_each (x ∷ a) [] h = absurd (omega arith)
length-xor_each (x ∷ a) (y ∷ b) h = omega (arith, length-xor_each a b)

-- Arrays of one length can be combined.
pub xor_bytes_total : (a b : List ℕ) → length a ≡ length b → (p : List ℕ) × (xor_bytes a b ≡ some p)
unfolding xor_bytes
xor_bytes_total a b h = (xor_each a b, ground arith)

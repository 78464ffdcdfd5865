-- ===== src/Shared/Bytes/Equal.antt =====
-- The comparison of byte arrays decides equality, without an early return.
use Prim.Native.Nat.{bit_xor, bit_or}
use key_page.Prelude.{
  ℕ, ◌<◌, ◌≡◌, refl, ◌↔◌, Bool, true, ◌&&◌, ◌||◌, not, ◌+◌, List, [], ◌∷◌, arith, ltb, ◌=ℕ◌, length,
}
use key_page.Shared.Bytes.{difference, bytes_equal}
use key_page.Shared.Bytes.Xor.{IsBytes, holds_of_bytes, holds_of_bytes_at}

-- OR keeps every bit that is set, and XOR is 0 exactly at equal bytes.
or_fits : ℕ → ℕ → Bool
or_fits d e =
    ltb (bit_or d e) 256
    && (bit_or d e =ℕ 0 && d =ℕ 0 && e =ℕ 0 || ltb 0 (bit_or d e) && ltb 0 (d + e))

xor_fits : ℕ → ℕ → Bool
xor_fits a b =
    ltb (bit_xor a b) 256 && (bit_xor a b =ℕ 0 && a =ℕ b || ltb 0 (bit_xor a b) && not (a =ℕ b))

or_table : holds_of_bytes or_fits ≡ true
unfolding holds_of_bytes or_fits
or_table = refl

xor_table : holds_of_bytes xor_fits ≡ true
unfolding holds_of_bytes xor_fits
xor_table = refl

or_zero :
    (d e : ℕ) → d < 256 → e < 256 → (bit_or d e < 256) × ((bit_or d e ≡ 0) ↔ ((d ≡ 0) × (e ≡ 0)))
unfolding or_fits
or_zero d e hd he = ground (arith, holds_of_bytes_at or_fits d e or_table hd he)

xor_zero : (a b : ℕ) → a < 256 → b < 256 → (bit_xor a b < 256) × ((bit_xor a b ≡ 0) ↔ (a ≡ b))
unfolding xor_fits
xor_zero a b ha hb = ground (arith, holds_of_bytes_at xor_fits a b xor_table ha hb)

difference_sound :
    (d : ℕ) (a b : List ℕ)
    → d < 256
    → IsBytes a
    → IsBytes b
    → length a ≡ length b
    → difference d a b ≡ 0
    → (d ≡ 0) × (a ≡ b)
unfolding difference
difference_sound d [] [] hd ha hb h z = (z, refl)
difference_sound d [] (y ∷ b) hd ha hb h z = absurd (omega arith)
difference_sound d (x ∷ a) [] hd ha hb h z = absurd (omega arith)
difference_sound d (x ∷ a) (y ∷ b) hd (hx, ha) (hy, hb) h z =
    let (xs, xz) = xor_zero x y hx hy in
    let (os, oz) = or_zero d (bit_xor x y) hd xs in
    let (e, same) = difference_sound (bit_or d (bit_xor x y)) a b os ha hb (omega arith) z in
    let (dz, xyz) = oz.0 e in (dz, ground (arith, xz.0 xyz))

difference_self : (a : List ℕ) → IsBytes a → difference 0 a a ≡ 0
unfolding difference
difference_self [] h = refl
difference_self (x ∷ a) (hx, h) =
    let (xs, xz) = xor_zero x x hx hx in
    let e : bit_or 0 (bit_xor x x) ≡ 0 =
      (or_zero 0 (bit_xor x x) (omega arith) xs).1.1 (refl, xz.1 refl) in
    rw e (difference_self a h)

-- The two arrays are equal exactly if the comparison says so.
pub bytes_equal_iff : (a b : List ℕ) → IsBytes a → IsBytes b → (bytes_equal a b ≡ true) ↔ (a ≡ b)
unfolding bytes_equal
bytes_equal_iff a b ha hb = (
  λ e. (difference_sound 0 a b (omega arith) ha hb (ground arith) (ground arith)).1,
  λ e. rw (← e) (ground (arith, difference_self a ha)),
)

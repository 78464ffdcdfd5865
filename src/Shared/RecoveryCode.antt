-- ===== src/Shared/RecoveryCode.antt =====
-- packages/shared/src/recovery-code.ts, and the input of a recovery code in
-- apps/web/src/lib/format.ts, on the character codes of a text. `toUpperCase` is a parameter.
pub mod Round
use Prim.Native.String
use key_page.Prelude.{
  ℕ, zero, suc, ◌+◌, Bool, true, false, not, ◌&&◌, ◌||◌, Option, none, some, List, [], ◌∷◌, ◌++◌,
  ◌=ℕ◌, leb, ltb, length, if◌then◌else◌,
}

abbrev pub expected_code_length : ℕ
expected_code_length = 20

-- RECOVERY_CODE_ALPHABET: the digits, and the capitals without I, L, O and U
unfoldable pub in_alphabet : ℕ → Bool
in_alphabet c =
    leb b'0' c && leb c b'9'
    || leb b'A' c && leb c b'Z' && not (c =ℕ b'I' || c =ℕ b'L' || c =ℕ b'O' || c =ℕ b'U')

-- `[0-9A-Z]`
unfoldable pub is_alphanumeric : ℕ → Bool
is_alphanumeric c = leb b'0' c && leb c b'9' || leb b'A' c && leb c b'Z'

-- mapCrockfordChar
unfoldable pub map_crockford_char : ℕ → Option ℕ
map_crockford_char c =
    if c =ℕ b'O'
    then some b'0'
    else if c =ℕ b'I' || c =ℕ b'L'
    then some b'1'
    else if in_alphabet c
    then some c
    else none

-- `replace(/[^0-9A-Z]/g, "")`
unfoldable pub strip : List ℕ → List ℕ
strip [] = []
strip (c ∷ cs) = if is_alphanumeric c then c ∷ strip cs else strip cs

unfoldable pub cons_if : Option ℕ → Option (List ℕ) → Option (List ℕ)
cons_if none cs = none
cons_if (some c) none = none
cons_if (some c) (some cs) = some (c ∷ cs)

-- the loop over the characters
unfoldable pub map_all : List ℕ → Option (List ℕ)
map_all [] = some []
map_all (c ∷ cs) = cons_if (map_crockford_char c) (map_all cs)

unfoldable pub take : ℕ → List ℕ → List ℕ
take zero cs = []
take (suc n) [] = []
take (suc n) (c ∷ cs) = c ∷ take n cs

unfoldable pub drop : ℕ → List ℕ → List ℕ
drop zero cs = cs
drop (suc n) [] = []
drop (suc n) (c ∷ cs) = drop n cs

-- formatRecoveryCode: four groups of five, which are joined by `-`
unfoldable pub format_recovery_code : List ℕ → List ℕ
format_recovery_code cs =
    take 5 cs
    ++ (b'-'
        ∷ (take 5 (drop 5 cs) ++ (b'-' ∷ (take 5 (drop 10 cs) ++ (b'-' ∷ take 5 (drop 15 cs))))))

module _ (to_upper_case : List ℕ → List ℕ) where
  -- normalizeRecoveryCode
  unfoldable pub normalize_recovery_code : List ℕ → Option (List ℕ)
  normalize_recovery_code input =
      let stripped = strip (to_upper_case input) in
      if not (length stripped =ℕ expected_code_length) then none else map_all stripped

  -- the loop of formatRecoveryCodeInput, with the room that is left
  unfoldable pub keep_mapped : ℕ → List ℕ → List ℕ
  keep_mapped room [] = []
  keep_mapped zero (c ∷ cs) = []
  keep_mapped (suc room) (c ∷ cs) = elim (map_crockford_char c) [
    | none ↦ keep_mapped (suc room) cs
    | some mapped ↦ mapped ∷ keep_mapped room cs
  ]

  -- the groups up to the first that is empty, joined
  unfoldable pub join_groups : ℕ → List ℕ → List ℕ
  join_groups zero cs = []
  join_groups (suc n) [] = []
  join_groups (suc n) (c ∷ cs) =
      let group = take 5 (c ∷ cs) in
      let later = join_groups n (drop 5 (c ∷ cs)) in
      if length later =ℕ 0 then group else group ++ (b'-' ∷ later)

  -- formatRecoveryCodeInput
  unfoldable pub format_recovery_code_input : List ℕ → List ℕ
  format_recovery_code_input raw =
      join_groups 4 (keep_mapped expected_code_length (strip (to_upper_case raw)))

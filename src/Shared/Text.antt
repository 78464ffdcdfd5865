-- ===== src/Shared/Text.antt =====
-- The methods of JavaScript's strings that the code calls: `length` counts UTF-16 units. Of `trim` it
-- is used that a text that was trimmed stays as it is, and of `length` that the empty text has none.
use key_page.Prelude.{ℕ, ◌≡◌, String}

pub record TextOps : Type 0 where
  pub trim : String → String
  pub to_lower_case : String → String
  pub length_of : String → ℕ
  pub trim-trim : (s : String) → trim (trim s) ≡ trim s
  pub length_of_empty : length_of "" ≡ 0

-- ===== src/Auth/SetupToken.antt =====
-- apps/api/src/auth/setup-token.ts: the token of the first boot, which claims the vault. The file
-- that holds it is a text and the time of its last change, in milliseconds; a failure of the file
-- system is not modelled.
pub mod Lifetime
use key_page.Prelude.{
  ℕ, ◌+◌, ◌*◌, String, Bool, true, false, ◌&&◌, ◌||◌, ◌=ℕ◌, List, length, Option, none, some, ◌==◌,
  ltb, leb, if◌then◌else◌, or_else,
}
use key_page.Tables.{all}

-- SetupGate, with the clock's reading at which its token expires
pub record SetupGate : Type 0 where
  pub token : Option String
  pub expires_at : ℕ

pub record TokenFile : Type 0 where
  pub content : String
  pub changed_at : ℕ

-- SETUP_TOKEN_PATTERN: `[A-Za-z0-9_-]{43}`
is_token_code : ℕ → Bool
is_token_code c =
    leb b'A' c && leb c b'Z'
    || leb b'a' c && leb c b'z'
    || leb b'0' c && leb c b'9'
    || c =ℕ b'_'
    || c =ℕ b'-'

-- isValidSetupToken, on the character codes
unfoldable pub is_valid_setup_token : List ℕ → Bool
unfolding is_token_code
is_valid_setup_token cs = length cs =ℕ 43 && all is_token_code cs

-- claimedGate
unfoldable pub claimed_gate : SetupGate
claimed_gate = record { token = none; expires_at = 0 }

-- consume, beside the file that it removes
unfoldable pub consume_token : SetupGate → SetupGate
consume_token gate = record gate { token = none }

-- mintToken, with the token that it draws
unfoldable pub mint_token : String → ℕ → TokenFile
mint_token drawn now = record { content = drawn; changed_at = now }

module _ (sha256_hex : String → String) where
  -- verify: `timingSafeEqual` of the two digests
  unfoldable pub verify_token : SetupGate → (candidate : String) → ℕ → Bool
  verify_token gate candidate now = elim gate.token [
    | none ↦ false
    | some current ↦ ltb now gate.expires_at && sha256_hex candidate == sha256_hex current
  ]

module _ (codes : String → List ℕ) (trim : String → String) (drawn : String) where
  -- loadOrMintToken, with the file that it leaves; the token of a file is read without blanks
  unfoldable pub load_or_mint_token : Option TokenFile → ℕ → String × TokenFile
  load_or_mint_token none now = (drawn, mint_token drawn now)
  load_or_mint_token (some file) now =
      if is_valid_setup_token (codes (trim file.content))
      then (trim file.content, file)
      else (drawn, mint_token drawn now)

  -- the second draw of openSetupGate, for a file that is too old
  unfoldable pub renew :
      (again : String) → (ttl_ms now : ℕ) → String × TokenFile → String × TokenFile
  renew again ttl_ms now (token, file) =
      if leb (file.changed_at + ttl_ms) now then (again, mint_token again now) else (token, file)

  unfoldable pub gate_of : ℕ → String × TokenFile → SetupGate × Option TokenFile
  gate_of ttl_ms (token, file) =
      (record { token = some token; expires_at = file.changed_at + ttl_ms }, some file)

  -- openSetupGate, with the file that it leaves
  unfoldable pub open_setup_gate :
      (again : String)
      → (vault_initialized : Bool) → (ttl_minutes : Option ℕ) → Option TokenFile
      → ℕ
      → SetupGate × Option TokenFile
  open_setup_gate again true ttl_minutes file now = (claimed_gate, none)
  open_setup_gate again false ttl_minutes file now =
      let ttl_ms = or_else ttl_minutes 15 * 60000 in
      gate_of ttl_ms (renew again ttl_ms now (load_or_mint_token file now))

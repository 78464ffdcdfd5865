-- ===== src/Tests/Fixtures.antt =====
-- A small vault, and a platform whose hash is constant.
use Prim.Native.String
use key_page.Prelude.{
  ℕ, ◌<◌, refl, String, true, false, none, some, List, [], ◌∷◌, zero, suc, arith, ◌==◌,
  if◌then◌else◌,
}
use key_page.Tables.{All}
use key_page.Db.Rows.{
  Db, KdfParams, pbkdf2_sha256, VaultAuthRow, RecoveryCodeRow, RecoveryTicketRow, SessionRow,
  LoginChallengeRow, login,
}
use key_page.Shared.Text.{TextOps}
use key_page.Shared.Proof.{Crypto, IsHash}
use key_page.Auth.Throttle.{ThrottleConfig}
use key_page.Auth.Sessions.{SessionRequest, NewSession}
use key_page.Auth.Rotation.{Material, NewVault}
use key_page.Routes.Request.{Platform}
use key_page.Routes.Login.{Server, LoginBody}
use key_page.Integrity.Reachable.{empty_db}

abbrev pub copies : ℕ → ℕ → List ℕ
copies zero n = []
copies (suc k) n = n ∷ copies k n

abbrev pub zero_hash : List ℕ
zero_hash = copies 32 0

zeros_small : (k : ℕ) → All (λ b. b < 256) (copies k 0)
zeros_small zero = tt
zeros_small (suc k) = (omega arith, zeros_small k)

pub zero_hash-IsHash : IsHash zero_hash
zero_hash-IsHash = (refl, zeros_small 32)

abbrev pub constant_crypto : Crypto
constant_crypto = record {
  hmac_sha256 = λ key message. zero_hash;
  sha256 = λ bytes. zero_hash;
  utf8 = λ text. [];
  hmac_sha256-IsHash = λ key message. zero_hash-IsHash;
  sha256-IsHash = λ bytes. zero_hash-IsHash;
}

abbrev pub mark : String → String
mark s = String.◌++◌ "hash of " s

-- texts without blanks around them or capital letters
abbrev pub count_chars : String → ℕ
count_chars String.[] = 0
count_chars (String.◌∷◌ c s) = suc (count_chars s)

abbrev pub plain_text : TextOps
plain_text = record {
  trim = λ s. s;
  to_lower_case = λ s. s;
  length_of = count_chars;
  trim-trim = λ s. refl;
  length_of_empty = refl;
}

-- a salt of 16 bytes, a wrapped key of 60 bytes, and proofs of 32 bytes
abbrev decoded : String → List ℕ
decoded text =
    if text == "salt" then copies 16 0 else if text == "wrapped" then copies 60 0 else zero_hash

abbrev pub platform : Platform
platform = record {
  crypto = constant_crypto;
  sha256_hex = mark;
  codes = λ text. copies 64 48;
  from_base64 = decoded;
  to_base64 = λ bytes. "AAAA";
  from_codes = λ codes. "0";
  to_upper_case = λ text. text;
  text = plain_text;
  number_text = λ n. "n";
  is_date = λ text. true;
}

abbrev pub config : ThrottleConfig
config = record { max_attempts = 3; failure_window_seconds = 900; lockout_seconds = 60 }

abbrev pub server : Server
server = record { platform = platform; throttle = config; idle_timeout_seconds = 300 }

abbrev pub request : SessionRequest
request = record { cookie = some "token"; user_agent = none; ip = none }

abbrev pub new_session : NewSession
new_session = record { id = "s2"; token = "token"; lifetime_hours = 1 }

abbrev pub kdf : KdfParams
kdf = record {
  algorithm = pbkdf2_sha256;
  salt_b64 = "salt";
  iterations = 600000;
  memory_kib = none;
  parallelism = none;
}

abbrev pub vault : VaultAuthRow
vault = record {
  kdf = kdf;
  auth_verifier = "proof:v1";
  auth_stored_key = some "00";
  recovery_stored_key = some "00";
  key_version = 1;
  created_at = 0;
  updated_at = 0;
}

abbrev pub code : RecoveryCodeRow
code = record {
  id = "c1";
  label = "A";
  lookup_hash = "lookup";
  kdf = kdf;
  wrapped_master_key = "wrapped";
  key_version = 1;
  created_at = 0;
  used_at = some 5;
}

abbrev pub ticket : RecoveryTicketRow
ticket = record {
  id = "t1";
  token_hash = mark "ticket";
  recovery_code_id = "c1";
  created_at = 5;
  expires_at = 1000;
  consumed_at = none;
  challenge_nonce = none;
}

abbrev pub old_session : SessionRow
old_session = record {
  id = "s1";
  token_hash = mark "old";
  created_at = 0;
  last_seen_at = 0;
  absolute_expires_at = 100000;
  revoked_at = none;
  user_agent = none;
  ip = none;
}

abbrev pub challenge : LoginChallengeRow
challenge = record {
  id = "ch";
  nonce_b64 = "nonce";
  created_at = 0;
  expires_at = 60000;
  purpose = login;
}

-- a vault in recovery, with an open session, an open challenge and an open ticket
abbrev pub vault_db : Db
vault_db = record {
  vault_auth = some vault;
  recovery_codes = code ∷ [];
  sessions = old_session ∷ [];
  recovery_tickets = ticket ∷ [];
  login_challenges = challenge ∷ [];
  login_throttle = empty_db.login_throttle;
  recovery_throttle = empty_db.recovery_throttle;
  key_entries = [];
  activity_events = [];
}

abbrev pub login_body : LoginBody
login_body = record {
  challenge_id = some "ch";
  nonce_b64 = some "nonce";
  client_proof_b64 = some "AAAA";
  has_auth_key = false;
}

abbrev pub material : Material
material = record {
  kdf = kdf;
  proof_keys = record { auth_stored_key_hex = "11"; recovery_stored_key_hex = "22" };
  recovery_codes = [];
  entries = [];
}

abbrev pub new_vault : NewVault
new_vault = record { code_id = λ n. "c2"; session = new_session }

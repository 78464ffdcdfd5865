-- ===== src/Auth/Challenges.antt =====
-- apps/api/src/auth/login-challenges.ts: single-use challenges for login and for key writes.
pub mod Laws
pub mod SingleUse
use key_page.Prelude.{
  ℕ, ◌+◌, ◌*◌, String, Bool, true, false, ◌&&◌, Option, ◌∷◌, ltb, leb, ◌==◌, if◌then◌else◌,
}
use key_page.Http.{rate_limited, constraint_primary_key}
use key_page.Tables.{find, delete, count, any}
use key_page.Db.Rows.{Db, ChallengePurpose, login, key_write, LoginChallengeRow}
use key_page.Db.Action.{Action, pure, read, write, throw_if, ◌>>=◌, ◌>>◌}

abbrev pub login_challenge_ttl_seconds : ℕ
login_challenge_ttl_seconds = 60

abbrev pub login_challenge_max_open : ℕ
login_challenge_max_open = 20

abbrev pub same_purpose : ChallengePurpose → ChallengePurpose → Bool
same_purpose login login = true
same_purpose login key_write = false
same_purpose key_write login = false
same_purpose key_write key_write = true

abbrev too_many : ChallengePurpose → String
too_many login = "Too many outstanding login challenges"
too_many key_write = "Too many outstanding key-write challenges"

-- `SELECT COUNT(*) … WHERE purpose = ?`
unfoldable pub open_challenges : ChallengePurpose → Db → ℕ
open_challenges purpose db = count (λ c. same_purpose c.purpose purpose) db.login_challenges

-- IssuedLoginChallenge
pub record IssuedLoginChallenge : Type 0 where
  pub challenge_id : String
  pub nonce_b64 : String
  pub expires_at : ℕ

challenge_row : ChallengePurpose → String → String → ℕ → LoginChallengeRow
challenge_row purpose id nonce now = record {
  id = id;
  nonce_b64 = nonce;
  created_at = now;
  expires_at = now + login_challenge_ttl_seconds * 1000;
  purpose = purpose;
}

-- createLoginChallenge, with the id and the nonce that it draws
unfoldable pub create_login_challenge :
    ChallengePurpose → (id nonce : String) → ℕ → Action IssuedLoginChallenge
unfolding open_challenges challenge_row
create_login_challenge purpose id nonce now = do
  write (λ db. record db {
    login_challenges = delete (λ c. ltb c.expires_at now) db.login_challenges;
  })
  outstanding ← read (open_challenges purpose)
  throw_if (leb login_challenge_max_open outstanding)
      (rate_limited (too_many purpose) login_challenge_ttl_seconds)
  taken ← read (λ db. any (λ c. c.id == id) db.login_challenges)
  throw_if taken constraint_primary_key
  let row = challenge_row purpose id nonce now
  write (λ db. record db { login_challenges = row ∷ db.login_challenges })
  pure (record { challenge_id = id; nonce_b64 = nonce; expires_at = row.expires_at })

-- the row that `consumeLoginChallenge` deletes
unfoldable pub is_match : String → String → ChallengePurpose → ℕ → LoginChallengeRow → Bool
is_match id nonce purpose now c =
    c.id == id && c.nonce_b64 == nonce && same_purpose c.purpose purpose && ltb now c.expires_at

-- consumeLoginChallenge: `DELETE … RETURNING`
unfoldable pub consume_login_challenge :
    (id nonce : String) → ChallengePurpose → ℕ → Action (Option LoginChallengeRow)
consume_login_challenge id nonce purpose now = do
  row ← read (λ db. find (is_match id nonce purpose now) db.login_challenges)
  write (λ db. record db {
    login_challenges = delete (is_match id nonce purpose now) db.login_challenges;
  })
  pure row

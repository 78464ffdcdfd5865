-- ===== src/Auth/Challenges/Laws.antt =====
-- Challenges are single-use, expire, and are bounded for each purpose.
use key_page.Prelude.{
  ℕ, ◌≤◌, ◌≡◌, String, Bool, false, List, ◌∷◌, arith, ltb, leb, ◌==◌, Bool-cases, inl, inr,
}
use key_page.Tables.{delete, count, any}
use key_page.Tables.Laws.{count-delete-le}
use key_page.Db.Rows.{Db, ChallengePurpose, login, key_write, LoginChallengeRow}
use key_page.Auth.Challenges.{
  login_challenge_max_open, same_purpose, open_challenges, challenge_row, create_login_challenge,
}

-- No purpose has more open challenges than the cap.
pub record IsCapped (db : Db) : Type 0 where
  pub login_capped : open_challenges login db ≤ login_challenge_max_open
  pub key_write_capped : open_challenges key_write db ≤ login_challenge_max_open

abbrev Capped : List LoginChallengeRow → Type 0
Capped cs =
    (count (λ c. same_purpose c.purpose login) cs ≤ login_challenge_max_open)
    × (count (λ c. same_purpose c.purpose key_write) cs ≤ login_challenge_max_open)

delete-Capped :
    (p : LoginChallengeRow → Bool) (cs : List LoginChallengeRow) → Capped cs → Capped (delete p cs)
delete-Capped p cs h = omega (
  arith,
  count-delete-le (λ c. same_purpose c.purpose login) p cs,
  count-delete-le (λ c. same_purpose c.purpose key_write) p cs,
)

add-Capped :
    (purpose : ChallengePurpose) (id nonce : String) (now : ℕ) (cs : List LoginChallengeRow)
    → Capped cs
    → leb login_challenge_max_open (count (λ c. same_purpose c.purpose purpose) cs) ≡ false
    → Capped (challenge_row purpose id nonce now ∷ cs)
unfolding count challenge_row
add-Capped login id nonce now cs h e = ground arith
add-Capped key_write id nonce now cs h e = ground arith

-- Issuing a challenge keeps the cap of both purposes, whether it succeeds or throws.
pub create_login_challenge-IsCapped :
    (purpose : ChallengePurpose) (id nonce : String) (now : ℕ) (db : Db)
    → IsCapped db
    → IsCapped (create_login_challenge purpose id nonce now db).1
unfolding create_login_challenge key_page.Db.Action.throw_if open_challenges
create_login_challenge-IsCapped purpose id nonce now db h =
    let kept = delete (λ c. ltb c.expires_at now) db.login_challenges in
    let capped =
      delete-Capped (λ c. ltb c.expires_at now) db.login_challenges
        (h.login_capped, h.key_write_capped) in
    elim (Bool-cases
      (leb login_challenge_max_open (count (λ c. same_purpose c.purpose purpose) kept))) [
        | inl full ↦ rw full (record { login_capped = capped.0; key_write_capped = capped.1 })
        | inr room ↦ rw room (elim (Bool-cases (any (λ c. c.id == id) kept)) [
          | inl taken ↦ rw taken (record { login_capped = capped.0; key_write_capped = capped.1 })
          | inr free ↦
              let more = add-Capped purpose id nonce now kept capped room in
              rw free (record { login_capped = more.0; key_write_capped = more.1 })
        ])
      ]

-- ===== src/Auth/Challenges/SingleUse.antt =====
-- A challenge that was issued can be consumed once, for its purpose, until it expires.
use key_page.Prelude.{
  ℕ, ◌+◌, ◌*◌, ◌≤◌, ◌≡◌, refl, String, Bool, true, false, ◌&&◌, Option, none, List, [], ◌∷◌, arith,
  ltb, is_some, ◌==◌,
}
use text.Mathlib.TextPositions.{eq_refl}
use key_page.Tables.{find, delete, any}
use key_page.Tables.Laws.{find-delete, find_of_any-false}
use key_page.Db.Rows.{Db, ChallengePurpose, LoginChallengeRow}
use key_page.Db.Action.{ok}
use key_page.Db.Leaves.{Leaves-end, Leaves-throw_if}
use key_page.Auth.Challenges.{
  same_purpose, IssuedLoginChallenge, challenge_row, create_login_challenge, is_match,
  consume_login_challenge,
}

pub is_match-later :
    (id nonce : String) (purpose : ChallengePurpose) (now later : ℕ) (c : LoginChallengeRow)
    → now ≤ later
    → is_match id nonce purpose later c ≡ true
    → is_match id nonce purpose now c ≡ true
unfolding is_match
is_match-later id nonce purpose now later c h m = ground arith

-- Whether or not a challenge was found, consuming the same one again, at the same time or later,
-- finds nothing.
pub consume-consume :
    (id nonce : String) (purpose : ChallengePurpose) (now later : ℕ) (db : Db)
    → now ≤ later
    → (consume_login_challenge id nonce purpose later
        (consume_login_challenge id nonce purpose now db).1).0
      ≡ ok none
unfolding consume_login_challenge
consume-consume id nonce purpose now later db h = rw (
    find-delete (is_match id nonce purpose later) (is_match id nonce purpose now)
      db.login_challenges (λ c m. is_match-later id nonce purpose now later c h m))

is_match-id :
    (id nonce : String) (purpose : ChallengePurpose) (now : ℕ) (c : LoginChallengeRow)
    → is_match id nonce purpose now c ≡ true
    → (c.id == id) ≡ true
unfolding is_match
is_match-id id nonce purpose now c m = ground arith

is_match-issued :
    (purpose asked : ChallengePurpose) (id nonce : String) (now t : ℕ)
    → is_match id nonce asked t (challenge_row purpose id nonce now)
      ≡ (same_purpose purpose asked && ltb t (now + 60 * 1000))
unfolding is_match challenge_row
is_match-issued purpose asked id nonce now t = rw (eq_refl id, eq_refl nonce)

module _ (purpose : ChallengePurpose) (id nonce : String) (now : ℕ) (db : Db) where
  kept : List LoginChallengeRow
  kept = delete (λ c. ltb c.expires_at now) db.login_challenges

  create-ok :
      {issued : IssuedLoginChallenge} {db' : Db}
      → create_login_challenge purpose id nonce now db ≡ (ok issued, db')
      → (any (λ c. c.id == id) kept ≡ false)
        × (db'.login_challenges ≡ challenge_row purpose id nonce now ∷ kept)
        × (issued.expires_at ≡ now + 60 * 1000)
        × (issued.challenge_id ≡ id)
        × (issued.nonce_b64 ≡ nonce)
  unfolding create_login_challenge key_page.Db.Action.throw_if kept challenge_row
  create-ok e = ground arith

  issued_found :
      (asked : ChallengePurpose) (t : ℕ)
      → any (λ c. c.id == id) kept ≡ false
      → is_some (find (is_match id nonce asked t) (challenge_row purpose id nonce now ∷ kept))
        ≡ (same_purpose purpose asked && ltb t (now + 60 * 1000))
  unfolding find
  issued_found asked t free = ground (
    arith,
    is_match-issued purpose asked id nonce now t,
    find_of_any-false (is_match id nonce asked t) (λ c. c.id == id) kept
        (is_match-id id nonce asked t) free,
  )

  -- A challenge that was issued is found by its id, its nonce and its purpose until sixty seconds
  -- after it was issued, and neither later nor for the other purpose.
  pub create-consume :
      {issued : IssuedLoginChallenge} {db' : Db} (asked : ChallengePurpose) (t : ℕ)
      → create_login_challenge purpose id nonce now db ≡ (ok issued, db')
      → (found : Option LoginChallengeRow) × ((consume_login_challenge issued.challenge_id
            issued.nonce_b64 asked t db').0
          ≡ ok found)
        × (is_some found ≡ (same_purpose purpose asked && ltb t (now + 60 * 1000)))
  unfolding consume_login_challenge find
  create-consume {issued} {db'} asked t e =
      let (free, rows, expires, same_id, same_nonce) = create-ok e in
      (
        find (is_match id nonce asked t) (challenge_row purpose id nonce now ∷ kept),
        rw (same_id, same_nonce, rows) refl,
        issued_found asked t free,
      )

-- what may become of the challenges from one database to a later one, where `id` is not issued again:
-- others are issued, any are consumed, and everything else leaves them as they are
pub data Meanwhile (id : String) (db : Db) : Db → Type 0 where
  nothing : Meanwhile id db db
  issues :
      {d : Db} (purpose : ChallengePurpose) (other nonce : String) (t : ℕ)
      → (other == id) ≡ false
      → Meanwhile id db d
      → Meanwhile id db (create_login_challenge purpose other nonce t d).1
  consumes :
      {d : Db} (purpose : ChallengePurpose) (other nonce : String) (t : ℕ)
      → Meanwhile id db d
      → Meanwhile id db (consume_login_challenge other nonce purpose t d).1
  leaves :
      {d : Db} (d' : Db)
      → d'.login_challenges ≡ d.login_challenges
      → Meanwhile id db d
      → Meanwhile id db d'

pub find-imp :
    (p q : LoginChallengeRow → Bool) (rows : List LoginChallengeRow)
    → ((c : LoginChallengeRow) → q c ≡ true → p c ≡ true)
    → find p rows ≡ none
    → find q rows ≡ none
unfolding find
find-imp p q [] imp h = refl
find-imp p q (c ∷ rows) imp h = ground (arith, imp c, find-imp p q rows imp)

find-delete-none :
    (p q : LoginChallengeRow → Bool) (rows : List LoginChallengeRow)
    → find p rows ≡ none
    → find p (delete q rows) ≡ none
unfolding find delete
find-delete-none p q [] h = refl
find-delete-none p q (c ∷ rows) h = ground (arith, find-delete-none p q rows)

module _ (id nonce : String) (asked : ChallengePurpose) (now : ℕ) where
  abbrev IsGone : Db → Type 0
  IsGone db = find (is_match id nonce asked now) db.login_challenges ≡ none

  find-other :
      (purpose : ChallengePurpose) (other given : String) (t : ℕ) (rows : List LoginChallengeRow)
      → (other == id) ≡ false
      → find (is_match id nonce asked now) rows ≡ none
      → find (is_match id nonce asked now) (challenge_row purpose other given t ∷ rows) ≡ none
  unfolding find is_match challenge_row
  find-other purpose other given t rows differs h = rw differs h

  issue-IsGone :
      (purpose : ChallengePurpose) (other given : String) (t : ℕ) (d : Db)
      → (other == id) ≡ false
      → IsGone d
      → IsGone (create_login_challenge purpose other given t d).1
  unfolding create_login_challenge
  issue-IsGone purpose other given t d differs h =
      let kept : IsGone
          (record d { login_challenges = delete (λ c. ltb c.expires_at t) d.login_challenges }) =
        find-delete-none _ _ d.login_challenges h in
      (Leaves-throw_if {P = IsGone} _ _ _ _ kept λ room.
        Leaves-throw_if {P = IsGone} _ _ _ _ kept
          λ free. Leaves-end _ _ (find-other purpose other given t _ differs kept)).at

  pub Meanwhile-IsGone : {db d : Db} → Meanwhile id db d → IsGone db → IsGone d
  unfolding consume_login_challenge
  Meanwhile-IsGone nothing h = h
  Meanwhile-IsGone (issues {d} purpose other given t differs m) h =
      issue-IsGone purpose other given t d differs (Meanwhile-IsGone m h)
  Meanwhile-IsGone (consumes {d} purpose other given t m) h =
      find-delete-none _ _ d.login_challenges (Meanwhile-IsGone m h)
  Meanwhile-IsGone (leaves d' same m) h = rw same (Meanwhile-IsGone m h)

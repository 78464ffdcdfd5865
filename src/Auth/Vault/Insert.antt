-- ===== src/Auth/Vault/Insert.antt =====
-- When the UNIQUE and PRIMARY KEY constraints of recovery_codes let new codes in.
use key_page.Prelude.{ℕ, suc, ◌≤◌, ◌<◌, ◌≡◌, refl, String, false, List, [], ◌∷◌, map, arith, ◌==◌}
use key_page.Tables.{any, contains}
use key_page.Db.Rows.{Db, RecoveryCodeRow}
use key_page.Db.Action.{ok, throw_if}
use key_page.Auth.Vault.{
  Envelope, code_row, insert_recovery_code, insert_recovery_codes, replace_recovery_codes,
}

-- no lookup hash is among `seen` or stands before
abbrev pub AreNew : List Envelope → List String → Type 0
AreNew [] seen = Unit
AreNew (e ∷ es) seen = (contains e.lookup_hash seen ≡ false) × AreNew es (e.lookup_hash ∷ seen)

-- the ids that are drawn are different
abbrev pub DrawsApart : (ℕ → String) → Type 0
DrawsApart new_id = (i j : ℕ) → i < j → (new_id i == new_id j) ≡ false

any_hash :
    (h : String) (codes : List RecoveryCodeRow)
    → any (λ c. c.lookup_hash == h) codes ≡ contains h (map (λ c. c.lookup_hash) codes)
unfolding any contains
any_hash h [] = refl
any_hash h (c ∷ codes) = rw (any_hash h codes) refl

-- no code has an id that is still to be drawn
AreAhead : (ℕ → String) → ℕ → List RecoveryCodeRow → Type 0
AreAhead new_id k codes = (j : ℕ) → k ≤ j → any (λ c. c.id == new_id j) codes ≡ false

insert_recovery_codes-ok :
    (es : List Envelope) (new_id : ℕ → String) (k n now : ℕ) (db : Db)
    → DrawsApart new_id
    → AreAhead new_id k db.recovery_codes
    → AreNew es (map (λ c. c.lookup_hash) db.recovery_codes)
    → (insert_recovery_codes es new_id k n now db).0 ≡ ok tt
unfolding insert_recovery_codes insert_recovery_code AreAhead throw_if code_row any
insert_recovery_codes-ok [] new_id k n now db apart ahead new = refl
insert_recovery_codes-ok (e ∷ es) new_id k n now db apart ahead new =
    rw (ahead k (omega arith), any_hash e.lookup_hash db.recovery_codes, new.0)
      (insert_recovery_codes-ok es new_id (suc k) n now _ apart
        (λ j later. rw (apart k j (omega (arith, later)), ahead j (omega (arith, later))) refl)
        new.1)

pub replace_recovery_codes-ok :
    (es : List Envelope) (new_id : ℕ → String) (n now : ℕ) (db : Db)
    → DrawsApart new_id
    → AreNew es []
    → (replace_recovery_codes es new_id n now db).0 ≡ ok tt
unfolding replace_recovery_codes AreAhead any
replace_recovery_codes-ok es new_id n now db apart new =
    insert_recovery_codes-ok es new_id 0 n now _ apart (λ j later. refl) new

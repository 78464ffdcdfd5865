-- ===== src/Auth/Vault/Codes.antt =====
-- What replacing the recovery codes leaves behind.
use key_page.Prelude.{
  ℕ, suc, ◌+◌, ◌≡◌, refl, ◌∙◌, ap, String, true, none, List, [], ◌∷◌, ◌++◌, map, arith, length,
  is_none,
}
use mathlib.Core.List.{Perm, perm_middle}
use mathlib.Core.List.Perm
use key_page.Tables.{All, count}
use key_page.Tables.Laws.{delete-eq-nil}
use key_page.Db.Rows.{Db, RecoveryCodeRow}
use key_page.Db.Ensures.{Ensures, Ensures-ok, Ensures-bind, Ensures-throw_if, Ensures-mono}
use key_page.Auth.Vault.{
  Envelope, belongs, code_row, insert_recovery_code, insert_recovery_codes, replace_recovery_codes,
}

-- an unused code for the key version
abbrev pub IsFresh : ℕ → RecoveryCodeRow → Type 0
IsFresh n c = (c.key_version ≡ n) × (c.used_at ≡ none)

-- what a row keeps of the envelope that was sent
abbrev pub envelope_of : RecoveryCodeRow → Envelope
envelope_of c = record {
  label = c.label;
  lookup_hash = c.lookup_hash;
  kdf = c.kdf;
  wrapped_master_key_b64 = c.wrapped_master_key;
}

-- the rows that hold these envelopes, in some order, beside those of before
abbrev Holds : List Envelope → Db → Db → Type 0
Holds envelopes db db' =
    Perm (map envelope_of db'.recovery_codes) (envelopes ++ map envelope_of db.recovery_codes)

record Inserted (n : ℕ) (envelopes : List Envelope) (db db' : Db) : Type 0 where
  rest : db' ≡ record db { recovery_codes = db'.recovery_codes }
  fresh : All (IsFresh n) db.recovery_codes → All (IsFresh n) db'.recovery_codes
  number : length db'.recovery_codes ≡ length db.recovery_codes + length envelopes
  holds : Holds envelopes db db'

insert_recovery_code-Inserted :
    (envelope : Envelope) (id : String) (n now : ℕ) (db : Db)
    → Ensures
        (insert_recovery_code envelope id n now db)
        (λ _ db'. Inserted n (envelope ∷ []) db db')
unfolding insert_recovery_code code_row
insert_recovery_code-Inserted envelope id n now db = Ensures-throw_if _ _ _ _ λ free_id.
    Ensures-throw_if _ _ _ _ λ free_hash. Ensures-ok _ _ _ (record {
      rest = refl;
      fresh = λ h. ((refl, refl), h);
      number = omega arith;
      holds = Perm.refl _;
    })

append-perm : (zs : List Envelope) {xs ys : List Envelope} → Perm xs ys → Perm (zs ++ xs) (zs ++ ys)
append-perm [] p = p
append-perm (z ∷ zs) p = Perm.cons z (append-perm zs p)

insert_recovery_codes-Inserted :
    (envelopes : List Envelope) (new_id : ℕ → String) (k n now : ℕ) (db : Db)
    → Ensures
        (insert_recovery_codes envelopes new_id k n now db)
        (λ _ db'. Inserted n envelopes db db')
unfolding insert_recovery_codes
insert_recovery_codes-Inserted [] new_id k n now db =
    Ensures-ok _ _ _
      (record { rest = refl; fresh = λ h. h; number = omega arith; holds = Perm.refl _ })
insert_recovery_codes-Inserted (envelope ∷ envelopes) new_id k n now db =
    Ensures-bind (λ _ d. Inserted n (envelope ∷ []) db d) _ _
      (insert_recovery_code-Inserted envelope (new_id k) n now db)
      λ _ d one.
        Ensures-mono _ (λ _ db'. Inserted n envelopes d db')
          (insert_recovery_codes-Inserted envelopes new_id (suc k) n now d)
          λ _ db' more. record {
            rest =
                more.rest
                ∙ ap {A = Db} (λ x. record x { recovery_codes = db'.recovery_codes }) one.rest;
            fresh = λ h. more.fresh (one.fresh h);
            number = omega (arith, one.number, more.number);
            holds = Perm.trans more.holds (
                Perm.trans (append-perm envelopes one.holds)
                  (perm_middle envelopes (map envelope_of db.recovery_codes)));
          }

-- the codes are those of the envelopes, in some order, all unused and for the key version; there is
-- no ticket; the rest is as it was
pub record Replaced (n : ℕ) (envelopes : List Envelope) (db db' : Db) : Type 0 where
  pub rest : db' ≡ record db { recovery_codes = db'.recovery_codes; recovery_tickets = [] }
  pub fresh : All (IsFresh n) db'.recovery_codes
  pub number : length db'.recovery_codes ≡ length envelopes
  pub contents : Perm (map envelope_of db'.recovery_codes) envelopes

of_append_nil : (xs : List Envelope) → Perm (xs ++ []) xs
of_append_nil [] = Perm.refl []
of_append_nil (x ∷ xs) = Perm.cons x (of_append_nil xs)

-- After a replacement of the recovery codes that returned, where every ticket belonged to a code, the
-- rows hold the labels, lookup hashes, key derivations and wrapped keys of the given envelopes, each
-- envelope once and in some order; all are unused and for the key version; no ticket is left; and
-- nothing else has changed.
pub replace_recovery_codes-Replaced :
    (envelopes : List Envelope) (new_id : ℕ → String) (n now : ℕ) (db : Db)
    → All (λ t. belongs db.recovery_codes t ≡ true) db.recovery_tickets
    → Ensures
        (replace_recovery_codes envelopes new_id n now db)
        (λ _ db'. Replaced n envelopes db db')
unfolding replace_recovery_codes
replace_recovery_codes-Replaced envelopes new_id n now db owned =
    rw (delete-eq-nil (belongs db.recovery_codes) db.recovery_tickets owned) (
      Ensures-mono _
        (λ _ db'.
          Inserted n envelopes (record db { recovery_codes = []; recovery_tickets = [] }) db')
        (insert_recovery_codes-Inserted envelopes new_id 0 n now _)
        λ _ db' done. record {
          rest = done.rest;
          fresh = done.fresh tt;
          number = omega (arith, done.number);
          contents = Perm.trans done.holds (of_append_nil envelopes);
        })

-- Fresh codes are all counted as unused.
pub count_unused-IsFresh :
    (n : ℕ) (codes : List RecoveryCodeRow)
    → All (IsFresh n) codes
    → count (λ c. is_none c.used_at) codes ≡ length codes
unfolding count
count_unused-IsFresh n [] h = refl
count_unused-IsFresh n (c ∷ codes) (f, h) = ground (arith, count_unused-IsFresh n codes h)

-- ===== src/Integrity/Claim.antt =====
-- Claiming a recovery code, and the setup, keep the vault coherent.
use key_page.Prelude.{
  ℕ, ◌≡◌, refl, String, Bool, true, false, ◌&&◌, Option, none, some, List, [], ◌∷◌, arith, ◌==◌,
  is_none, ◌=ℕ◌,
}
use key_page.Tables.{All, update, any, count}
use key_page.Tables.Laws.{update-All}
use key_page.Db.Rows.{Db, RecoveryTicketRow, RecoveryCodeRow, VaultAuthRow, KeyEntryRow}
use key_page.Db.Action.{roll_back, transaction}
use key_page.Db.Laws.{Keeps}
use key_page.Db.Ensures.{Ensures, Ensures-ok, Ensures-bind, Ensures-throw_if, Keeps-commit}
use key_page.Db.Leaves.{Leaves, Leaves-end, Leaves-bind, Leaves-require}
use key_page.Auth.Sessions.{revoke_all_sessions}
use key_page.Auth.Vault.{belongs}
use key_page.Auth.Claim.{
  NewTicket, insert_ticket, burn_rest, burn_code, claim_code, claim_recovery_code,
}
use key_page.Integrity.{Labelled, IsCoherent}

any-update :
    (k : String) (p : RecoveryCodeRow → Bool) (now : ℕ) (codes : List RecoveryCodeRow)
    → any (λ c. c.id == k) (update p (λ c. record c { used_at = some now }) codes)
      ≡ any (λ c. c.id == k) codes
unfolding any update
any-update k p now [] = refl
any-update k p now (c ∷ codes) = ground (arith, any-update k p now codes)

any-count :
    (k : String) (q : RecoveryCodeRow → Bool) (codes : List RecoveryCodeRow)
    → (count (λ c. c.id == k && q c) codes =ℕ 0) ≡ false
    → any (λ c. c.id == k) codes ≡ true
unfolding any count
any-count k q [] h = ground arith
any-count k q (c ∷ codes) h = ground (arith, any-count k q codes)

owned-update :
    (p : RecoveryCodeRow → Bool) (now : ℕ) (codes : List RecoveryCodeRow)
    (tickets : List RecoveryTicketRow)
    → All (λ t. belongs codes t ≡ true) tickets
    → All (λ t. belongs (update p (λ c. record c { used_at = some now }) codes) t ≡ true) tickets
unfolding belongs
owned-update p now codes [] h = tt
owned-update p now codes (t ∷ tickets) (b, h) =
    (rw (any-update t.recovery_code_id p now codes) b, owned-update p now codes tickets h)

codes-Labelled :
    (o : Option VaultAuthRow) (entries : List KeyEntryRow) (p : RecoveryCodeRow → Bool) (now : ℕ)
    (codes : List RecoveryCodeRow)
    → Labelled o entries codes
    → Labelled o entries (update p (λ c. record c { used_at = some now }) codes)
unfolding update
codes-Labelled none entries p now codes (e, c) = (e, rw c refl)
codes-Labelled (some v) entries p now codes (e, c) =
    (e, update-All (λ c. c.key_version ≡ v.key_version) p _ codes (λ c k. k) c)

-- the code is used
abbrev use_code : (RecoveryCodeRow → Bool) → ℕ → Db → Db
use_code p now db = record db {
  recovery_codes = update p (λ c. record c { used_at = some now }) db.recovery_codes;
}

used-IsCoherent :
    (p : RecoveryCodeRow → Bool) (now : ℕ) (db : Db)
    → IsCoherent db
    → IsCoherent (use_code p now db)
used-IsCoherent p now db h = record {
  labelled = codes-Labelled db.vault_auth db.key_entries p now db.recovery_codes h.labelled;
  tickets = owned-update p now db.recovery_codes db.recovery_tickets h.tickets;
  unique = h.unique;
}

module _ (sha256_hex : String → String) (new : NewTicket) (now : ℕ) where
  burn_rest-IsCoherent :
      (code : RecoveryCodeRow) (unchanged : Bool) (db : Db)
      → (unchanged ≡ false → any (λ c. c.id == code.id) db.recovery_codes ≡ true)
      → IsCoherent db
      → Ensures (burn_rest sha256_hex new code now unchanged db) (λ _ db'. IsCoherent db')
  unfolding burn_rest insert_ticket revoke_all_sessions belongs
  burn_rest-IsCoherent code true db there h = Ensures-ok _ _ _ h
  burn_rest-IsCoherent code false db there h =
      Ensures-bind (λ _ d. IsCoherent d) _ _
        (Ensures-throw_if _ _ _ _ λ free_id. Ensures-throw_if _ _ _ _ λ free_hash.
          Ensures-ok _ _ _ (record {
            labelled = h.labelled;
            tickets = (there refl, h.tickets);
            unique = h.unique;
          }))
        λ _ d k.
          Ensures-ok _ _ _
            (record { labelled = k.labelled; tickets = k.tickets; unique = k.unique })

  burn_code-IsCoherent :
      (code : RecoveryCodeRow) → Keeps IsCoherent (transaction (burn_code sha256_hex new code now))
  unfolding burn_code
  burn_code-IsCoherent code = Keeps-commit IsCoherent _ λ db h.
      burn_rest-IsCoherent code _ _
        (λ e.
          rw (any-update code.id (λ c. c.id == code.id && is_none c.used_at) now db.recovery_codes)
            (any-count code.id (λ c. is_none c.used_at) db.recovery_codes e))
        (used-IsCoherent (λ c. c.id == code.id && is_none c.used_at) now db h)

  claim_code-IsCoherent :
      (o : Option RecoveryCodeRow) (db : Db)
      → IsCoherent db
      → Leaves IsCoherent (claim_code sha256_hex new now o db)
  unfolding claim_code
  claim_code-IsCoherent none db h = Leaves-end _ _ h
  claim_code-IsCoherent (some code) db h = Leaves-require db.vault_auth _ db _ h λ vault.
      Leaves-bind (roll_back db (burn_code sha256_hex new code now db)) _
        (record { at = (burn_code-IsCoherent code).at db h }) λ applied d k. Leaves-end _ _ k

  pub claim_recovery_code-IsCoherent :
      (lookup_hash : String) (db : Db)
      → IsCoherent db
      → Leaves IsCoherent (claim_recovery_code sha256_hex lookup_hash new now db)
  unfolding claim_recovery_code
  claim_recovery_code-IsCoherent lookup_hash db h = claim_code-IsCoherent _ db h

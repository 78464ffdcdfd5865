-- ===== src/Routes/Setup/Once.antt =====
-- POST /setup on a vault that has been claimed.
use key_page.Prelude.{ℕ, ◌≡◌, refl, subst, sym, ap, String, true, arith}
use key_page.Http.{HttpError}
use key_page.Db.Rows.{Db}
use key_page.Db.Action.{Result, ok, err, Action, go_on}
use key_page.Db.Ensures.{Ensures, Ensures-throw_if}
use key_page.Db.Leaves.{Leaves, Leaves-bind, Leaves-throw_if}
use key_page.Auth.SetupToken.{SetupGate}
use key_page.Auth.Sessions.{SessionRequest}
use key_page.Auth.Vault.{is_vault_initialized}
use key_page.Auth.Rotation.{NewVault}
use key_page.Routes.Login.{Server}
use key_page.Routes.Checks.{validate_new_keys-Leaves}
use key_page.Routes.Setup.{Transport, SetupBody, claim_vault, after_claim, setup}

-- an action that threw, and wrote nothing
abbrev pub Refuses : {A : Type 0} → Db → Result A × Db → Type 0
Refuses db r = (e : HttpError) × (r ≡ (err e, db))

Refuses-of :
    {A : Type 0} (db : Db) (r : Result A × Db)
    → Leaves (λ d. d ≡ db) r
    → Ensures r (λ _ _. ⊥)
    → Refuses db r
Refuses-of db (ok a, d) kept never = absurd never.at
Refuses-of db (err e, d) kept never = (e, ap {A = Db} (λ x. (err e, x)) kept.at)

Ensures-after :
    {A B : Type 0} (db : Db) (r : Result A × Db) (rest : A → Action B)
    → Leaves (λ d. d ≡ db) r
    → ((a : A) → Ensures (rest a db) (λ _ _. ⊥))
    → Ensures (go_on r rest) (λ _ _. ⊥)
Ensures-after db (ok a, d) rest kept k =
    subst (λ x. Ensures (rest a x) (λ _ _. ⊥)) (sym kept.at) (k a)
Ensures-after db (err e, d) rest kept k = record { at = tt }

module _ (server : Server) (now : ℕ) (transport : Transport) (gate : SetupGate)
    (body : SetupBody) where
  claim_vault-keeps :
      (code_id : ℕ → String) (db : Db)
      → is_vault_initialized db ≡ true
      → Leaves (λ d. d ≡ db) (claim_vault server now transport gate body code_id db)
  unfolding claim_vault
  claim_vault-keeps code_id db h = Leaves-throw_if _ _ db _ refl λ secure.
      Leaves-bind _ _ (validate_new_keys-Leaves _ _ _ _ db refl) λ _ d same.
        Leaves-throw_if _ _ d _ same
          λ unclaimed. absurd (ground (arith, unclaimed, h, ap is_vault_initialized same))

  claim_vault-never :
      (code_id : ℕ → String) (db : Db)
      → is_vault_initialized db ≡ true
      → Ensures (claim_vault server now transport gate body code_id db) (λ _ _. ⊥)
  unfolding claim_vault
  claim_vault-never code_id db h = Ensures-throw_if _ _ db _ λ secure.
      Ensures-after db _ _
        (validate_new_keys-Leaves server.platform body.kdf body.proof_keys body.recovery_codes db
          refl)
        λ _. Ensures-throw_if _ _ db _ λ unclaimed. absurd (ground (arith, unclaimed, h))

  after_claim-Refuses :
      (req : SessionRequest) (new : NewVault) (db : Db) (r : Result (Unit {0}) × Db)
      → Refuses db r
      → Refuses db (after_claim server now req new.session gate r).0
        × ((after_claim server now req new.session gate r).1 ≡ gate)
  unfolding after_claim
  after_claim-Refuses req new db r (e, same) = rw same ((e, refl), refl)

  -- A setup of a vault that is claimed is refused, whatever its token: it throws, and changes neither
  -- the database nor the gate.
  pub setup_once :
      (req : SessionRequest) (new : NewVault) (db : Db)
      → is_vault_initialized db ≡ true
      → Refuses db (setup server now transport gate body req new db).0
        × ((setup server now transport gate body req new db).1 ≡ gate)
  unfolding setup
  setup_once req new db h =
      after_claim-Refuses req new db _
        (Refuses-of db _ (claim_vault-keeps new.code_id db h) (claim_vault-never new.code_id db h))

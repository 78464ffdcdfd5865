-- ===== src/Routes/Kdf/Bounds.antt =====
-- Which parameters of a key derivation a request may bring.
use key_page.Prelude.{
  ℕ, suc, ◌≤◌, ◌≡◌, refl, sym, subst, ap, ◌↔◌, String, Bool, true, false, Option, none, some, List,
  [], ◌∷◌, length, arith,
}
use key_page.Http.{HttpError}
use key_page.Tables.{contains}
use key_page.Db.Rows.{Db, KdfParams, argon2id, pbkdf2_sha256, KdfAlgorithm}
use key_page.Db.Action.{Result, ok, err, Action, go_on, throw_if}
use key_page.Auth.Vault.{Envelope}
use key_page.Shared.Bytes.{is_stored_key_hex}
use key_page.Shared.Proof.{◌+++◌}
use key_page.Routes.Request.{Platform}
use key_page.Routes.Kdf.{
  validate_salt_b64, require_in_range, validate_argon2id_params, validate_pbkdf2_params,
  validate_kdf_params, check_envelopes, validate_recovery_envelopes,
}

abbrev FitsArgon2id : (iterations : ℕ) (memory parallelism : Option ℕ) → Type 0
FitsArgon2id iterations (some memory) (some parallelism) =
    (19456 ≤ memory)
    × (memory ≤ 262144)
    × (2 ≤ iterations)
    × (iterations ≤ 10)
    × (1 ≤ parallelism)
    × (parallelism ≤ 4)
FitsArgon2id iterations (some memory) none = ⊥
FitsArgon2id iterations none parallelism = ⊥

abbrev FitsAlgorithm : KdfAlgorithm → (iterations : ℕ) (memory parallelism : Option ℕ) → Type 0
FitsAlgorithm argon2id iterations memory parallelism = FitsArgon2id iterations memory parallelism
FitsAlgorithm pbkdf2_sha256 iterations memory parallelism =
    (memory ≡ none) × (parallelism ≡ none) × (300000 ≤ iterations) × (iterations ≤ 5000000)

-- a salt of 16 bytes, and the numbers in the bounds of their algorithm
abbrev pub IsAllowed : Platform → KdfParams → Type 0
IsAllowed p kdf =
    (length (p.from_base64 kdf.salt_b64) ≡ 16)
    × FitsAlgorithm kdf.algorithm kdf.iterations kdf.memory_kib kdf.parallelism

module _ (p : Platform) (db : Db) where
  argon2id_iff :
      (kdf : KdfParams) (prefix : String)
      → (validate_argon2id_params p kdf prefix db ≡ (ok tt, db))
        ↔ FitsArgon2id kdf.iterations kdf.memory_kib kdf.parallelism
  unfolding validate_argon2id_params require_in_range key_page.Db.Action.throw_if
      key_page.Db.Action.require
  argon2id_iff kdf prefix = ground arith

  pbkdf2_iff :
      (kdf : KdfParams) (prefix : String)
      → (validate_pbkdf2_params p kdf prefix db ≡ (ok tt, db))
        ↔ FitsAlgorithm pbkdf2_sha256 kdf.iterations kdf.memory_kib kdf.parallelism
  unfolding validate_pbkdf2_params require_in_range key_page.Db.Action.throw_if
  pbkdf2_iff kdf prefix = ground arith

  -- A request's parameters are taken exactly if the salt has 16 bytes and the numbers are in the
  -- bounds of their algorithm: for argon2id all three, for pbkdf2 the iterations alone.
  pub validate_kdf_params_iff :
      (kdf : KdfParams) (prefix : String)
      → (validate_kdf_params p kdf prefix db ≡ (ok tt, db)) ↔ IsAllowed p kdf
  unfolding validate_kdf_params validate_salt_b64 key_page.Db.Action.throw_if
  validate_kdf_params_iff kdf prefix = by_algorithm kdf.algorithm refl
    where
      by_algorithm :
          (a : KdfAlgorithm)
          → kdf.algorithm ≡ a
          → (validate_kdf_params p kdf prefix db ≡ (ok tt, db)) ↔ IsAllowed p kdf
      by_algorithm argon2id e = ground (arith, argon2id_iff kdf prefix)
      by_algorithm pbkdf2_sha256 e = ground (arith, pbkdf2_iff kdf prefix)

  pub validate_kdf_params-keeps :
      (kdf : KdfParams) (prefix : String) → (validate_kdf_params p kdf prefix db).1 ≡ db
  unfolding validate_kdf_params validate_salt_b64 validate_argon2id_params validate_pbkdf2_params
      require_in_range key_page.Db.Action.throw_if key_page.Db.Action.require
  validate_kdf_params-keeps kdf prefix = by_algorithm kdf.algorithm refl
    where
      by_algorithm :
          (a : KdfAlgorithm) → kdf.algorithm ≡ a → (validate_kdf_params p kdf prefix db).1 ≡ db
      by_algorithm argon2id e = ground arith
      by_algorithm pbkdf2_sha256 e = ground arith

  -- an action that ends well ends well in all its parts
  pub check_iff :
      {P Q : Type 0} (b : Bool) (e : HttpError) (rest : Action (Unit {0}))
      → (b ≡ false) ↔ P
      → (rest db ≡ (ok tt, db)) ↔ Q
      → (go_on (throw_if b e db) (λ _. rest) ≡ (ok tt, db)) ↔ (P × Q)
  unfolding throw_if
  check_iff b e rest h k = ground (arith, h, k)

  pub part_iff :
      {P Q : Type 0} (r : Result (Unit {0}) × Db) (rest : Action (Unit {0}))
      → r.1 ≡ db
      → (r ≡ (ok tt, db)) ↔ P
      → (rest db ≡ (ok tt, db)) ↔ Q
      → (go_on r (λ _. rest) ≡ (ok tt, db)) ↔ (P × Q)
  part_iff (ok u, d) rest same h k = (
    λ e. (h.0 (ap {A = Db} (λ x. (ok tt, x)) same), k.0 (subst (λ x. rest x ≡ (ok tt, db)) same e)),
    λ (x, y). subst (λ x. rest x ≡ (ok tt, db)) (sym same) (k.1 y),
  )
  part_iff (err e, d) rest same h k = ground (arith, h, k)

  -- envelopes as the loop takes them, with lookup hashes that are not among `seen`
  abbrev pub AreAllowed : List Envelope → List String → Type 0
  AreAllowed [] seen = Unit
  AreAllowed (e ∷ es) seen =
      (is_stored_key_hex (p.codes e.lookup_hash) ≡ true)
      × ((contains e.lookup_hash seen ≡ false)
          × ((length (p.from_base64 e.wrapped_master_key_b64) ≡ 60)
              × (IsAllowed p e.kdf × AreAllowed es (e.lookup_hash ∷ seen))))

  check_envelopes_iff :
      (es : List Envelope) (index : ℕ) (seen : List String)
      → (check_envelopes p es index seen db ≡ (ok tt, db)) ↔ AreAllowed es seen
  unfolding check_envelopes
  check_envelopes_iff [] index seen = (λ _. tt, λ _. refl)
  check_envelopes_iff (e ∷ es) index seen =
      let prefix = ("recoveryCodes[" +++ p.number_text index +++ "]") +++ ".kdf" in
      check_iff _ _ _ (ground arith) (
        check_iff _ _ _ (ground arith) (
          check_iff _ _ _ (ground arith) (
            part_iff _ _ (validate_kdf_params-keeps e.kdf prefix)
              (validate_kdf_params_iff e.kdf prefix)
              (check_envelopes_iff es (suc index) (e.lookup_hash ∷ seen)))))

  -- The recovery codes of a request are taken exactly if there are ten, each with a lookup hash of
  -- 64 lowercase hex characters that no code before it has, a wrapped key of 60 bytes, and allowed
  -- parameters of its key derivation.
  pub validate_recovery_envelopes_iff :
      (es : List Envelope)
      → (validate_recovery_envelopes p es db ≡ (ok tt, db)) ↔ ((length es ≡ 10) × AreAllowed es [])
  unfolding validate_recovery_envelopes
  validate_recovery_envelopes_iff es = check_iff _ _ _ (ground arith) (check_envelopes_iff es 0 [])

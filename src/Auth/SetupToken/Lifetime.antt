-- ===== src/Auth/SetupToken/Lifetime.antt =====
-- How long the token of the first boot is good for.
use key_page.Prelude.{
  ℕ, ◌+◌, ◌*◌, ◌≤◌, ◌<◌, ◌≡◌, refl, String, true, false, Option, none, some, List, arith, or_else,
  eq_iff,
}
use key_page.Auth.SetupToken.{
  TokenFile, claimed_gate, consume_token, mint_token, verify_token, load_or_mint_token, renew,
  gate_of, open_setup_gate,
}

-- a token and its file, which is not from the future and has not expired
IsCurrent : ℕ → ℕ → String × TokenFile → Type 0
IsCurrent ttl_ms now (token, file) = (file.changed_at ≤ now) × (now < file.changed_at + ttl_ms)

-- no file is from the future
abbrev pub IsPast : ℕ → Option TokenFile → Type 0
IsPast now none = Unit
IsPast now (some file) = file.changed_at ≤ now

module _ (codes : String → List ℕ) (trim : String → String) (drawn again : String) where
  loaded-IsPast :
      (file : Option TokenFile) (now : ℕ)
      → IsPast now file
      → (load_or_mint_token codes trim drawn file now).1.changed_at ≤ now
  unfolding load_or_mint_token mint_token
  loaded-IsPast none now h = omega arith
  loaded-IsPast (some file) now h = ground (arith, h)

  renew-IsCurrent :
      (ttl_ms now : ℕ) (r : String × TokenFile)
      → 0 < ttl_ms
      → r.1.changed_at ≤ now
      → IsCurrent ttl_ms now (renew codes trim drawn again ttl_ms now r)
  unfolding renew mint_token IsCurrent
  renew-IsCurrent ttl_ms now (token, file) positive h = ground (arith, positive, h)

  -- The gate of an unclaimed vault, where the token lives at least a minute and its file is not from
  -- the future, has a token that it accepts now; the token expires within its lifetime from now; and
  -- once it is consumed, or the vault is claimed before the server starts, the gate accepts nothing.
  pub open_setup_gate-verify_token :
      (sha256_hex : String → String) (ttl_minutes : Option ℕ) (file : Option TokenFile) (now : ℕ)
      → 1 ≤ or_else ttl_minutes 15
      → IsPast now file
      → let gate = (open_setup_gate codes trim drawn again false ttl_minutes file now).0 in
        ((token : String) × (gate.token ≡ some token)
          × (verify_token sha256_hex gate token now ≡ true))
        × (now < gate.expires_at)
        × (gate.expires_at ≤ now + or_else ttl_minutes 15 * 60000)
        × ((candidate : String) (later : ℕ)
            → (verify_token sha256_hex (consume_token gate) candidate later ≡ false)
              × (verify_token sha256_hex
                    (open_setup_gate codes trim drawn again true ttl_minutes file later).0
                    candidate
                    later
                  ≡ false))
  unfolding open_setup_gate gate_of verify_token consume_token claimed_gate IsCurrent
  open_setup_gate-verify_token sha256_hex ttl_minutes file now positive past =
      let ttl_ms = or_else ttl_minutes 15 * 60000 in
      let r =
        renew codes trim drawn again ttl_ms now (load_or_mint_token codes trim drawn file now) in
      let (old, new) =
        renew-IsCurrent ttl_ms now (load_or_mint_token codes trim drawn file now)
          (omega (arith, positive)) (loaded-IsPast file now past) in
      (
        (r.0, refl, ground (arith, new, eq_iff (sha256_hex r.0) (sha256_hex r.0))),
        new,
        omega (arith, old),
        λ candidate later. (refl, refl),
      )

-- ===== src/Web/Operations/Agree.antt =====
-- What create of apps/web/src/vault/keyEntryOperations.ts sends, against what the server takes.
use key_page.Prelude.{ℕ, ◌≡◌, refl, subst, ap, ◌∙◌, String, Option, none, some, arith}
use key_page.Db.Rows.{Db, CipherPayload}
use key_page.Db.Action.{ok}
use key_page.Shared.Fields.{Checked, valid, invalid, FieldsInput, Fields, normalize_fields}
use key_page.Shared.Fields.Normal.{normalize_fields_idem}
use key_page.Routes.Request.{Platform}
use key_page.Routes.Validate.{normalize_key_entry_write_fields, to_http}
use key_page.Keys.Repo.{CipherInput}
use key_page.Routes.Bodies.{CreateBody}
use key_page.Web.Operations.{
  Try, done, failed, then_try, Ports, of_checked, NewKeyEntry, write_fields_from_input,
  encrypt_key_value, require_for_write, or_expired, stamp, create_body,
}

-- the fields of a request as the fields of an entry
abbrev pub received : FieldsInput → Fields
received f = record {
  label = f.label;
  service_id = f.service_id;
  custom_service_name = f.custom_service_name;
  description = f.description;
  tags = f.tags;
}

done-inj : {A : Type 0} {a b : A} → done a ≡ done b → a ≡ b
done-inj e = ground arith

-- a chain that ends well, by its first step
data Ends {A B : Type 0} (first : Try A) (rest : A → Try B) (b : B) : Type 0 where
  ends : (a : A) → first ≡ done a → rest a ≡ done b → Ends first rest b

then_try-Ends :
    {A B : Type 0} (first : Try A) (rest : A → Try B) (b : B)
    → then_try first rest ≡ done b
    → Ends first rest b
unfolding then_try
then_try-Ends (done a) rest b e = ends a refl e
then_try-Ends (failed f) rest b e = absurd (ground arith)

of_checked-done : {A : Type 0} (c : Checked A) (a : A) → of_checked c ≡ done a → c ≡ valid a
unfolding of_checked
of_checked-done (valid b) a e = ap valid (done-inj e)
of_checked-done (invalid message issues) a e = absurd (ground arith)

stamp-version :
    (version : ℕ) (payload : Option CipherPayload) (cipher : CipherInput)
    → stamp version payload ≡ done cipher
    → version ≡ cipher.key_version
unfolding stamp
stamp-version version none cipher e = absurd (ground arith)
stamp-version version (some payload) cipher e = ap (λ c. c.key_version) (done-inj e)

or_expired-done : {A : Type 0} (o : Option A) (a : A) → or_expired o ≡ done a → o ≡ some a
unfolding or_expired
or_expired-done none a e = absurd (ground arith)
or_expired-done (some b) a e = ap some (done-inj e)

module _ (ports : Ports) where
  encrypt_key_value-version :
      (id key_value : String) (cipher : CipherInput)
      → encrypt_key_value ports id key_value ≡ done cipher
      → ports.version ≡ some cipher.key_version
  unfolding encrypt_key_value require_for_write
  encrypt_key_value-version id key_value cipher e = elim (then_try-Ends _ _ cipher e) [
    | ends version found rest ↦ elim (then_try-Ends _ _ cipher rest) [
      | ends key held stamped ↦
          or_expired-done ports.version version found
          ∙ ap some (stamp-version version _ cipher stamped)
    ]
  ]

  write_fields-normal :
      (input sent_fields : FieldsInput)
      → write_fields_from_input ports input ≡ done sent_fields
      → normalize_fields ports.text sent_fields ≡ valid (received sent_fields)
  unfolding write_fields_from_input
  write_fields-normal input sent_fields e = elim (then_try-Ends _ _ sent_fields e) [
    | ends fields checked same ↦
        subst (λ f. normalize_fields ports.text f ≡ valid (received f)) (done-inj same)
          (normalize_fields_idem ports.text input fields (of_checked-done _ fields checked))
  ]

  -- A create request that the browser makes from what the user typed, with the text operations of
  -- the server: the server's normalisation accepts its fields and leaves them as they were sent,
  -- and the key version on its ciphertext is the one that the browser has pinned.
  pub create_body-accepted :
      (p : Platform)
      → ports.text ≡ p.text
      → (input : NewKeyEntry) (body : CreateBody) → create_body ports input ≡ done body
      → ((db : Db)
          → normalize_key_entry_write_fields p body.fields db ≡ (ok (received body.fields), db))
        × (ports.version ≡ some body.cipher.key_version)
  unfolding create_body normalize_key_entry_write_fields to_http
  create_body-accepted p same input body e = elim (then_try-Ends _ _ body e) [
    | ends fields written rest ↦ elim (then_try-Ends _ _ body rest) [
      | ends cipher encrypted made ↦
          let of_body = done-inj made in
          let normal =
            subst (λ f. normalize_fields ports.text f ≡ valid (received f))
              (ap (λ b. b.fields) of_body) (write_fields-normal input.fields fields written) in
          (
            λ db.
                ap (λ c. to_http c db)
                  (subst (λ t. normalize_fields t body.fields ≡ valid (received body.fields)) same
                    normal),
            encrypt_key_value-version _ _ cipher encrypted
                ∙ ap (λ b. some b.cipher.key_version) of_body,
          )
    ]
  ]

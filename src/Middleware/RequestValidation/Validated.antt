-- ===== src/Middleware/RequestValidation/Validated.antt =====
-- When `RequestValidationOperation` reaches the next app, and with which `receive`.
use connexion.Prelude.{
  String, ◌≡◌, refl, sym, ap, ◌∙◌, ◌↔◌, ◌⊎◌, inl, inr, Bool, true, false, Bool-cases, Option, none,
  some, List, [], arith,
}
use connexion.Prelude.Text.{lower}
use connexion.Value.{Value, truthy}
use connexion.Errors.{Exc, key_error, Done, done, Result, ok, err, ◌>>=◌, bind-eq-ok}
use connexion.Asgi.{Message, Receive, queue}
use connexion.Datastructures
use connexion.Utils.Media.{is_nullable}
use connexion.Operations.{AbstractOperation}
use connexion.Middleware.RequestValidation.{
  BodyValidator, ValidatorMap, any_type, accepted_or, content_type_of, validate_mime_type,
  run_validator, receive_of, validate_body, checks, validate_by, and_next, call,
}

-- the app that answers with the `receive` that it is given
abbrev pub handed : Receive → Option (Result Receive)
handed r = some (ok r)

module _ (op : AbstractOperation) where
  -- The lower-case media type is one that the operation consumes, or in a range of it.
  abbrev pub IsConsumed : String → Type 0
  IsConsumed mime_type = Datastructures.contains (any_type op.consumes) (lower mime_type) ≡ ok true

  accepted_or-done :
      (mime_type : String) (r : Result Bool)
      → (accepted_or op mime_type r ≡ ok done) ↔ (r ≡ ok true)
  unfolding accepted_or
  accepted_or-done mime_type (ok true) = ((λ e. refl), (λ e. refl))
  accepted_or-done mime_type (ok false) = ((λ e. cc), (λ e. cc))
  accepted_or-done mime_type (err e) = ((λ h. cc), (λ h. cc))

  module _ (validators : ValidatorMap) (strict_validation : Bool) where
    -- The validator is run with the schema, the encoding, and whether the definition of the body is
    -- nullable, and hands on `r`.
    abbrev pub Runs :
        BodyValidator
        → (schema : Value) → (encoding : String) → Result Value
        → List Message
        → Receive
        → Type 0
    Runs validator schema encoding found coming r =
        (definition : Value) × (found ≡ ok definition)
        × (validator
              (record {
                schema = schema;
                nullable = is_nullable definition;
                encoding = encoding;
                strict_validation = strict_validation;
              })
              coming
            ≡ some (ok r))

    -- the `receive` that a validator hands on, where one is registered
    abbrev pub FromValidator :
        (mime_type encoding : String) → Value → List Message → Receive → Type 0
    FromValidator mime_type encoding schema coming r =
        (validator : BodyValidator) × (Datastructures.get_item validators.body mime_type
          ≡ ok validator)
        × Runs validator schema encoding (op.body_definition (some mime_type)) coming r

    abbrev pub Unregistered : String → Type 0
    Unregistered mime_type =
        (k : String) × (Datastructures.get_item validators.body mime_type ≡ err (key_error k))

    abbrev pub BodyChecked : (mime_type encoding : String) → Value → List Message → Receive → Type 0
    BodyChecked mime_type encoding schema coming r =
        ((truthy schema ≡ false) × (r ≡ queue [] coming))
        ⊎ ((truthy schema ≡ true) × Unregistered mime_type × (r ≡ queue [] coming))
        ⊎ ((truthy schema ≡ true) × FromValidator mime_type encoding schema coming r)

    abbrev pub Validated : (headers : List (String × String)) → List Message → Receive → Type 0
    Validated headers coming r =
        (validators.parameter ≡ ok done)
        × IsConsumed (content_type_of op headers).0
        × ((schema : Value) × (op.body_schema (some (content_type_of op headers).0) ≡ ok schema)
            × BodyChecked (content_type_of op headers).0 (content_type_of op headers).1 schema
                coming r)

    module _ (mime_type encoding : String) (schema : Value) (coming : List Message)
        (r : Receive) where
      run_validator-Runs :
          (validator : BodyValidator) (found : Result Value)
          → (run_validator op validators strict_validation validator schema encoding found coming
              ≡ some (ok r))
            ↔ Runs validator schema encoding found coming r
      unfolding run_validator
      run_validator-Runs validator found = (to found, λ (d, e, h). rw (run_validator, e) h)
        where
          to :
              (found : Result Value)
              → run_validator op validators strict_validation validator schema encoding found coming
                ≡ some (ok r)
              → Runs validator schema encoding found coming r
          to (err e) h = cc
          to (ok definition) h = (definition, refl, h)

      abbrev Registered : Result BodyValidator → Type 0
      Registered found =
          ((k : String) × (found ≡ err (key_error k)) × (r ≡ queue [] coming))
          ⊎ ((validator : BodyValidator) × (found ≡ ok validator)
              × Runs validator schema encoding (op.body_definition (some mime_type)) coming r)

      receive_of-Registered :
          (found : Result BodyValidator)
          → receive_of op validators strict_validation found mime_type encoding schema coming
            ≡ some (ok r)
          → Registered found
      unfolding receive_of
      receive_of-Registered (ok validator) h = inr (
        validator,
        refl,
        (run_validator-Runs validator (op.body_definition (some mime_type))).0 h,
      )
      receive_of-Registered (err (Exc.key_error k)) h = inl (k, refl, ground arith)
      receive_of-Registered (err e) h = cc

      Registered-receive_of :
          (found : Result BodyValidator)
          → Registered found
          → receive_of op validators strict_validation found mime_type encoding schema coming
            ≡ some (ok r)
      unfolding receive_of
      Registered-receive_of found (inl (k, e, same)) = rw (receive_of, e, same) refl
      Registered-receive_of found (inr (validator, e, h)) =
          rw (receive_of, e)
            ((run_validator-Runs validator (op.body_definition (some mime_type))).1 h)

      validate_body-on :
          truthy schema ≡ true
          → validate_body op validators strict_validation mime_type encoding schema coming
            ≡ receive_of op validators strict_validation
                (Datastructures.get_item validators.body mime_type)
                mime_type
                encoding
                schema
                coming
      unfolding validate_body
      validate_body-on h = rw (validate_body, h) refl

      validate_body-off :
          truthy schema ≡ false
          → validate_body op validators strict_validation mime_type encoding schema coming
            ≡ some (ok (queue [] coming))
      unfolding validate_body
      validate_body-off h = rw (validate_body, h) refl

    raw :
        (coming : List Message) (r : Receive)
        → some (ok (queue [] coming)) ≡ some (ok r)
        → r ≡ queue [] coming
    raw coming r h = ground arith

    validate_body-BodyChecked :
        (mime_type encoding : String) (schema : Value) (coming : List Message) (r : Receive)
        → (validate_body op validators strict_validation mime_type encoding schema coming
            ≡ some (ok r))
          ↔ BodyChecked mime_type encoding schema coming r
    validate_body-BodyChecked mime_type encoding schema coming r = (
      λ h. elim (Bool-cases (truthy schema)) [
        | inl on ↦
            let run = sym (validate_body-on mime_type encoding schema coming r on) ∙ h in
            elim (receive_of-Registered mime_type encoding schema coming r
              (Datastructures.get_item validators.body mime_type) run) [
                | inl (k, e, same) ↦ inr (inl (on, (k, e), same))
                | inr found ↦ inr (inr (on, found))
              ]
        | inr off ↦
            inl (
              off,
              raw coming r (sym (validate_body-off mime_type encoding schema coming r off) ∙ h),
            )
      ],
      λ b. elim b [
        | inl (off, same) ↦
            validate_body-off mime_type encoding schema coming r off
            ∙ ap (λ q. some (ok q)) (sym same)
        | inr (inl (on, (k, e), same)) ↦
            validate_body-on mime_type encoding schema coming r on
            ∙ Registered-receive_of mime_type encoding schema coming r
                (Datastructures.get_item validators.body mime_type) (inl (k, e, same))
        | inr (inr (on, found)) ↦
            validate_body-on mime_type encoding schema coming r on
            ∙ Registered-receive_of mime_type encoding schema coming r
                (Datastructures.get_item validators.body mime_type) (inr found)
      ],
    )

    validate_by-ok :
        (mime_type encoding : String) (checked : Result Value) (coming : List Message) (r : Receive)
        → validate_by op validators strict_validation mime_type encoding checked coming
          ≡ some (ok r)
        → (schema : Value) × (checked ≡ ok schema)
          × (validate_body op validators strict_validation mime_type encoding schema coming
              ≡ some (ok r))
    unfolding validate_by
    validate_by-ok mime_type encoding (err e) coming r h = cc
    validate_by-ok mime_type encoding (ok schema) coming r h = (schema, refl, h)

    by_schema :
        (mime_type encoding : String) (schema : Value) (coming : List Message)
        → validate_by op validators strict_validation mime_type encoding (ok schema) coming
          ≡ validate_body op validators strict_validation mime_type encoding schema coming
    unfolding validate_by
    by_schema mime_type encoding schema coming = refl

    Done-path : (d : Done) → d ≡ done
    Done-path done = refl

    Checked : String → Value → Type 0
    Checked mime_type schema =
        (validators.parameter ≡ ok done)
        × IsConsumed mime_type
        × (op.body_schema (some mime_type) ≡ ok schema)

    checks_iff :
        (mime_type : String) (schema : Value)
        → (checks op validators strict_validation mime_type ≡ ok schema) ↔ Checked mime_type schema
    unfolding checks Checked validate_mime_type
    checks_iff mime_type schema = (
      λ h.
          let (d, parameters, h₁) = bind-eq-ok validators.parameter _ h in
          let (e, accepted, h₂) = bind-eq-ok (validate_mime_type op mime_type) _ h₁ in
          (
            parameters ∙ ap ok (Done-path d),
            (accepted_or-done mime_type _).0 (accepted ∙ ap ok (Done-path e)),
            h₂,
          ),
      λ (parameters, consumed, has_schema).
          ap
            (λ (q : Result Done).
              q >>= λ _. validate_mime_type op mime_type >>= λ _. op.body_schema (some mime_type))
            parameters
          ∙ ap (λ (q : Result Done). q >>= λ _. op.body_schema (some mime_type))
              ((accepted_or-done mime_type
                  (Datastructures.contains (any_type op.consumes) (lower mime_type))).1
                consumed)
          ∙ has_schema,
    )

    and_next-handed :
        (o : Option (Result Receive)) → and_next op validators strict_validation handed o ≡ o
    and_next-handed none = refl
    and_next-handed (some (ok r)) = refl
    and_next-handed (some (err e)) = refl

    -- The next app is called exactly if the parameters are valid, the operation consumes the media type,
    -- and the body is checked: the operation has no schema for it, or no validator is registered for its
    -- media type, and then the stream is handed on as it is; or the registered validator, run with the
    -- schema, the encoding and whether the definition of the body is nullable, returns, and what it hands
    -- on is handed on.
    pub call-Validated_iff :
        (headers : List (String × String)) (coming : List Message) (r : Receive)
        → (call op validators strict_validation handed headers coming ≡ some (ok r))
          ↔ Validated headers coming r
    unfolding call Checked
    call-Validated_iff headers coming r =
        let mime_type = (content_type_of op headers).0 in
        let encoding = (content_type_of op headers).1 in
        let o =
          validate_by op validators strict_validation mime_type encoding
            (checks op validators strict_validation mime_type) coming in
        (
          λ h.
              let (schema, checked, h₁) =
                validate_by-ok mime_type encoding _ coming r (sym (and_next-handed o) ∙ h) in
              let (parameters, consumed, has_schema) = (checks_iff mime_type schema).0 checked in
              (
                parameters,
                consumed,
                (
                  schema,
                  has_schema,
                  (validate_body-BodyChecked mime_type encoding schema coming r).0 h₁,
                ),
              ),
          λ (parameters, consumed, (schema, has_schema, b)).
              and_next-handed o
              ∙ ap (λ q. validate_by op validators strict_validation mime_type encoding q coming)
                  ((checks_iff mime_type schema).1 (parameters, consumed, has_schema))
              ∙ by_schema mime_type encoding schema coming
              ∙ (validate_body-BodyChecked mime_type encoding schema coming r).1 b,
        )

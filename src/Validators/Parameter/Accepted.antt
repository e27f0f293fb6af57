-- ===== src/Validators/Parameter/Accepted.antt =====
-- The requests that the `ParameterValidator` accepts.
use connexion.Prelude.{
  String, ◌≡◌, refl, sym, ap, ◌∙◌, ◌↔◌, ◌⊎◌, inl, inr, Bool, true, false, ◌&&◌, Bool-cases, Option,
  none, some, List, [], ◌∷◌, eq_iff, All, arith, mem,
}
use connexion.Prelude.Text.{◌<>◌}
use connexion.Prelude.Dict
use connexion.Prelude.Dict.{Dict}
use connexion.Value.{Value}
use connexion.Value.Access.{lookup}
use connexion.Errors.{Exc, Done, done, Result, ok, err, ◌>>=◌, bind-eq-ok}
use connexion.Utils.Coerce.{Builtins, coerce_type}
use connexion.Utils.Media.{is_nullable, is_null, or_self}
use connexion.Validators.Parameter.{
  HttpRequest, schema_of, is_given, is_required, name_of, check_converted, validate_parameter,
  located, names_of, raise_if, validate_all,
}

-- no message, or an empty one
abbrev pub NoError : Option String → Type 0
NoError none = Unit
NoError (some s) = s ≡ ""

pub Done-path : (d : Done) → d ≡ done
Done-path done = refl

module _ (py : Builtins) (schema_error : (schema value : Value) → Option String) where
  -- The value of a parameter is as the schema wants: it is not given and not required, or an allowed null,
  -- or what it is coerced to is accepted.
  abbrev pub IsValid : String → Value → Value → Type 0
  IsValid parameter_type value param =
      ((is_given value ≡ false) × (is_required (lookup "required" param) ≡ false))
      ⊎ ((is_given value ≡ true) × ((is_nullable param && is_null value) ≡ true))
      ⊎ ((is_given value ≡ true)
          × ((is_nullable param && is_null value) ≡ false)
          × ((w : Value) × (coerce_type py param value parameter_type none ≡ ok w)
              × (schema_error (schema_of (or_self (lookup "schema" param) param)) w ≡ none)))

  check_converted-none :
      (param : Value) (r : Result Value)
      → check_converted py schema_error param r ≡ ok none
      → (w : Value) × (r ≡ ok w)
        × (schema_error (schema_of (or_self (lookup "schema" param) param)) w ≡ none)
  unfolding check_converted
  check_converted-none param (ok w) h = (w, refl, ground arith)
  check_converted-none param (err (Exc.type_validation_error t p n)) h = cc
  check_converted-none param (err e) h = cc

  pub check_converted-ok :
      (param w : Value)
      → check_converted py schema_error param (ok w)
        ≡ ok (schema_error (schema_of (or_self (lookup "schema" param) param)) w)
  unfolding check_converted
  check_converted-ok param w = refl

  missing :
      {A : Type 0} (r : Result String) (message : String → String)
      → (r >>= λ name. ok (some (message name))) ≡ ok none
      → A
  missing (ok name) message h = absurd (cc)
  missing (err e) message h = absurd (cc)

  module _ (parameter_type : String) (value param : Value) where
    abbrev pub message : String → String
    message name = "Missing " <> (parameter_type <> (" parameter '" <> (name <> "'")))

    pub validate_parameter-converted :
        is_given value ≡ true
        → (is_nullable param && is_null value) ≡ false
        → validate_parameter py schema_error parameter_type value param
          ≡ check_converted py schema_error param (coerce_type py param value parameter_type none)
    unfolding validate_parameter
    validate_parameter-converted given not_null = rw (validate_parameter, given, not_null) refl

    pub validate_parameter-missing :
        is_given value ≡ false
        → is_required (lookup "required" param) ≡ true
        → validate_parameter py schema_error parameter_type value param
          ≡ (name_of param >>= λ name. ok (some (message name)))
    unfolding validate_parameter
    validate_parameter-missing not_given required =
        rw (validate_parameter, not_given, required) refl

    -- A parameter is valid exactly if no message is returned for it.
    pub validate_parameter-IsValid_iff :
        (validate_parameter py schema_error parameter_type value param ≡ ok none)
        ↔ IsValid parameter_type value param
    unfolding validate_parameter
    validate_parameter-IsValid_iff = (
      λ h. elim (Bool-cases (is_given value)) [
        | inl given ↦ elim (Bool-cases (is_nullable param && is_null value)) [
          | inl null ↦ inr (inl (given, null))
          | inr not_null ↦
              let (w, coerced, accepted) =
                check_converted-none param (coerce_type py param value parameter_type none)
                  (sym (validate_parameter-converted given not_null) ∙ h) in
              inr (inr (given, not_null, (w, coerced, accepted)))
        ]
        | inr not_given ↦ elim (Bool-cases (is_required (lookup "required" param))) [
          | inl required ↦
              missing (name_of param) message
                (sym (validate_parameter-missing not_given required) ∙ h)
          | inr optional ↦ inl (not_given, optional)
        ]
      ],
      λ valid. elim valid [
        | inl (not_given, optional) ↦ rw (validate_parameter, not_given, optional) refl
        | inr (inl (given, null)) ↦ rw (validate_parameter, given, null) refl
        | inr (inr (given, not_null, (w, coerced, accepted))) ↦
            rw (validate_parameter, given, not_null, coerced)
              (check_converted-ok param w ∙ ap ok accepted)
      ],
    )

-- The parameters of a loop: each has no error.
abbrev pub Passes : (Value → HttpRequest → Result (Option String)) → HttpRequest → Value → Type 0
Passes validate request param = (e : Option String) × (validate param request ≡ ok e) × NoError e

module _ (py : Builtins) (schema_error : (schema value : Value) → Option String)
    (resolve_query : Dict Value → Result (Dict Value)) (parameters : List Value)
    (strict_validation : Bool) where
  raise_if_iff :
      (e : Option String)
      → (raise_if py schema_error resolve_query parameters strict_validation e ≡ ok done)
        ↔ NoError e
  unfolding raise_if
  raise_if_iff none = ((λ h. tt), (λ h. refl))
  raise_if_iff (some s) = ground (arith, eq_iff s "")

  pub validate_all-Passes :
      (validate : Value → HttpRequest → Result (Option String)) (params : List Value)
      (request : HttpRequest)
      → (validate_all py schema_error resolve_query parameters strict_validation validate params
            request
          ≡ ok done)
        ↔ All (Passes validate request) params
  unfolding validate_all
  validate_all-Passes validate [] request = ((λ h. tt), (λ h. refl))
  validate_all-Passes validate (p ∷ ps) request = (
    λ h.
        let (e, validated, h₁) = bind-eq-ok (validate p request) _ h in
        let (d, no_raise, h₂) =
          bind-eq-ok (raise_if py schema_error resolve_query parameters strict_validation e) _ h₁ in
        (
          (e, validated, (raise_if_iff e).0 (no_raise ∙ ap ok (Done-path d))),
          (validate_all-Passes validate ps request).0 h₂,
        ),
    λ ((e, validated, no_error), rest).
        ap
          (λ r. r >>= λ e.
            raise_if py schema_error resolve_query parameters strict_validation e >>= λ _.
            validate_all py schema_error resolve_query parameters strict_validation validate ps
              request)
          validated
        ∙ ap
            (λ (r : Result Done). r >>= λ _.
              validate_all py schema_error resolve_query parameters strict_validation validate ps
                request)
            ((raise_if_iff e).1 no_error)
        ∙ (validate_all-Passes validate ps request).1 rest,
  )

  -- Each name of the query is one of the operation's.
  abbrev pub NoExtra : HttpRequest → Type 0
  NoExtra request =
      (strict_validation ≡ false)
      ⊎ ((strict_validation ≡ true)
          × ((names : List String) × (names_of py schema_error resolve_query parameters
                  strict_validation
                  (located py schema_error resolve_query parameters strict_validation "query"
                    parameters)
                ≡ ok names)
              × All (λ k. mem k names ≡ true) (Dict.keys request.query_params)))

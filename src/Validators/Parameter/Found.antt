-- ===== src/Validators/Parameter/Found.antt =====
-- What it is for a declared parameter to have an accepted value.
use native.Mathlib.Omega.{arith}
use connexion.Prelude.{
  String, ◌≡◌, refl, sym, ap, subst, ◌∙◌, ◌≢◌, ◌↔◌, ◌⊎◌, inl, inr, true, false, ◌&&◌, Bool-cases,
  Option, none, some,
}
use Prim.Native.Char.{Char, char}
use text.Mathlib.TextLemmas.{cons-append}
use connexion.Prelude.Text.{◌<>◌}
use connexion.Value.{Value, null, bool, int, float, str, arr, obj, opaque}
use connexion.Value.Access.{lookup}
use connexion.Errors.{Exc, Result, ok, err, ◌>>=◌, bind-eq-ok, or_key_error}
use connexion.Utils.Coerce.{Builtins, coerce_type}
use connexion.Utils.Media.{is_nullable, is_null, or_self}
use connexion.Validators.Parameter.{
  schema_of, is_given, is_required, text_of, name_of, check_converted, validate_parameter,
}
use connexion.Validators.Parameter.Accepted.{
  NoError, message, check_converted-ok, validate_parameter-converted, validate_parameter-missing,
}

-- where a parameter stands, and its name
abbrev pub IsIn : String → Value → Type 0
IsIn location param = lookup "in" param ≡ some (str location)

abbrev pub IsNamed : String → Value → Type 0
IsNamed name param = lookup "name" param ≡ some (str name)

pub name_of_iff : (name : String) (param : Value) → (name_of param ≡ ok name) ↔ IsNamed name param
unfolding name_of
name_of_iff name param = (to (lookup "name" param), λ e. rw e refl)
  where
    to : (o : Option Value) → (or_key_error "name" o >>= text_of) ≡ ok name → o ≡ some (str name)
    to none h = cc
    to (some (str s)) h = ground arith
    to (some null) h = cc
    to (some (bool b)) h = cc
    to (some (int b n)) h = cc
    to (some (float s)) h = cc
    to (some (arr xs)) h = cc
    to (some (obj fs)) h = cc
    to (some (opaque n)) h = cc

module _ (py : Builtins) (schema_error : (schema value : Value) → Option String) where
  -- The value of a parameter is accepted: it is not given and not required, or an allowed null, or the
  -- schema has no error, or an empty one, for what it is coerced to.
  abbrev pub IsAccepted : String → Value → Value → Type 0
  IsAccepted parameter_type value param =
      ((is_given value ≡ false) × (is_required (lookup "required" param) ≡ false))
      ⊎ ((is_given value ≡ true) × ((is_nullable param && is_null value) ≡ true))
      ⊎ ((is_given value ≡ true)
          × ((is_nullable param && is_null value) ≡ false)
          × ((w : Value) × (coerce_type py param value parameter_type none ≡ ok w)
              × NoError (schema_error (schema_of (or_self (lookup "schema" param) param)) w)))

  NoError-subst : {a b : Option String} → ok a ≡ ok b → NoError b → NoError a
  NoError-subst {a} {b} e no_error = subst NoError (sym (ok-injective e)) no_error
    where
      ok-injective : ok a ≡ ok b → a ≡ b
      ok-injective e = cc

  longer : (c : Char) (s t : String) → (String.◌∷◌ c s) <> t ≢ ""
  longer c s t e = nonempty (sym (cons-append c s t) ∙ e)
    where
      nonempty : {d : Char} {u : String} → String.◌∷◌ d u ≡ "" → ⊥
      nonempty h = cc

  check_converted-NoError :
      (param : Value) (r : Result Value) (e : Option String)
      → check_converted py schema_error param r ≡ ok e
      → NoError e
      → (w : Value) × (r ≡ ok w)
        × NoError (schema_error (schema_of (or_self (lookup "schema" param) param)) w)
  unfolding check_converted
  check_converted-NoError param (ok w) e h no_error = (w, refl, NoError-subst h no_error)
  check_converted-NoError param (err (Exc.type_validation_error t p n)) e h no_error =
      absurd (longer (char b'W' tt) "rong type, expected '" _ (NoError-subst h no_error))
  check_converted-NoError param (err x) e h no_error = cc

  not_missing :
      (parameter_type : String) (value param : Value) (r : Result String) (e : Option String)
      → (r >>= λ name. ok (some (message py schema_error parameter_type value param name))) ≡ ok e
      → NoError e
      → ⊥
  not_missing parameter_type value param (ok name) e h no_error =
      longer (char b'M' tt) "issing " _ (NoError-subst h no_error)
  not_missing parameter_type value param (err x) e h no_error = cc

  validate_parameter-IsAccepted :
      (parameter_type : String) (value param : Value)
      → ((e : Option String) × (validate_parameter py schema_error parameter_type value param
            ≡ ok e)
          × NoError e)
        ↔ IsAccepted parameter_type value param
  unfolding validate_parameter
  validate_parameter-IsAccepted parameter_type value param = (
    λ (e, h, no_error). elim (Bool-cases (is_given value)) [
      | inl given ↦ elim (Bool-cases (is_nullable param && is_null value)) [
        | inl is_none ↦ inr (inl (given, is_none))
        | inr not_null ↦ inr (
            inr (
              given,
              not_null,
              check_converted-NoError param (coerce_type py param value parameter_type none) e
                  (sym (
                      validate_parameter-converted py schema_error parameter_type value param given
                        not_null)
                    ∙ h)
                  no_error,
            ))
      ]
      | inr not_given ↦ elim (Bool-cases (is_required (lookup "required" param))) [
        | inl required ↦ absurd (
            not_missing parameter_type value param (name_of param) e
              (sym (
                  validate_parameter-missing py schema_error parameter_type value param not_given
                    required)
                ∙ h)
              no_error)
        | inr optional ↦ inl (not_given, optional)
      ]
    ],
    λ accepted. elim accepted [
      | inl (not_given, optional) ↦ (none, rw (validate_parameter, not_given, optional) refl, tt)
      | inr (inl (given, is_none)) ↦ (none, rw (validate_parameter, given, is_none) refl, tt)
      | inr (inr (given, not_null, (w, coerced, no_error))) ↦ (
        schema_error (schema_of (or_self (lookup "schema" param) param)) w,
        rw (validate_parameter, given, not_null, coerced)
            (check_converted-ok py schema_error param w),
        no_error,
      )
    ],
  )

  -- It has a name, and what is found by that name is accepted.
  abbrev pub IsFound : String → (String → Value) → Value → Type 0
  IsFound location find param =
      (name : String) × IsNamed name param × IsAccepted location (find name) param

  pub IsFound-named :
      (location : String) (find : String → Value) (param : Value)
      → ((e : Option String) × ((name_of param >>= λ name.
              validate_parameter py schema_error location (find name) param)
            ≡ ok e)
          × NoError e)
        ↔ IsFound location find param
  IsFound-named location find param = (
    λ (e, h, no_error).
        let (name, named, h₁) = bind-eq-ok (name_of param) _ h in
        (
          name,
          (name_of_iff name param).0 named,
          (validate_parameter-IsAccepted location (find name) param).0 (e, h₁, no_error),
        ),
    λ (name, named, accepted).
        let (e, h, no_error) =
          (validate_parameter-IsAccepted location (find name) param).1 accepted in
        (
          e,
          ap (λ r. r >>= λ name. validate_parameter py schema_error location (find name) param)
                ((name_of_iff name param).1 named)
              ∙ h,
          no_error,
        ),
  )

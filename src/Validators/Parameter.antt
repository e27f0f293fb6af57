-- ===== src/Validators/Parameter.antt =====
-- connexion/validators/parameter.py: the `ParameterValidator`. The check of jsonschema is a parameter, and
-- so is the parser of the query, one of those of UriParsing. A set of names is a list of them.
pub mod Accepted
pub mod Declared
pub mod Found
pub mod Located
mod Tests
pub mod Requests
use connexion.Prelude.{
  String, Bool, true, false, not, ◌&&◌, Option, none, some, List, [], ◌∷◌, ◌++◌, map, ◌==◌,
  if◌then◌else◌, mem,
}
use Prim.Native.Char.{char}
use connexion.Prelude.Text.{◌<>◌, join, lower, replace}
use connexion.Prelude.Dict
use connexion.Prelude.Dict.{Dict}
use connexion.Value.{Value, Fields, null, str, arr, obj, end, field, truthy}
use connexion.Value.Access.{lookup}
use connexion.Errors.{
  Exc, Problem, problem_exception, bad_request_problem, type_error, Done, done, Result, ok, err,
  ◌>>=◌, or_key_error,
}
use connexion.Utils.Media.{is_nullable, is_null, or_self}
use connexion.Utils.Coerce.{Builtins, coerce_type}

-- What starlette's `Request` reads from the scope.
pub record HttpRequest : Type 0 where
  pub query_params : Dict Value
  pub path_params : Dict Value
  pub headers : Dict Value
  pub cookies : Dict Value

-- `del param["required"]`
unfoldable pub without_required : Fields → Fields
without_required end = end
without_required (field k v fs) = if k == "required" then fs else field k v (without_required fs)

abbrev pub schema_of : Value → Value
unfolding without_required
schema_of (obj fs) = obj (without_required fs)
schema_of v = v

-- `str(e)` of a `TypeValidationError`
abbrev pub wrong_type : String → String → String → String
wrong_type schema_type parameter_type name =
    "Wrong type, expected '"
    <> (schema_type <> ("' for " <> (parameter_type <> (" parameter '" <> (name <> "'")))))

abbrev pub is_given : Value → Bool
is_given null = false
is_given v = true

abbrev pub is_required : Option Value → Bool
is_required none = false
is_required (some v) = truthy v

abbrev pub text_of : Value → Result String
text_of (str s) = ok s
text_of v = err (type_error "not a text")

unfoldable pub name_of : Value → Result String
unfolding lookup
name_of param = or_key_error "name" (lookup "name" param) >>= text_of

-- the entry of a dict, or None
abbrev pub or_none : Option Value → Value
or_none none = null
or_none (some v) = v

abbrev pub extra_parameter_problem : List String → Exc
unfolding join
extra_parameter_problem query = problem_exception (record {
  status = 400;
  title = null;
  detail = str ("Extra query parameter(s) " <> (join ", " query <> " not in spec"));
  kind = null;
  instance_ = null;
  headers = [];
  ext = [];
})

module _ (py : Builtins) (schema_error : (schema value : Value) → Option String) where
  -- the check of the converted value, or the message of a type that is wrong
  unfoldable pub check_converted : Value → Result Value → Result (Option String)
  unfolding schema_of lookup
  check_converted param (ok converted_value) =
      ok (schema_error (schema_of (or_self (lookup "schema" param) param)) converted_value)
  check_converted param (err (Exc.type_validation_error t p n)) = ok (some (wrong_type t p n))
  check_converted param (err e) = err e

  -- The error of a parameter, none where it is valid. None stands for a parameter that is not given.
  unfoldable pub validate_parameter :
      (parameter_type : String) → (value param : Value) → Result (Option String)
  unfolding lookup truthy is_nullable is_null coerce_type check_converted name_of
  validate_parameter parameter_type value param =
      if is_given value
      then (if is_nullable param && is_null value
          then ok none
          else check_converted param (coerce_type py param value parameter_type none))
      else (if is_required (lookup "required" param)
          then (name_of param >>= λ name.
              ok (some ("Missing " <> (parameter_type <> (" parameter '" <> (name <> "'"))))))
          else ok none)

  module _ (resolve_query : Dict Value → Result (Dict Value)) (parameters : List Value)
      (strict_validation : Bool) where
    -- `self.parameters.get(location, [])`
    unfoldable pub located : String → List Value → List Value
    unfolding lookup
    located location [] = []
    located location (p ∷ ps) =
        let rest = located location ps in if is_in (lookup "in" p) location then p ∷ rest else rest
      where
        is_in : Option Value → String → Bool
        is_in (some (str s)) location = s == location
        is_in v location = false

    unfoldable pub names_of : List Value → Result (List String)
    unfolding name_of
    names_of [] = ok []
    names_of (p ∷ ps) = name_of p >>= λ name. names_of ps >>= λ names. ok (name ∷ names)

    -- `request_params.difference(spec_params)`
    unfoldable pub validate_parameter_list :
        (request_params spec_params : List String) → List String
    validate_parameter_list [] spec_params = []
    validate_parameter_list (k ∷ ks) spec_params =
        let rest = validate_parameter_list ks spec_params in
        if mem k spec_params then rest else k ∷ rest

    unfoldable pub validate_query_parameter : Value → HttpRequest → Result (Option String)
    unfolding Dict.get name_of validate_parameter
    validate_query_parameter param request = do
      query_params ← resolve_query request.query_params
      name ← name_of param
      validate_parameter "query" (or_none (Dict.get name query_params)) param

    unfoldable pub validate_path_parameter : Value → HttpRequest → Result (Option String)
    unfolding Dict.get name_of validate_parameter replace
    validate_path_parameter param request = do
      name ← name_of param
      validate_parameter "path"
          (or_none (Dict.get (replace b'-' (char b'_' tt) name) request.path_params)) param

    -- The names of headers are compared in lower case.
    unfoldable pub validate_header_parameter : Value → HttpRequest → Result (Option String)
    unfolding Dict.get name_of validate_parameter lower
    validate_header_parameter param request = do
      name ← name_of param
      validate_parameter "header" (or_none (Dict.get (lower name) request.headers)) param

    unfoldable pub validate_cookie_parameter : Value → HttpRequest → Result (Option String)
    unfolding Dict.get name_of validate_parameter
    validate_cookie_parameter param request = do
      name ← name_of param
      validate_parameter "cookie" (or_none (Dict.get name request.cookies)) param

    -- `if error: raise BadRequestProblem(detail=error)`
    unfoldable pub raise_if : Option String → Result Done
    unfolding bad_request_problem
    raise_if none = ok done
    raise_if (some error) = if error == "" then ok done else err (bad_request_problem (str error))

    -- one of the four loops
    unfoldable pub validate_all :
        (Value → HttpRequest → Result (Option String)) → List Value → HttpRequest → Result Done
    unfolding raise_if
    validate_all validate [] request = ok done
    validate_all validate (param ∷ params) request = validate param request >>= λ error.
        raise_if error >>= λ _. validate_all validate params request

    abbrev pub extra_or : List String → Result Done
    extra_or [] = ok done
    extra_or (k ∷ ks) = err (extra_parameter_problem (k ∷ ks))

    unfoldable pub validate_strict : HttpRequest → Result Done
    unfolding Dict.keys located names_of validate_parameter_list extra_parameter_problem
    validate_strict request =
        if strict_validation
        then (names_of (located "query" parameters) >>= λ names.
            extra_or (validate_parameter_list (Dict.keys request.query_params) names))
        else ok done

    unfoldable pub validate_request : HttpRequest → Result Done
    unfolding validate_strict validate_all validate_query_parameter validate_path_parameter
        validate_header_parameter validate_cookie_parameter located
    validate_request request = do
      _ ← validate_strict request
      _ ← validate_all validate_query_parameter (located "query" parameters) request
      _ ← validate_all validate_path_parameter (located "path" parameters) request
      _ ← validate_all validate_header_parameter (located "header" parameters) request
      validate_all validate_cookie_parameter (located "cookie" parameters) request

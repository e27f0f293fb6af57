-- ===== src/Security/Checks.antt =====
-- `_need_to_add_context_or_scopes`, `_generic_check`, the `check_*` functions and `validate_scope`.
use connexion.Prelude.{
  String, Bool, true, false, ◌||◌, Option, none, some, List, [], ◌∷◌, map, ◌==◌, all, any, mem,
  if◌then◌else◌,
}
use connexion.Prelude.Text.{words}
use connexion.Prelude.Dict
use connexion.Prelude.Dict.{Dict}
use connexion.Value.{Value, null, str, arr, obj, items, of_items, fields, of_fields}
use connexion.Errors.{
  oauth_response_problem, oauth_scope_problem, type_error, attribute_error, Result, ok, err, ◌>>=◌,
}
use connexion.Security.{AuthResult, no_value, info, settle, Function, Request, is_truthy}
use connexion.Security.Inspect.{inspect_function_arguments}

abbrev pub required_scopes_kw : String
required_scopes_kw = "required_scopes"

abbrev pub context_kw : String
context_kw = "context_"

unfoldable pub need_to_add_context_or_scopes : Function → Bool × Bool
unfolding inspect_function_arguments
need_to_add_context_or_scopes func =
    let (arguments, has_kwargs) = inspect_function_arguments func in
    (mem context_kw arguments, has_kwargs || mem required_scopes_kw arguments)

abbrev pub scopes_value : Option (List String) → Value
scopes_value none = null
scopes_value (some scopes) = arr (of_items (map str scopes))

abbrev pub context_value : Request → Value
context_value request = obj (of_fields request.context)

-- the keyword arguments of the call
unfoldable pub check_kwargs : Function → Request → Option (List String) → Dict Value
unfolding need_to_add_context_or_scopes Dict.set
check_kwargs func request required_scopes =
    let (need_context, need_scopes) = need_to_add_context_or_scopes func in
    let kwargs : Dict Value =
      if need_context then (context_kw, context_value request) ∷ [] else [] in
    if need_scopes
    then Dict.set required_scopes_kw (scopes_value required_scopes) kwargs
    else kwargs

-- the tests on `token_info` after the call
unfoldable pub accept_token_info : String → AuthResult → Result AuthResult
accept_token_info exception_msg no_value = ok no_value
accept_token_info exception_msg (info null) = err (oauth_response_problem exception_msg)
accept_token_info exception_msg (info v) = ok (info v)

unfoldable pub generic_check :
    Function → String → Request → List Value → Option (List String) → Result AuthResult
unfolding check_kwargs accept_token_info settle
generic_check func exception_msg request args required_scopes =
    settle (func.call args (check_kwargs func request required_scopes))
    >>= accept_token_info exception_msg

unfoldable pub check_bearer_token : Function → Request → String → Result AuthResult
unfolding generic_check
check_bearer_token token_info_func request token =
    generic_check token_info_func "Provided token is not valid" request (str token ∷ []) none

unfoldable pub check_basic_auth : Function → Request → String → String → Result AuthResult
unfolding generic_check
check_basic_auth basic_info_func request username password =
    generic_check basic_info_func "Provided authorization is not valid" request
      (str username ∷ str password ∷ []) none

unfoldable pub check_api_key : Function → Request → String → Result AuthResult
unfolding generic_check
check_api_key api_key_info_func request api_key =
    generic_check api_key_info_func "Provided apikey is not valid" request (str api_key ∷ []) none

-- `token_info.get("scope", token_info.get("scopes", ""))`
unfoldable pub token_scopes_of : AuthResult → Result Value
unfolding fields Dict.get_or
token_scopes_of (info (obj fs)) =
    let token_info = fields fs in
    ok (Dict.get_or "scope" token_info (Dict.get_or "scopes" token_info (str "")))
token_scopes_of _ = err (attribute_error "get")

-- the keyword arguments of the scope validation function
abbrev scope_kwargs : Function → Request → Dict Value
unfolding need_to_add_context_or_scopes
scope_kwargs func request =
    if (need_to_add_context_or_scopes func).0 then (context_kw, context_value request) ∷ [] else []

abbrev pub require_scope : Bool → List String → Value → AuthResult → Result AuthResult
require_scope true required_scopes token_scopes token_info = ok token_info
require_scope false required_scopes token_scopes token_info = err (
    oauth_scope_problem "Provided token doesn't have the required scope" required_scopes
      token_scopes)

unfoldable pub check_oauth_func :
    (token_info_func scope_validate_func : Function)
    → Request
    → (token : String) (required_scopes : List String) → Result AuthResult
unfolding generic_check token_scopes_of need_to_add_context_or_scopes settle is_truthy
check_oauth_func token_info_func scope_validate_func request token required_scopes = do
  token_info ←
      generic_check token_info_func "Provided token is not valid" request (str token ∷ [])
        (some required_scopes)
  token_scopes ← token_scopes_of token_info
  validation ← settle (
      scope_validate_func.call (scopes_value (some required_scopes) ∷ token_scopes ∷ [])
        (scope_kwargs scope_validate_func request))
  require_scope (is_truthy validation) required_scopes token_scopes token_info

-- A set takes hashable elements only.
abbrev pub is_hashable : Value → Bool
is_hashable (arr xs) = false
is_hashable (obj fs) = false
is_hashable _ = true

-- `set(token_scopes)` of a list, or of the words of a text
unfoldable pub scope_set : Value → Result (List Value)
unfolding items words
scope_set (arr xs) =
    if all is_hashable (items xs) then ok (items xs) else err (type_error "unhashable")
scope_set (str s) = ok (map str (words s))
scope_set _ = err (attribute_error "split")

abbrev pub is_str : String → Value → Bool
is_str s (str t) = s == t
is_str s _ = false

-- `required_scopes <= token_scopes`
abbrev pub includes : List String → List Value → Bool
includes required_scopes token_scopes = all (λ s. any (is_str s) token_scopes) required_scopes

unfoldable pub validate_scope : (required_scopes : List String) (token_scopes : Value) → Result Bool
unfolding scope_set
validate_scope required_scopes token_scopes = do
  scopes ← scope_set token_scopes
  ok (includes required_scopes scopes)

-- ===== src/Security/Lookup.antt =====
-- `_get_function`, the `get_*_func` methods, `get_token_info_remote`, and `validate_scope` as the
-- default scope validation function.
use connexion.Prelude.{String, Option, none, some, List, [], ◌∷◌, ◌==◌, eqb, if◌then◌else◌}
use connexion.Prelude.Text.{◌<>◌}
use connexion.Prelude.Dict
use connexion.Prelude.Dict.{Dict}
use connexion.Value.{Value, null, bool, str, arr, items}
use connexion.Errors.{type_error, Result, ok, err, ◌>>=◌}
use connexion.Security.{info, done, coroutine, Awaited, positional, Function, Platform}
use connexion.Security.Checks.{validate_scope}

-- A security scheme of the specification: the entries of it that the program reads are texts.
abbrev pub Scheme : Type 0
Scheme = Dict String

abbrev or_text : Option String → Option String → Option String
or_text none b = b
or_text (some s) b = if s == "" then b else some s

abbrev if_truthy : Option String → Option String
if_truthy none = none
if_truthy (some s) = if s == "" then none else some s

abbrev imported : Platform → Option Function → Option String → Result (Option Function)
imported platform default none = ok default
imported platform default (some name) = platform.get_function_from_name name >>= λ f. ok (some f)

unfoldable pub get_function :
    Platform → Scheme → (key environ_key : String) → Option Function → Result (Option Function)
unfolding Dict.get
get_function platform scheme key environ_key default =
    imported platform default
      (if_truthy (or_text (Dict.get key scheme) (platform.environ environ_key)))

abbrev first_argument : List Value → Result String
first_argument (str token ∷ []) = ok token
first_argument args = err (type_error "wrapper() takes one token")

-- The remote answers None unless its status code is 200.
abbrev remote_answer : Platform → String → String → Value
remote_answer platform url token =
    let (status_code, json) = platform.http_get url ("Bearer " <> token) in
    if eqb status_code 200 then json else null

unfoldable pub get_token_info_remote : Platform → String → Function
get_token_info_remote platform token_info_url = record {
  parameters = ("token", positional) ∷ [];
  call = λ args kwargs. coroutine (
      done
        (first_argument args >>= λ token. ok (info (remote_answer platform token_info_url token))));
}

abbrev remote_or_none : Platform → Option String → Option Function
remote_or_none platform none = none
remote_or_none platform (some url) = some (get_token_info_remote platform url)

abbrev or_remote : Platform → Scheme → Option Function → Option Function
or_remote platform scheme (some f) = some f
or_remote platform scheme none =
    remote_or_none platform
      (if_truthy (or_text (Dict.get "x-tokenInfoUrl" scheme) (platform.environ "TOKENINFO_URL")))

unfoldable pub get_tokeninfo_func : Platform → Scheme → Result (Option Function)
unfolding get_function get_token_info_remote Dict.get
get_tokeninfo_func platform scheme = do
  token_info_func ← get_function platform scheme "x-tokenInfoFunc" "TOKENINFO_FUNC" none
  ok (or_remote platform scheme token_info_func)

-- The texts among the required scopes, which a specification lists.
abbrev pub texts : List Value → List String
texts [] = []
texts (str s ∷ vs) = s ∷ texts vs
texts (v ∷ vs) = texts vs

abbrev pub validate_scope_call : List Value → Awaited
validate_scope_call (arr required_scopes ∷ token_scopes ∷ []) = done (
    validate_scope (texts (items required_scopes)) token_scopes >>= λ valid. ok (info (bool valid)))
validate_scope_call args = done (err (type_error "validate_scope() takes two arguments"))

unfoldable pub validate_scope_function : Function
unfolding validate_scope items
validate_scope_function = record {
  parameters = ("required_scopes", positional) ∷ ("token_scopes", positional) ∷ [];
  call = λ args kwargs. validate_scope_call args;
}

abbrev or_default : Option Function → Function
or_default none = validate_scope_function
or_default (some f) = f

unfoldable pub get_scope_validate_func : Platform → Scheme → Result Function
unfolding get_function validate_scope_function
get_scope_validate_func platform scheme = do
  f ←
      get_function platform scheme "x-scopeValidateFunc" "SCOPEVALIDATE_FUNC"
        (some validate_scope_function)
  ok (or_default f)

unfoldable pub get_basicinfo_func : Platform → Scheme → Result (Option Function)
unfolding get_function
get_basicinfo_func platform scheme =
    get_function platform scheme "x-basicInfoFunc" "BASICINFO_FUNC" none

unfoldable pub get_apikeyinfo_func : Platform → Scheme → Result (Option Function)
unfolding get_function
get_apikeyinfo_func platform scheme =
    get_function platform scheme "x-apikeyInfoFunc" "APIKEYINFO_FUNC" none

unfoldable pub get_bearerinfo_func : Platform → Scheme → Result (Option Function)
unfolding get_function
get_bearerinfo_func platform scheme =
    get_function platform scheme "x-bearerInfoFunc" "BEARERINFO_FUNC" none

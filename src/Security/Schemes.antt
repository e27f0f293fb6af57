-- ===== src/Security/Schemes.antt =====
-- `get_auth_header_value`, `get_cookie_value` and the `verify_*` wrappers of one scheme each.
use connexion.Prelude.{String, Option, none, some, List, [], ◌∷◌, ◌==◌, if◌then◌else◌}
use connexion.Prelude.Text
use connexion.Prelude.Dict
use connexion.Value.{obj, end}
use connexion.Errors.{
  Exc, oauth_problem, attribute_error, index_error, Result, ok, err, ◌>>=◌, or_key_error,
}
use connexion.Security.{
  AuthResult, no_value, info, Function, QueryDict, multi, plain, Request, AuthFunc, passes,
  Platform,
}
use connexion.Security.Checks.{
  check_bearer_token, check_basic_auth, check_api_key, check_oauth_func,
}

abbrev split_authorization : Option (String × String) → Result (Option (String × String))
split_authorization none = err (oauth_problem "Invalid authorization header")
split_authorization (some (auth_type, value)) = ok (some (Text.lower auth_type, value))

abbrev header_value : Option String → Result (Option (String × String))
header_value none = ok none
header_value (some authorization) =
    if authorization == "" then ok none else split_authorization (Text.two_words authorization)

-- none stands for `(None, None)`
unfoldable pub get_auth_header_value : Request → Result (Option (String × String))
unfolding Text.two_words Text.lower
get_auth_header_value request = header_value (request.header "Authorization")

-- Runs `check` on the value behind an authorization of type `wanted`.
abbrev with_auth_type :
    String → (String → Result AuthResult) → Option (String × String) → Result AuthResult
with_auth_type wanted check none = ok no_value
with_auth_type wanted check (some (auth_type, value)) =
    if auth_type == wanted then check value else ok no_value

unfoldable pub verify_oauth :
    (token_info_func scope_validate_func : Function) → List String → AuthFunc
unfolding get_auth_header_value check_oauth_func
verify_oauth token_info_func scope_validate_func required_scopes request =
    passes
      (get_auth_header_value request
        >>= with_auth_type "bearer" λ token.
          check_oauth_func token_info_func scope_validate_func request token required_scopes)
      request

unfoldable pub verify_bearer : Function → AuthFunc
unfolding get_auth_header_value check_bearer_token
verify_bearer token_info_func request =
    passes
      (get_auth_header_value request
        >>= with_auth_type "bearer" (check_bearer_token token_info_func request))
      request

abbrev user_and_password : Option String → Result (String × String)
user_and_password none = err (oauth_problem "Invalid authorization header")
user_and_password (some text) = elim (Text.cut b':' text) [
  | none ↦ err (oauth_problem "Invalid authorization header")
  | some pair ↦ ok pair
]

unfoldable pub verify_basic : Platform → Function → AuthFunc
unfolding get_auth_header_value check_basic_auth Text.cut
verify_basic platform basic_info_func request =
    passes
      (get_auth_header_value request
        >>= with_auth_type "basic" λ user_pass.
          user_and_password (platform.b64_latin1 user_pass) >>= λ (username, password).
          check_basic_auth basic_info_func request username password)
      request

abbrev or_none_text : Option String → String
or_none_text none = "None"
or_none_text (some s) = s

-- `str(cookies)` of a missing header is "None"
unfoldable pub get_cookie_value : Platform → Option String → String → Option String
unfolding Dict.get
get_cookie_value platform cookies name = Dict.get name (platform.cookies (or_none_text cookies))

abbrev pop_first : String → List String → Result String
pop_first key [] = err (index_error key)
pop_first key (v ∷ vs) = ok v

-- `_immutable_pop`
unfoldable pub immutable_pop : QueryDict → String → Result (String × QueryDict)
unfolding Dict.get Dict.remove
immutable_pop (multi d) key = do
  values ← or_key_error key (Dict.get key d)
  value ← pop_first key values
  ok (value, multi (Dict.remove key d))
immutable_pop (plain d) key = do
  value ← or_key_error key (Dict.get key d)
  ok (value, plain (Dict.remove key d))

abbrev check_key : Function → Option String → AuthFunc
check_key api_key_info_func none request = passes (ok no_value) request
check_key api_key_info_func (some api_key) request =
    passes (check_api_key api_key_info_func request api_key) request

-- `except KeyError: api_key = None`; any other exception is raised
abbrev popped : Function → Result (String × QueryDict) → AuthFunc
popped api_key_info_func (ok (api_key, query)) request =
    check_key api_key_info_func (some api_key) (record request { query = some query })
popped api_key_info_func (err (Exc.key_error k)) request = check_key api_key_info_func none request
popped api_key_info_func (err e) request = (err e, request)

abbrev pop_query : Option QueryDict → String → Result (String × QueryDict)
pop_query none key = err (attribute_error "query")
pop_query (some query) key = immutable_pop query key

unfoldable pub verify_api_key : Platform → Function → (loc name : String) → AuthFunc
unfolding check_api_key immutable_pop get_cookie_value
verify_api_key platform api_key_info_func loc name request =
    if loc == "query"
    then popped api_key_info_func (pop_query request.query name) request
    else if loc == "header"
    then check_key api_key_info_func (request.header name) request
    else if loc == "cookie"
    then check_key api_key_info_func (get_cookie_value platform (request.header "Cookie") name)
        request
    else passes (ok no_value) request

unfoldable pub verify_none : AuthFunc
verify_none request = passes (ok (info (obj end))) request

-- ===== src/Security/Tests.antt =====
-- The security handlers on concrete requests.
use connexion.Prelude.{
  ◌≡◌, refl, ◌↔◌, ◌≤◌, String, true, false, none, some, List, [], ◌∷◌, All, ◌==◌, if◌then◌else◌,
}
use connexion.Prelude.Dict
use connexion.Prelude.Dict.{Dict}
use connexion.Value.{Value, str, arr, obj, nil, cons, end, field, of_fields, null, of_items}
use connexion.Errors.{
  Exc, oauth_problem, oauth_response_problem, oauth_scope_problem, other, status_of, ok, err,
}
use connexion.Security.{
  AuthResult, no_value, info, done, coroutine, positional, Function, plain, Request, AuthFunc,
  Platform, settle, is_truthy,
}
use connexion.Security.Checks.{validate_scope, check_oauth_func}
use connexion.Security.Schemes.{verify_bearer, verify_basic, verify_api_key, verify_oauth}
use connexion.Security.Verify.{
  verify_multiple_schemes, raise_most_specific, verify_security, no_authorization, raised,
}
use connexion.Security.Specific.{rank, last_with, raise_most_specific_lem}
use connexion.Security.Accepts.{
  Rejects, Grants, if_none, verify_security-ok_iff, verify_security-Rejects,
}
use connexion.Security.Multiple.{Answers, verify_multiple_schemes-Answers_iff}
use connexion.Security.Scopes.{
  OauthChecked, Decides, validate_scope-Decides, check_oauth_func-OauthChecked,
}
use connexion.Security.Lookup.{validate_scope_function}

-- The token "good" is Ann's, with two scopes; any other is not valid.
abbrev ann : Value
ann = obj (field "sub" (str "ann") (field "scope" (str "read write") end))

abbrev token_call : List Value → AuthResult
token_call (str t ∷ args) = if t == "good" then info ann else info null
token_call args = info null

abbrev token_info_func : Function
token_info_func = record {
  parameters = ("token", positional) ∷ [];
  call = λ args kwargs. coroutine (done (ok (token_call args)));
}

abbrev with_authorization : String → Request
with_authorization value = record {
  header = λ name. if name == "Authorization" then some value else none;
  query = none;
  context = [];
}

abbrev platform : Platform
platform = record {
  environ = λ name. none;
  get_function_from_name = λ name. ok token_info_func;
  cookies = λ text. [];
  b64_latin1 = λ text. if text == "YTpi" then some "good:b" else none;
  http_get = λ url authorization. (404, null);
}

handlers : Unit {0}
unfolding verify_oauth verify_bearer verify_basic verify_api_key verify_multiple_schemes
    verify_security check_oauth_func validate_scope_function validate_scope settle is_truthy
    of_items
handlers = tt

bearer_tests :
    (verify_bearer token_info_func (with_authorization "Bearer good")
      ≡ (ok (info ann), with_authorization "Bearer good"))
    × (verify_bearer token_info_func (with_authorization "bearer bad") ≡ (
      err (oauth_response_problem "Provided token is not valid"),
      with_authorization "bearer bad",
    ))
    × (verify_bearer token_info_func (with_authorization "Basic good")
        ≡ (ok no_value, with_authorization "Basic good"))
    × (verify_bearer token_info_func (with_authorization "bearer")
        ≡ (err (oauth_problem "Invalid authorization header"), with_authorization "bearer"))
unfolding handlers
bearer_tests = (refl, refl, refl, refl)

basic_tests :
    (verify_basic platform token_info_func (with_authorization "Basic YTpi")
      ≡ (ok (info ann), with_authorization "Basic YTpi"))
    × (verify_basic platform token_info_func (with_authorization "Basic ???")
        ≡ (err (oauth_problem "Invalid authorization header"), with_authorization "Basic ???"))
unfolding handlers
basic_tests = (refl, refl)

abbrev with_query : List (String × String) → Request
with_query q = record { header = λ name. none; query = some (plain q); context = [] }

-- The key is taken out of the query.
api_key_tests :
    (verify_api_key platform token_info_func "query" "key"
        (with_query (("a", "1") ∷ ("key", "good") ∷ []))
      ≡ (ok (info ann), with_query (("a", "1") ∷ [])))
    × (verify_api_key platform token_info_func "query" "key" (with_query [])
        ≡ (ok no_value, with_query []))
unfolding handlers
api_key_tests = (refl, refl)

abbrev problems : List Exc
problems =
    other "x"
    ∷ oauth_problem "first"
    ∷ oauth_scope_problem "no" [] (str "")
    ∷ oauth_problem "second"
    ∷ []

raise_most_specific_tests :
    (raise_most_specific problems ≡ some (oauth_scope_problem "no" [] (str "")))
    × (raise_most_specific (oauth_problem "first" ∷ other "x" ∷ oauth_problem "second" ∷ [])
        ≡ some (oauth_problem "second"))
unfolding raise_most_specific
raise_most_specific_tests = (refl, refl)

raise_most_specific_lem_example :
    (e : Exc) × (raise_most_specific problems ≡ some e)
    × (last_with (status_of e) problems ≡ some e)
    × All (λ f. rank (status_of e) ≤ rank (status_of f)) problems
raise_most_specific_lem_example = raise_most_specific_lem problems (λ h. cc)

-- The first function raises, the second answers.
abbrev funcs : List AuthFunc
funcs = verify_basic platform token_info_func ∷ verify_bearer token_info_func ∷ []

abbrev good : Request
good = with_authorization "Bearer good"

verify_security-ok_iff_example :
    (verify_security funcs good ≡ (ok tt, good)) ↔ Grants funcs good good
verify_security-ok_iff_example = verify_security-ok_iff funcs good good

verify_security_test :
    verify_security funcs good
    ≡ (ok tt, record good { context = ("user", str "ann") ∷ ("token_info", ann) ∷ [] })
unfolding handlers
verify_security_test = refl

abbrev bad : Request
bad = with_authorization "Bearer bad"

bad-Rejects : Rejects funcs bad (oauth_response_problem "Provided token is not valid" ∷ []) bad
unfolding handlers
bad-Rejects = Rejects.passed refl (Rejects.failed refl Rejects.none_left)

verify_security-Rejects_example : verify_security funcs bad ≡ (
  err (
      if_none
        (oauth_response_problem "Provided token is not valid" ∷ [])
        no_authorization
        (raised (raise_most_specific (oauth_response_problem "Provided token is not valid" ∷ [])))),
  bad,
)
verify_security-Rejects_example =
    verify_security-Rejects funcs bad bad
      (oauth_response_problem "Provided token is not valid" ∷ []) bad-Rejects

abbrev schemes : Dict AuthFunc
schemes = ("one", verify_bearer token_info_func) ∷ ("two", verify_bearer token_info_func) ∷ []

verify_multiple_schemes-Answers_iff_example :
    (verify_multiple_schemes schemes good ≡ (ok (info ann), good))
    ↔ ((d : Dict Value) × Answers schemes good d good × (ann ≡ obj (of_fields (Dict.update [] d))))
verify_multiple_schemes-Answers_iff_example =
    verify_multiple_schemes-Answers_iff schemes good good ann

validate_scope-Decides_example :
    Decides ("read" ∷ []) (str "read write") (validate_scope ("read" ∷ []) (str "read write"))
validate_scope-Decides_example = validate_scope-Decides ("read" ∷ []) (str "read write")

validate_scope_tests :
    (validate_scope ("read" ∷ []) (str "read write") ≡ ok true)
    × (validate_scope ("admin" ∷ "read" ∷ []) (arr (cons (str "read") nil)) ≡ ok false)
unfolding handlers
validate_scope_tests = (refl, refl)

check_oauth_test :
    check_oauth_func token_info_func validate_scope_function good "good" ("write" ∷ [])
    ≡ ok (info ann)
unfolding handlers
check_oauth_test = refl

check_oauth_func-OauthChecked_example :
    OauthChecked token_info_func good "good" ("write" ∷ []) (info ann)
check_oauth_func-OauthChecked_example =
    check_oauth_func-OauthChecked token_info_func good "good" ("write" ∷ []) (info ann)
      check_oauth_test

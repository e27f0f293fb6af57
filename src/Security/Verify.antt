-- ===== src/Security/Verify.antt =====
-- `verify_multiple_schemes`, `_raise_most_specific` and `verify_security`.
use connexion.Prelude.{ℕ, Option, none, some, List, [], ◌∷◌, ◌++◌, leb, eqb, if◌then◌else◌}
use connexion.Prelude.Dict
use connexion.Prelude.Dict.{Dict}
use connexion.Value.{Value, null, obj, of_fields, fields}
use connexion.Errors.{Exc, oauth_problem, attribute_error, status_of, Result, ok, err}
use connexion.Security.{no_value, info, Request, AuthFunc}

-- the loop over the schemes, with the token information so far
unfoldable pub verify_schemes : Dict AuthFunc → Dict Value → AuthFunc
unfolding Dict.set
verify_schemes [] token_info request = (ok (info (obj (of_fields token_info))), request)
verify_schemes ((scheme_name, func) ∷ schemes) token_info request =
    let (result, request') = func request in
    elim result [
      | ok no_value ↦ (ok no_value, request')
      | ok (info v) ↦ verify_schemes schemes (Dict.set scheme_name v token_info) request'
      | err e ↦ (err e, request')
    ]

unfoldable pub verify_multiple_schemes : Dict AuthFunc → AuthFunc
unfolding verify_schemes
verify_multiple_schemes schemes request = verify_schemes schemes [] request

-- A dict with numbers for keys, in insertion order.
abbrev pub ByStatus : Type 0
ByStatus = List (ℕ × Exc)

unfoldable pub put : ℕ → Exc → ByStatus → ByStatus
put n e [] = (n, e) ∷ []
put n e ((m, f) ∷ d) = if eqb n m then (m, e) ∷ d else (m, f) ∷ put n e d

unfoldable pub find : ℕ → ByStatus → Option Exc
find n [] = none
find n ((m, e) ∷ d) = if eqb n m then some e else find n d

-- `{status: exc for exc in exceptions}`
unfoldable pub status_to_exc : ByStatus → List Exc → ByStatus
unfolding put status_of
status_to_exc d [] = d
status_to_exc d (exc ∷ exceptions) = status_to_exc (put (status_of exc) exc d) exceptions

-- `min(status_to_exc)`, over a first key and the others
unfoldable pub lowest : ℕ → ByStatus → ℕ
lowest n [] = n
lowest n ((m, e) ∷ d) = lowest (if leb n m then n else m) d

abbrev pub lowest_in : ByStatus → Option Exc
lowest_in [] = none
lowest_in ((n, e) ∷ d) = find (lowest n d) ((n, e) ∷ d)

abbrev pub otherwise : Option Exc → Option Exc → Option Exc
otherwise (some e) o = some e
otherwise none o = o

-- The exception that `_raise_most_specific` raises; none where it returns.
unfoldable pub raise_most_specific : List Exc → Option Exc
unfolding status_to_exc find lowest
raise_most_specific exceptions =
    let d = status_to_exc [] exceptions in
    otherwise (find 403 d) (otherwise (find 401 d) (lowest_in d))

-- How the loop of `verify_security` ends: by `break` with token information, or with the errors.
pub data Search : Type 0 where
  found : Value → Search
  exhausted : List Exc → Search

unfoldable pub try_funcs : List AuthFunc → List Exc → Request → Search × Request
try_funcs [] errors request = (exhausted errors, request)
try_funcs (func ∷ auth_funcs) errors request =
    let (result, request') = func request in
    elim result [
      | ok no_value ↦ try_funcs auth_funcs errors request'
      | ok (info v) ↦ (found v, request')
      | err e ↦ try_funcs auth_funcs (errors ++ e ∷ []) request'
    ]

-- `request.context.update({"user": ..., "token_info": token_info})`
unfoldable pub update_context : Value → Dict Value → Result (Dict Value)
unfolding Dict.get_or Dict.update Dict.set fields
update_context (obj fs) context =
    let token_info = fields fs in
    ok (
      Dict.update context (
        ("user", Dict.get_or "sub" token_info (Dict.get_or "uid" token_info null))
        ∷ ("token_info", obj fs)
        ∷ []))
update_context _ context = err (attribute_error "get")

abbrev pub no_authorization : Exc
no_authorization = oauth_problem "No authorization token provided"

abbrev pub set_context : Request → Result (Dict Value) → Result (Unit {0}) × Request
set_context request (ok context) = (ok tt, record request { context = context })
set_context request (err e) = (err e, request)

-- If nothing is raised for the errors, `token_info` is still the sentinel and has no `get`.
abbrev pub raised : Option Exc → Exc
raised none = attribute_error "get"
raised (some e) = e

abbrev pub conclude : Search × Request → Result (Unit {0}) × Request
conclude (found v, request) = set_context request (update_context v request.context)
conclude (exhausted [], request) = (err no_authorization, request)
conclude (exhausted (e ∷ es), request) = (err (raised (raise_most_specific (e ∷ es))), request)

unfoldable pub verify_security : List AuthFunc → Request → Result (Unit {0}) × Request
unfolding try_funcs raise_most_specific update_context
verify_security auth_funcs request = conclude (try_funcs auth_funcs [] request)

-- ===== src/Middleware/Security.antt =====
-- connexion/middleware/security.py: the verification function of an operation, and its use.
pub mod FailClosed
pub mod Tried
pub mod Tests
use connexion.Prelude.{
  String, Bool, true, false, Option, none, some, List, [], ◌∷◌, ◌++◌, ◌==◌, if◌then◌else◌,
}
use connexion.Prelude.Text
use connexion.Prelude.Dict
use connexion.Prelude.Dict.{Dict}
use connexion.Errors.{Result, ok, err, ◌>>=◌, or_key_error}
use connexion.Security.{Function, Request, AuthFunc, Platform}
use connexion.Security.Schemes.{
  verify_oauth, verify_basic, verify_bearer, verify_api_key, verify_none,
}
use connexion.Security.Verify.{verify_multiple_schemes, verify_security}
use connexion.Security.Lookup.{
  Scheme, get_tokeninfo_func, get_scope_validate_func, get_basicinfo_func, get_apikeyinfo_func,
  get_bearerinfo_func,
}

-- A security requirement: the required scopes by scheme name.
abbrev pub Requirement : Type 0
Requirement = Dict (List String)

-- `break` where there is no function
abbrev made : (Function → AuthFunc) → Option Function → Option AuthFunc
made verify none = none
made verify (some f) = some (verify f)

-- What is added to `auth_funcs` for a requirement; nothing after a `break`.
abbrev pub combined : Option (Dict AuthFunc) → List AuthFunc
combined none = []
combined (some ((name, f) ∷ [])) = f ∷ []
combined (some sec_req_funcs) = verify_multiple_schemes sec_req_funcs ∷ []

abbrev pub scheme_type : Dict Scheme → String → Option String
scheme_type security_schemes scheme_name = elim (Dict.get scheme_name security_schemes) [
  | none ↦ none
  | some s ↦ Dict.get "type" s
]

abbrev pub is_oauth2 : Option String → Bool
is_oauth2 none = false
is_oauth2 (some t) = t == "oauth2"

module _ (platform : Platform) where
  unfoldable pub oauth2_func : Scheme → List String → Bool → Result (Option AuthFunc)
  unfolding get_tokeninfo_func get_scope_validate_func verify_oauth
  oauth2_func scheme required_scopes true = ok none
  oauth2_func scheme required_scopes false = do
    token_info_func ← get_tokeninfo_func platform scheme
    scope_validate_func ← get_scope_validate_func platform scheme
    ok (made (λ f. verify_oauth f scope_validate_func required_scopes) token_info_func)

  unfoldable pub basic_func : Scheme → Result (Option AuthFunc)
  unfolding get_basicinfo_func verify_basic
  basic_func scheme = do
    basic_info_func ← get_basicinfo_func platform scheme
    ok (made (verify_basic platform) basic_info_func)

  unfoldable pub bearer_func : Scheme → Result (Option AuthFunc)
  unfolding get_bearerinfo_func verify_bearer
  bearer_func scheme = do
    bearer_info_func ← get_bearerinfo_func platform scheme
    ok (made verify_bearer bearer_info_func)

  unfoldable pub http_func : Scheme → Result (Option AuthFunc)
  unfolding basic_func bearer_func Text.lower Dict.get
  http_func security_scheme = do
    name ← or_key_error "scheme" (Dict.get "scheme" security_scheme)
    let scheme = Text.lower name
    if scheme == "basic"
        then basic_func security_scheme
        else if scheme == "bearer"
        then bearer_func security_scheme
        else ok none

  abbrev api_key_of : Scheme → Option Function → Result (Option AuthFunc)
  api_key_of security_scheme none = ok none
  api_key_of security_scheme (some f) = do
    loc ← or_key_error "in" (Dict.get "in" security_scheme)
    name ← or_key_error "name" (Dict.get "name" security_scheme)
    ok (some (verify_api_key platform f loc name))

  unfoldable pub api_key_func : Scheme → Result (Option AuthFunc)
  unfolding bearer_func get_apikeyinfo_func Text.lower Dict.get_or verify_api_key
  api_key_func security_scheme =
      if Text.lower (Dict.get_or "x-authentication-scheme" security_scheme "") == "bearer"
      then bearer_func security_scheme
      else (do
        apikey_info_func ← get_apikeyinfo_func platform security_scheme
        api_key_of security_scheme apikey_info_func)

  -- One round of the loop over a requirement: the function for a scheme, or none for a `break`.
  unfoldable pub scheme_func :
      Dict Scheme
      → (oauth : Bool) (scheme_name : String) (required_scopes : List String)
      → Result (Option AuthFunc)
  unfolding oauth2_func basic_func http_func api_key_func Dict.get
  scheme_func security_schemes oauth scheme_name required_scopes = do
    security_scheme ← or_key_error scheme_name (Dict.get scheme_name security_schemes)
    type_ ← or_key_error "type" (Dict.get "type" security_scheme)
    if type_ == "oauth2"
        then oauth2_func security_scheme required_scopes oauth
        else if type_ == "basic"
        then basic_func security_scheme
        else if type_ == "http"
        then http_func security_scheme
        else if type_ == "apiKey"
        then api_key_func security_scheme
        else ok none

  -- The loop over the schemes of a requirement, with `oauth` and `sec_req_funcs`.
  unfoldable pub requirement_funcs :
      Dict Scheme → Bool → Dict AuthFunc → Requirement → Result (Option (Dict AuthFunc))
  unfolding scheme_func Dict.set Dict.get
  requirement_funcs security_schemes oauth sec_req_funcs [] = ok (some sec_req_funcs)
  requirement_funcs security_schemes oauth sec_req_funcs ((scheme_name, required_scopes) ∷ req) =
      scheme_func security_schemes oauth scheme_name required_scopes >>= elim [
        | none ↦ ok none
        | some f ↦
            requirement_funcs security_schemes
              (if is_oauth2 (scheme_type security_schemes scheme_name) then true else oauth)
              (Dict.set scheme_name f sec_req_funcs) req
      ]

  -- The functions that one entry of `security` adds to `auth_funcs`.
  unfoldable pub entry_funcs : Dict Scheme → Requirement → Result (List AuthFunc)
  unfolding requirement_funcs verify_multiple_schemes verify_none
  entry_funcs security_schemes [] = ok (verify_none ∷ [])
  entry_funcs security_schemes (scheme ∷ security_req) =
      requirement_funcs security_schemes false [] (scheme ∷ security_req) >>= λ funcs.
      ok (combined funcs)

  unfoldable pub auth_funcs : Dict Scheme → List Requirement → Result (List AuthFunc)
  unfolding entry_funcs
  auth_funcs security_schemes [] = ok []
  auth_funcs security_schemes (security_req ∷ security) = do
    funcs ← entry_funcs security_schemes security_req
    rest ← auth_funcs security_schemes security
    ok (funcs ++ rest)

  unfoldable pub security_passthrough : Request → Result (Unit {0}) × Request
  security_passthrough request = (ok tt, request)

  unfoldable pub get_verification_fn :
      Dict Scheme → Option (List Requirement) → Result (Request → Result (Unit {0}) × Request)
  unfolding auth_funcs verify_security security_passthrough
  get_verification_fn security_schemes none = ok security_passthrough
  get_verification_fn security_schemes (some []) = ok security_passthrough
  get_verification_fn security_schemes (some (security_req ∷ security)) = do
    funcs ← auth_funcs security_schemes (security_req ∷ security)
    ok (verify_security funcs)

module _ {ℓ} {A : Type ℓ} where
  abbrev pub after_verification :
      (Request → Result A) → Request → Result (Unit {0}) × Request → Result A
  after_verification next_app request (ok _, request') =
      next_app (record request { context = request'.context })
  after_verification next_app request (err e, request') = err e

  -- `__call__`: the scope that the next app is given has the context of the verified request; what a
  -- function did to `request.query` stays with that request object.
  unfoldable pub call :
      (Request → Result (Unit {0}) × Request) → (next_app : Request → Result A) → Request → Result A
  call verification_fn next_app request =
      after_verification next_app request (verification_fn request)

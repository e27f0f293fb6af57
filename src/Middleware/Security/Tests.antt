-- ===== src/Middleware/Security/Tests.antt =====
-- Secured operations on concrete requests.
use connexion.Prelude.{
  String, ◌≡◌, refl, false, Option, none, some, List, [], ◌∷◌, ◌==◌, if◌then◌else◌,
}
use connexion.Prelude.Dict
use connexion.Prelude.Dict.{Dict}
use connexion.Value.{Value, str, obj, end, field, null}
use connexion.Errors.{Result, ok, err}
use connexion.Security.{AuthResult, info, done, positional, Request, Platform}
use connexion.Security.Lookup.{Scheme}
use connexion.Security.Verify.{no_authorization}
use connexion.Middleware.Security.{Requirement, requirement_funcs, get_verification_fn, call}
use connexion.Middleware.Security.Tried.{LetsThrough}
use connexion.Middleware.Security.FailClosed.{call-LetsThrough, get_verification_fn-IsUnusable}

abbrev key_call : List Value → AuthResult
key_call (str k ∷ args) =
    if k == "s3cret" then info (obj (field "uid" (str "ann") end)) else info null
key_call args = info null

abbrev platform : Platform
platform = record {
  environ = λ name. none;
  get_function_from_name = λ name. ok (record {
    parameters = ("key", positional) ∷ [];
    call = λ args kwargs. done (ok (key_call args));
  });
  cookies = λ text. [];
  b64_latin1 = λ text. none;
  http_get = λ url authorization. (404, null);
}

abbrev schemes : Dict Scheme
schemes =
    (
      "key",
      ("type", "apiKey")
          ∷ ("in", "header")
          ∷ ("name", "X-Key")
          ∷ ("x-apikeyInfoFunc", "app.check")
          ∷ [],
    )
    ∷ ("unchecked", ("type", "apiKey") ∷ ("in", "header") ∷ ("name", "X-Key") ∷ [])
    ∷ []

abbrev security : List Requirement
security = (("unchecked", []) ∷ []) ∷ (("key", []) ∷ []) ∷ []

abbrev with_key : String → Request
with_key key = record {
  header = λ name. if name == "X-Key" then some key else none;
  query = none;
  context = [];
}

abbrev verification : Request → Result (Unit {0}) × Request
verification = elim (get_verification_fn platform schemes (some security)) [
  | ok fn ↦ fn
  | err e ↦ λ r. (err e, r)
]

secured : Unit {0}
unfolding call get_verification_fn
secured = tt

abbrev app : Request → Result (Option Value)
app r = ok (unfold Dict.get in Dict.get "user" r.context)

call_tests : (call verification app (with_key "s3cret") ≡ ok (some (str "ann")))
unfolding secured
call_tests = refl

call-LetsThrough_example :
    (v : Value) × (t : Request) × (context : Dict Value) × LetsThrough platform schemes security
      (with_key "s3cret")
      v
      t
    × (Dict.get "token_info" context ≡ some v)
    × (app (record (with_key "s3cret") { context = context }) ≡ ok (some (str "ann")))
unfolding secured
call-LetsThrough_example =
    call-LetsThrough platform schemes security app (with_key "s3cret") (λ e. cc) refl call_tests

abbrev unchecked : List Requirement
unchecked = (("unchecked", []) ∷ []) ∷ []

unchecked-broken : requirement_funcs platform schemes false [] (("unchecked", []) ∷ []) ≡ ok none
unfolding requirement_funcs
unchecked-broken = refl

get_verification_fn-IsUnusable_example :
    (fn : Request → Result (Unit {0}) × Request) × (get_verification_fn platform schemes
        (some unchecked)
      ≡ ok fn)
    × ((r : Request) → fn r ≡ (err no_authorization, r))
get_verification_fn-IsUnusable_example =
    get_verification_fn-IsUnusable platform schemes unchecked (λ e. cc)
      (((λ e. cc), unchecked-broken), tt)

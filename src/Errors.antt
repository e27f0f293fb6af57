-- ===== src/Errors.antt =====
-- connexion/exceptions.py and connexion/problem.py: the exceptions that the program raises, those
-- of Python that it catches, results that may be an exception, and the problem response.
use connexion.Prelude.{
  ℕ, String, ◌≡◌, refl, false, Option, none, some, List, [], ◌∷◌, if◌then◌else◌,
}
use connexion.Prelude.Dict
use connexion.Prelude.Dict.{Dict}
use connexion.Value.{Value, null, str, int, truthy}

-- The arguments that a `ProblemException` holds. Its subclasses only choose them.
pub record Problem : Type 0 where
  pub status : ℕ
  pub title : Value
  pub detail : Value
  pub kind : Value
  pub instance_ : Value
  pub headers : Dict String
  pub ext : Dict Value

pub data Exc : Type 0 where
  connexion_exception : (message : String) → Exc
  problem_exception : Problem → Exc
  -- starlette's `HTTPException` (status_code, detail)
  http_exception : ℕ → String → Exc
  oauth_problem oauth_response_problem : (detail : String) → Exc
  oauth_scope_problem :
      (detail : String) (required_scopes : List String) (token_scopes : Value) → Exc
  resolver_error invalid_specification missing_middleware missing_operation : String → Exc
  type_validation_error : (schema_type parameter_type parameter_name : String) → Exc
  key_error value_error type_error attribute_error index_error import_error : String → Exc
  -- any other exception that user code raises
  other : String → Exc

-- `getattr(exc, "status_code", getattr(exc, "status", 600))`
unfoldable pub status_of : Exc → ℕ
status_of (problem_exception p) = p.status
status_of (http_exception n d) = n
status_of (oauth_problem d) = 401
status_of (oauth_response_problem d) = 401
status_of (oauth_scope_problem d r t) = 403
status_of _ = 600

pub data Result {ℓ} (A : Type ℓ) : Type ℓ where
  ok : A → Result A
  err : Exc → Result A

-- What a call without a value returns.
pub data Done : Type 0 where
  done : Done

-- What raises ends the block.
infixl 5 ◌>>=◌
abbrev pub ◌>>=◌ {ℓ κ} : {A : Type ℓ} {B : Type κ} → Result A → (A → Result B) → Result B
ok x >>= next = next x
err exc >>= next = err exc

module _ {ℓ κ} {A : Type ℓ} {B : Type κ} {y : B} where
  -- A block that returns has come through its first step.
  pub bind-eq-ok :
      (r : Result A) (next : A → Result B)
      → (r >>= next) ≡ ok y
      → (x : A) × (r ≡ ok x) × (next x ≡ ok y)
  bind-eq-ok (err exc) next e = cc
  bind-eq-ok (ok x) next e = (x, refl, e)

-- a missing key is a `KeyError`
abbrev pub or_key_error {ℓ} : {A : Type ℓ} → String → Option A → Result A
or_key_error k none = err (key_error k)
or_key_error k (some a) = ok a

abbrev pub plain_problem : ℕ → String → Value → Problem
plain_problem status title detail = record {
  status = status;
  title = str title;
  detail = detail;
  kind = null;
  instance_ = null;
  headers = [];
  ext = [];
}

unfoldable pub bad_request : (title : String) → (detail : Value) → Exc
bad_request title detail = problem_exception (plain_problem 400 title detail)

-- with the title that is the default
unfoldable pub bad_request_problem : Value → Exc
unfolding bad_request
bad_request_problem detail = bad_request "Bad Request" detail

unfoldable pub unsupported_media_type_problem : String → Exc
unsupported_media_type_problem detail =
    problem_exception (plain_problem 415 "Unsupported Media Type" (str detail))

unfoldable pub non_conforming_response_body : String → Exc
non_conforming_response_body message =
    problem_exception
      (plain_problem 500 "Response body does not conform to specification" (str message))

unfoldable pub non_conforming_response_headers : (reason message : String) → Exc
non_conforming_response_headers reason message =
    problem_exception (plain_problem 500 reason (str message))

unfoldable pub resolver_problem : ℕ → String → String → Exc
resolver_problem status title detail = problem_exception (plain_problem status title (str detail))

-- connexion/problem.py: the `ConnexionResponse`
pub record ConnexionResponse : Type 0 where
  pub status_code : ℕ
  pub mimetype : String
  pub content_type : String
  pub body : Dict Value
  pub headers : Dict String

abbrev with_instance : Value → Dict Value → Dict Value
with_instance v d = if truthy v then Dict.set "instance" v d else d

unfoldable pub problem : Problem → ConnexionResponse
unfolding Dict.set Dict.update truthy
problem p =
    let base : Dict Value =
      ("type", if truthy p.kind then p.kind else str "about:blank")
      ∷ ("title", p.title)
      ∷ ("detail", p.detail)
      ∷ ("status", int false p.status)
      ∷ [] in
    record {
      status_code = p.status;
      mimetype = "application/problem+json";
      content_type = "application/problem+json";
      body = Dict.update (with_instance p.instance_ base) p.ext;
      headers = p.headers;
    }

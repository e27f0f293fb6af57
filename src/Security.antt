-- ===== src/Security.antt =====
-- connexion/security.py: what the security handlers work on. A handler is a function of the request
-- that may raise, and that leaves a changed request behind also when it raises.
pub mod Inspect
pub mod Checks
pub mod Schemes
pub mod Verify
pub mod Specific
pub mod Accepts
pub mod Multiple
pub mod Scopes
pub mod Lookup
pub mod Tests
use connexion.Prelude.{ℕ, String, Bool, true, Option, List}
use connexion.Prelude.Dict.{Dict}
use connexion.Value.{Value, truthy}
use connexion.Errors.{Exc, Result, ok, err}

-- What a security function answers: the sentinel `no_value`, or token information.
pub data AuthResult : Type 0 where
  no_value : AuthResult
  info : Value → AuthResult

-- The result of a call that may have to be awaited, more than once.
pub data Awaited : Type 0 where
  done : Result AuthResult → Awaited
  coroutine : Awaited → Awaited

-- `while asyncio.iscoroutine(result): result = await result`
unfoldable pub settle : Awaited → Result AuthResult
settle (done r) = r
settle (coroutine a) = settle a

pub data Kind : Type 0 where
  positional keyword_only var_positional var_keyword : Kind

-- A Python function: its signature, and what a call answers. A call does not change the request.
pub record Function : Type 0 where
  pub parameters : List (String × Kind)
  pub call : List Value → Dict Value → Awaited

-- `request.query`: a dict with `to_dict(flat=False)`, such as werkzeug's, or a plain one.
pub data QueryDict : Type 0 where
  multi : Dict (List String) → QueryDict
  plain : Dict String → QueryDict

-- `header` answers `request.headers.get`; `query` is none where the object has no such attribute.
pub record Request : Type 0 where
  pub header : String → Option String
  pub query : Option QueryDict
  pub context : Dict Value

abbrev pub AuthFunc : Type 0
AuthFunc = Request → Result AuthResult × Request

abbrev pub passes : Result AuthResult → Request → Result AuthResult × Request
passes r request = (r, request)

-- What is not this program's code: the environment, imports, and decoders of the standard library.
-- `cookies` is `SimpleCookie().load`, `b64_latin1` is none where decoding raises, and `http_get`
-- answers a status code and the JSON of the body.
pub record Platform : Type 0 where
  pub environ : String → Option String
  pub get_function_from_name : String → Result Function
  pub cookies : String → Dict String
  pub b64_latin1 : String → Option String
  pub http_get : (url authorization : String) → ℕ × Value

-- `bool(result)`; the sentinel is an object, so it is true
unfoldable pub is_truthy : AuthResult → Bool
unfolding truthy
is_truthy no_value = true
is_truthy (info v) = truthy v

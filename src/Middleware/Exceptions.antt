-- ===== src/Middleware/Exceptions.antt =====
-- connexion/middleware/exceptions.py: the handlers of `ExceptionMiddleware`. That a handler is found by
-- the class of the exception is starlette's doing.
pub mod Status
use connexion.Prelude.{ℕ, String, Option, none, some, []}
use connexion.Prelude.Dict.{Dict}
use connexion.Value.{Value, str, null}
use connexion.Errors.{
  Exc, Problem, ConnexionResponse, problem, problem_exception, http_exception, oauth_problem,
  oauth_response_problem, oauth_scope_problem,
}

-- starlette's `Response`; its content is the JSON text of the dict
pub record Response : Type 0 where
  pub content : Dict Value
  pub status_code : ℕ
  pub media_type : String
  pub headers : Dict String

abbrev pub response_of : ConnexionResponse → Response
response_of r = record {
  content = r.body;
  status_code = r.status_code;
  media_type = r.mimetype;
  headers = r.headers;
}

unfoldable pub problem_handler : Problem → Response
unfolding problem
problem_handler exception = response_of (problem exception)

-- of the status code and the detail of an `HTTPException`
unfoldable pub http_handler : ℕ → String → Response
unfolding problem
http_handler status_code detail = response_of (
    problem (record {
      status = status_code;
      title = str detail;
      detail = str detail;
      kind = null;
      instance_ = null;
      headers = [];
      ext = [];
    }))

-- The response to an exception; none where no handler is registered for its class.
unfoldable pub handle : Exc → Option Response
unfolding problem_handler http_handler
handle (Exc.problem_exception p) = some (problem_handler p)
handle (Exc.http_exception status_code detail) = some (http_handler status_code detail)
handle (Exc.oauth_problem detail) = some (http_handler 401 detail)
handle (Exc.oauth_response_problem detail) = some (http_handler 401 detail)
handle (Exc.oauth_scope_problem detail required token) = some (http_handler 403 detail)
handle _ = none

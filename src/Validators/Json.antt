-- ===== src/Validators/Json.antt =====
-- connexion/validators/json.py. The JSON reader, the schema validator, and the decoding of bytes are
-- parameters.
pub mod Conforms
pub mod Held
pub mod Replay
pub mod Request
pub mod Response
pub mod Whole
use connexion.Prelude.{
  ℕ, String, Bool, true, false, not, ◌&&◌, Option, none, some, List, [], ◌∷◌, ◌++◌, ◌==◌,
  if◌then◌else◌,
}
use Prim.Native.String
use connexion.Prelude.Text.{◌<>◌, join}
use connexion.Value.{Value, null, str}
use connexion.Errors.{
  bad_request, bad_request_problem, non_conforming_response_body, Exc, Done, done, Result, ok, err,
  ◌>>=◌,
}
use connexion.Utils.Media.{is_null}
use connexion.Asgi.{Message, Receive, queue, join_bodies, has_more, receive}

-- jsonschema's `ValidationError`: its message, and its path as texts
pub record ValidationError : Type 0 where
  pub message : String
  pub path : List String

-- What the validators use of Python and of jsonschema: `json.loads`, which raises a
-- `JSONDecodeError` with a message, the check against the schema, which raises a
-- `ValidationError`, and `bytes.decode`.
pub data Loaded : Type 0 where
  loaded : Value → Loaded
  json_decode_error : (message : String) → Loaded

pub record Tools : Type 0 where
  pub loads : String → Loaded
  pub schema_error : Value → Option ValidationError
  pub decode : List ℕ → Result String
  pub nullable : Bool

-- the message and where in the body it belongs
unfoldable pub error_path_message : ValidationError → String
unfolding join
error_path_message e =
    let error_path = join "." e.path in
    if error_path == "" then "" else " - '" <> (error_path <> "'")

unfoldable pub full_message : ValidationError → String
unfolding error_path_message
full_message e = e.message <> error_path_message e

-- `if decoded_body and not (self.nullable and is_null(decoded_body))`
unfoldable pub must_validate : Bool → String → Bool
unfolding is_null
must_validate nullable decoded = not (decoded == "") && not (nullable && is_null (str decoded))

-- What the classes differ in: what is raised for an invalid body, and what a body that is not JSON is.
abbrev pub valid_or : (ValidationError → Exc) → Option ValidationError → Result Done
valid_or raise none = ok done
valid_or raise (some e) = err (raise e)

module _ (tools : Tools) where
  -- `JSONRequestBodyValidator.validate`
  unfoldable pub validate : Value → Result Done
  unfolding bad_request_problem full_message
  validate body =
      valid_or (λ e. bad_request_problem (str (full_message e))) (tools.schema_error body)

  -- `JSONResponseBodyValidator.validate`
  unfoldable pub validate_response : Value → Result Done
  unfolding non_conforming_response_body full_message
  validate_response body =
      valid_or (λ e. non_conforming_response_body (full_message e)) (tools.schema_error body)

  -- `parse` of the JSON validators: the message is the first argument, which is the title
  unfoldable pub parse : String → Result Value
  unfolding bad_request
  parse body = elim (tools.loads body) [
    | loaded v ↦ ok v
    | json_decode_error m ↦ err (bad_request m null)
  ]

  -- `TextResponseBodyValidator.parse`
  unfoldable pub parse_text : String → Result Value
  parse_text body = elim (tools.loads body) [
    | loaded v ↦ ok v
    | json_decode_error m ↦ ok (str body)
  ]

  -- The check of a decoded body, which both classes do alike.
  unfoldable pub check_decoded :
      (String → Result Value) → (Value → Result Done) → String → Result Done
  unfolding must_validate
  check_decoded parse validate decoded =
      if must_validate tools.nullable decoded then (parse decoded >>= validate) else ok done

  unfoldable pub check_messages :
      (String → Result Value) → (Value → Result Done) → List Message → Result Done
  unfolding join_bodies check_decoded
  check_messages parse validate messages =
      tools.decode (join_bodies messages) >>= check_decoded parse validate

-- ===== src/Middleware/ResponseValidation.antt =====
-- connexion/middleware/response_validation.py: the `ResponseValidationOperation`. The state of
-- `wrapped_send` is the function that it sends by, with what that function keeps and what the
-- server has been sent.
pub mod Required
pub mod Whole
mod Tests
use connexion.Prelude.{
  String, Bool, false, true, not, ◌&&◌, Option, none, some, List, [], ◌∷◌, ◌++◌, map, mem, ◌==◌,
  if◌then◌else◌,
}
use connexion.Prelude.Text.{◌<>◌, join, lower}
use connexion.Prelude.Decimal.{decimal}
use connexion.Prelude.Dict.{Dict}
use connexion.Value.{Value, bool, truthy}
use connexion.Value.Access.{lookup}
use connexion.Errors.{Exc, Done, done, non_conforming_response_headers, Result, ok, err, ◌>>=◌}
use connexion.Utils.Media.{extract_content_type, is_nullable}
use connexion.Asgi.{Message}
use connexion.Datastructures
use connexion.Operations.{AbstractOperation}
use connexion.Operations.OpenApi.{entries, empty_dict, get_or}
use connexion.Validators.Json.Response.{Sender}
use connexion.Middleware.RequestValidation.{or_text, first_or_octets, shown}

-- What a registered validator of responses is made of.
pub record ResponseArguments : Type 0 where
  pub schema : Value
  pub nullable : Bool
  pub encoding : String

abbrev pub Send : Type 0
Send = Message → Sender → Result Done × Sender

-- its `send`
abbrev pub ResponseValidator : Type 0
ResponseValidator = ResponseArguments → Send

-- `send_fn`: the `send` of the server, or of a validator
pub data SendFn : Type 0 where
  server_send : SendFn
  validator_send : Send → SendFn

pub record State : Type 0 where
  pub send_fn : SendFn
  pub sender : Sender

unfoldable pub header_keys : List (String × String) → List String
unfolding lower
header_keys [] = []
header_keys ((name, content) ∷ headers) = lower name ∷ header_keys headers

-- The set of the keys that are required and not among those of the headers, in some order.
unfoldable pub missing_keys : List String → Dict Value → List String
unfolding lower lookup truthy
missing_keys keys [] = []
missing_keys keys ((k, v) ∷ headers) =
    let rest = missing_keys keys headers in
    if truthy (get_or "required" v (bool false))
      && not (mem (lower k) keys)
      && not (mem (lower k) rest)
    then lower k ∷ rest
    else rest

unfoldable pub none_missing : List String → Result Done
unfolding non_conforming_response_headers join
none_missing [] = ok done
none_missing (k ∷ ks) = err (
    non_conforming_response_headers "Response headers do not conform to specification"
      ("Keys in header don't match response specification. Difference: " <> join ", " (k ∷ ks)))

unfoldable pub validate_required_headers :
    List (String × String) → (response_definition : Value) → Result Done
unfolding missing_keys header_keys lookup none_missing
validate_required_headers headers response_definition =
    none_missing (
      missing_keys (header_keys headers)
        (entries (get_or "headers" response_definition empty_dict)))

module _ (op : AbstractOperation) where
  -- `ResponseValidationOperation.extract_content_type`
  unfoldable pub response_content_type : List (String × String) → String × String
  unfolding extract_content_type
  response_content_type headers =
      let (mime_type, encoding) = extract_content_type headers in
      (or_text mime_type (first_or_octets op.produces), or_text encoding "utf-8")

  -- `ResponseValidationOperation.validate_mime_type`, which nothing calls
  unfoldable pub validate_response_mime_type : String → Result Done
  unfolding lower non_conforming_response_headers shown
  validate_response_mime_type mime_type =
      if mem (lower mime_type) (map lower op.produces)
      then ok done
      else err (
          non_conforming_response_headers "Invalid Response Content-type" (
            "Invalid Response Content-type ("
            <> (mime_type <> ("), expected " <> shown op.produces))))

  module _ (validators : Dict ResponseValidator) where
    abbrev pub arguments : (status mime_type encoding : String) → ResponseArguments
    unfolding is_nullable
    arguments status mime_type encoding = record {
      schema = op.response_schema status mime_type;
      nullable = is_nullable (op.response_definition status mime_type);
      encoding = encoding;
    }

    -- `except KeyError`: the send function stays
    abbrev pub registered : Result ResponseValidator → ResponseArguments → State → Result State
    registered (ok validator) args s = ok (record {
      send_fn = validator_send (validator args);
      sender = record { messages = []; sent = s.sender.sent };
    })
    registered (err (Exc.key_error k)) args s = ok s
    registered (err e) args s = err e

    -- what is done at the start of a response, before it is sent
    unfoldable pub start : Message → State → Result State
    unfolding decimal response_content_type validate_required_headers Datastructures.get_item
        is_nullable
    start message s =
        let status = decimal message.status in
        let (mime_type, encoding) = response_content_type message.headers in
        validate_required_headers message.headers (op.response_definition status mime_type) >>= λ _.
        registered (Datastructures.get_item validators mime_type)
          (arguments status mime_type encoding) s

    abbrev pub kept : SendFn → Result Done × Sender → Result Done × State
    kept send_fn (r, sender) = (r, record { send_fn = send_fn; sender = sender })

    -- `await send_fn(message)`
    abbrev pub deliver : SendFn → Message → Sender → Result Done × State
    deliver server_send message sender = (
      ok done,
      record {
        send_fn = server_send;
        sender = record { messages = sender.messages; sent = sender.sent ++ message ∷ [] };
      },
    )
    deliver (validator_send send) message sender = kept (validator_send send) (send message sender)

    abbrev pub and_deliver : Message → State → Result State → Result Done × State
    and_deliver message s (err e) = (err e, s)
    and_deliver message s (ok s') = deliver s'.send_fn message s'.sender

    unfoldable pub wrapped_send : Message → State → Result Done × State
    unfolding start
    wrapped_send message s =
        if message.kind == "http.response.start"
        then and_deliver message s (start message s)
        else deliver s.send_fn message s.sender

    abbrev pub and_respond :
        Result Done × State → (State → Result Done × State) → Result Done × State
    and_respond (ok u, s) next = next s
    and_respond (err e, s) next = (err e, s)

    -- The messages of the app one by one, up to the first that raises.
    unfoldable pub respond : List Message → State → Result Done × State
    unfolding wrapped_send
    respond [] s = (ok done, s)
    respond (m ∷ ms) s = and_respond (wrapped_send m s) (respond ms)

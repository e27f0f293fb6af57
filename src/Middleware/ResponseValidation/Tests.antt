-- ===== src/Middleware/ResponseValidation/Tests.antt =====
-- The response validation on concrete responses.
use connexion.Prelude.{
  String, ◌≡◌, refl, true, false, none, some, List, [], ◌∷◌, ◌==◌, if◌then◌else◌,
}
use connexion.Prelude.Dict.{Dict}
use connexion.Value.{Value, int, bool, obj, field, end}
use connexion.Errors.{non_conforming_response_headers, Result, ok, err}
use connexion.Asgi.{Message}
use connexion.Datastructures
use connexion.Operations.{AbstractOperation}
use connexion.Operations.OpenApi.{empty_dict}
use connexion.Validators.Json.{Tools, loaded, json_decode_error, parse}
use connexion.Middleware.ResponseValidation.{ResponseArguments, ResponseValidator, respond}
use connexion.Middleware.ResponseValidation.Whole.{
  initial, json_validator, media_type_of, AllOrNothing, respond-AllOrNothing,
}

abbrev definition : Value
definition = obj (
    field "headers"
      (obj (
        field "X-Rate-Limit" (obj (field "required" (bool true) end))
          (field "X-Next" (obj end) end)))
      end)

abbrev op : AbstractOperation
op = record {
  operation_id = some "list_pets";
  parameters = [];
  consumes = [];
  produces = "application/json" ∷ [];
  body_schema = λ t. ok empty_dict;
  body_definition = λ t. ok empty_dict;
  response_definition = λ status t. if status == "200" then definition else empty_dict;
  response_schema = λ status t. empty_dict;
}

abbrev start_message : List (String × String) → Message
start_message headers = record {
  kind = "http.response.start";
  status = 200;
  headers = headers;
  body = none;
  more_body = none;
}

abbrev body_message : Message
body_message = record {
  kind = "http.response.body";
  status = 200;
  headers = [];
  body = some (49 ∷ []);
  more_body = none;
}

-- A body is the text 1, of any bytes.
abbrev tools_of : ResponseArguments → Tools
tools_of args = record {
  loads = λ s. if s == "1" then loaded (int false 1) else json_decode_error "Expecting value";
  schema_error = λ v. none;
  decode = λ bytes. ok "1";
  nullable = args.nullable;
}

abbrev parse_of : ResponseArguments → String → Result Value
parse_of args = parse (tools_of args)

abbrev validators : Dict ResponseValidator
validators = ("*/*json", json_validator tools_of parse_of) ∷ []

abbrev good : Message
good = start_message (("content-type", "application/json") ∷ ("x-rate-limit", "9") ∷ [])

good-sent :
    (respond op validators (good ∷ body_message ∷ []) initial).1.sender.sent
    ≡ good ∷ body_message ∷ []
unfolding respond parse connexion.Validators.Json.Response.send
good-sent = refl

-- without the header that is required
missing-raises :
    (respond op validators
      (start_message (("content-type", "application/json") ∷ []) ∷ body_message ∷ [])
      initial).0
    ≡ err (
        non_conforming_response_headers "Response headers do not conform to specification"
          "Keys in header don't match response specification. Difference: x-rate-limit")
unfolding respond
missing-raises = refl

respond-AllOrNothing_example :
    AllOrNothing tools_of parse_of op validators good
      (body_message ∷ [])
      (respond op validators (good ∷ body_message ∷ []) initial)
unfolding media_type_of Datastructures.get_item
respond-AllOrNothing_example =
    respond-AllOrNothing tools_of parse_of op validators good (body_message ∷ []) refl (refl, tt)
      (refl, refl) refl

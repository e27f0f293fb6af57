-- ===== src/Middleware/RequestValidation/Tests.antt =====
-- The validation of requests to one operation that takes JSON.
use connexion.Prelude.{String, ◌≡◌, refl, false, none, some, List, [], ◌∷◌, if◌then◌else◌}
use connexion.Prelude.Dict
use connexion.Prelude.Dict.{Dict}
use connexion.Prelude.Text.{has_char}
use connexion.Value.{Value, str, obj, end, field}
use connexion.Errors.{ok, done}
use connexion.Asgi.{Message, queue}
use connexion.Datastructures
use connexion.Datastructures.Laws.{get_item-exact}
use connexion.Operations.OpenApi.{OpenApiOperation, make, as_operation, empty_dict}
use connexion.Middleware.RequestValidation.{BodyValidator, ValidatorMap, call}
use connexion.Middleware.RequestValidation.Validated.{Validated, handed, call-Validated_iff}

-- A key that is a media type itself goes before the ranges that match it too.
abbrev ranges : Dict String
ranges = ("*/*", "any") ∷ ("application/*", "application") ∷ ("application/json", "json") ∷ []

get_item-exact_example : Datastructures.get_item ranges "application/json" ≡ ok "json"
unfolding Dict.get Dict.keys has_char
get_item-exact_example =
    get_item-exact ranges "application/json" "json" (refl, refl) (refl, (refl, (refl, tt))) refl

-- `type/*` goes before `*/subtype`.
get_item-range :
    Datastructures.get_item {V = String}
      (("*/json", "subtype") ∷ ("application/*", "type") ∷ [])
      "application/json"
    ≡ ok "type"
unfolding Datastructures.get_item
get_item-range = refl

abbrev json_body : Value
json_body = obj (field "schema" (obj (field "type" (str "integer") end)) end)

abbrev operation : OpenApiOperation
operation =
    make
      (obj (
        field "requestBody"
          (obj (field "content" (obj (field "application/json" json_body end)) end)) end))
      [] empty_dict

-- A validator that refuses every body: the messages never pass.
abbrev refuse : BodyValidator
refuse arguments coming = none

abbrev validators : ValidatorMap
validators = record { parameter = ok done; body = ("*/*json", refuse) ∷ [] }

abbrev sent_as : String → List (String × String)
sent_as media_type = ("content-type", media_type) ∷ []

-- In the spelling of the validators' range the body is validated.
call-json :
    call (as_operation operation none) validators false handed (sent_as "application/json") []
    ≡ none
unfolding call make as_operation
call-json = refl

-- In another case the media type is accepted too, but no validator and no schema is found for it: the
-- body is not validated.
call-other_case :
    call (as_operation operation none) validators false handed (sent_as "Application/JSON") []
    ≡ some (ok (queue [] []))
unfolding call make as_operation
call-other_case = refl

-- A validator that takes a body that may not be null, and keeps what it has read.
abbrev take : BodyValidator
take arguments coming = if arguments.nullable then none else some (ok (queue coming []))

abbrev taking : ValidatorMap
taking = record { parameter = ok done; body = ("*/*json", take) ∷ [] }

abbrev message : Message
message = record {
  kind = "http.request";
  status = 0;
  headers = [];
  body = some (55 ∷ []);
  more_body = none;
}

call-Validated_iff_example :
    Validated
      (as_operation operation none)
      taking
      false
      (sent_as "application/json")
      (message ∷ [])
      (queue (message ∷ []) [])
unfolding call make as_operation
call-Validated_iff_example =
    (call-Validated_iff (as_operation operation none) taking false (sent_as "application/json")
        (message ∷ []) (queue (message ∷ []) [])).0
      refl

-- ===== src/Apis/Tests.antt =====
-- The building of an API, and its responses, on concrete inputs.
use connexion.Prelude.{
  String, ◌≡◌, refl, false, Option, none, some, List, [], ◌∷◌, ◌++◌, ◌==◌, if◌then◌else◌,
}
use connexion.Prelude.Dict.{Dict}
use connexion.Value.{null, int, str}
use connexion.Errors.{import_error, type_error, Result, ok, err}
use connexion.Apis.Routing.{Attempt, made, unresolved, Route, add_routes}
use connexion.Apis.Routing.Built.{planned, add_routes-planned}
use connexion.Apis.Responses.{
  Part, value, no_content, enum, tuple, response_from_handler, prepare_body_and_status_code,
}

-- Only GET has a function.
abbrev attempt : (path method : String) → Attempt String
attempt path method =
    if method == "get"
    then made "list_pets"
    else unresolved "no function" (import_error "no module")

abbrev handler : String → String
handler reason = "handler"

abbrev paths : Dict (List String)
paths = ("/pets", "parameters" ∷ "get" ∷ "post" ∷ []) ∷ []

abbrev routes : List (Route String)
routes =
    record { method = "get"; path = "/pets"; operation = "list_pets" }
    ∷ record { method = "post"; path = "/pets"; operation = "handler" }
    ∷ []

planned-routes : planned attempt handler paths ≡ routes
unfolding planned
planned-routes = refl

add_routes-planned_example :
    add_routes attempt (some handler) none paths [] ≡ ok ([] ++ planned attempt handler paths)
add_routes-planned_example =
    add_routes-planned attempt handler paths [] (((λ e. tt), ((λ e. tt), ((λ e. tt), tt))), tt)

-- Without a handler the exception that the error holds is raised.
add_routes-unresolved : add_routes attempt none none paths [] ≡ err (import_error "no module")
unfolding add_routes
add_routes-unresolved = refl

-- A framework response is the media type and the status code that it is built with.
abbrev build : Part → Option String → Option Part → Option Part → Result (Option Part × Option Part)
build d mimetype status_code headers = ok (status_code, headers)

-- The second of two parts is the status code if it is an int, else the headers.
response_from_tuple-status :
    response_from_handler build
      (λ r m. err (type_error ""))
      (λ r m. err (type_error ""))
      (λ r m. err (type_error ""))
      (tuple (value (str "x") ∷ value (int false 201) ∷ []))
      none
    ≡ ok (some (value (int false 201)), none)
unfolding response_from_handler
response_from_tuple-status = refl

response_from_tuple-headers :
    response_from_handler build
      (λ r m. err (type_error ""))
      (λ r m. err (type_error ""))
      (λ r m. err (type_error ""))
      (tuple (value (str "x") ∷ value (str "headers") ∷ []))
      none
    ≡ ok (none, some (value (str "headers")))
unfolding response_from_handler
response_from_tuple-headers = refl

prepare-no_content :
    prepare_body_and_status_code ok no_content (some "application/json") none
    ≡ ok (value null, value (int false 204), none)
unfolding prepare_body_and_status_code
prepare-no_content = refl

prepare-enum :
    prepare_body_and_status_code ok
      (value (str "x"))
      (some "text/plain")
      (some (enum (int false 201)))
    ≡ ok (value (str "x"), value (int false 201), some "text/plain")
unfolding prepare_body_and_status_code
prepare-enum = refl

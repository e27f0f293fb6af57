-- ===== src/Apis/Responses.antt =====
-- connexion/apis/abstract.py: the response that is made of what a handler returns. The framework, its
-- responses and the JSON encoder are parameters.
use connexion.Prelude.{String, Bool, true, false, Option, none, some, List, [], ◌∷◌, if◌then◌else◌}
use connexion.Value.{Value, null, bool, int}
use connexion.Errors.{type_error, ConnexionResponse, Result, ok, err, ◌>>=◌}
use connexion.Utils.Media.{is_json_mimetype}

-- A part of what a handler returns: a value, the marker `NoContent`, or the member of an enumeration with
-- the value that it has.
pub data Part : Type 0 where
  value : Value → Part
  no_content : Part
  enum : Value → Part

pub data Returned (Framework : Type 0) : Type 0 where
  framework_response : Framework → Returned Framework
  connexion_response : ConnexionResponse → Returned Framework
  tuple : List Part → Returned Framework
  body : Part → Returned Framework

-- `isinstance(part, (int, Enum))`
unfoldable pub is_status : Part → Bool
is_status (value (int negative n)) = true
is_status (value (bool b)) = true
is_status (value v) = false
is_status no_content = false
is_status (enum v) = true

abbrev invalid_tuple : String
invalid_tuple =
    "The view function did not return a valid response tuple. The tuple must have the form (body), (body, status, headers), (body, status), or (body, headers)."

module _ {Framework : Type 0}
    (build_response : (data_ : Part) (mimetype : Option String) (status_code headers : Option Part)
      → Result Framework)
    (framework_to_connexion : Framework → Option String → Result ConnexionResponse)
    (connexion_to_framework : ConnexionResponse → Option String → Result Framework)
    (build_of_connexion : ConnexionResponse → Option String → Result Framework) where
  unfoldable pub response_from_tuple : List Part → Option String → Result Framework
  unfolding is_status
  response_from_tuple (d ∷ []) mimetype = build_response d mimetype none none
  response_from_tuple (d ∷ p ∷ []) mimetype =
      if is_status p
      then build_response d mimetype (some p) none
      else build_response d mimetype none (some p)
  response_from_tuple (d ∷ status_code ∷ headers ∷ []) mimetype =
      build_response d mimetype (some status_code) (some headers)
  response_from_tuple parts mimetype = err (type_error invalid_tuple)

  -- `_response_from_handler`. Its callers keep a `ConnexionResponse` from it, which it would build like a
  -- body.
  unfoldable pub response_from_handler : Returned Framework → Option String → Result Framework
  unfolding response_from_tuple
  response_from_handler (framework_response r) mimetype = ok r
  response_from_handler (connexion_response r) mimetype = build_of_connexion r mimetype
  response_from_handler (tuple parts) mimetype = response_from_tuple parts mimetype
  response_from_handler (body d) mimetype = build_response d mimetype none none

  -- `_get_response`
  unfoldable pub get_response : Returned Framework → Option String → Result Framework
  unfolding response_from_handler
  get_response (connexion_response r) mimetype = connexion_to_framework r mimetype
  get_response response mimetype = response_from_handler response mimetype

  -- `get_connexion_response`
  unfoldable pub get_connexion_response :
      Returned Framework → Option String → Result ConnexionResponse
  unfolding response_from_handler
  get_connexion_response (connexion_response r) mimetype = ok r
  get_connexion_response response mimetype =
      response_from_handler response mimetype >>= λ r. framework_to_connexion r mimetype

-- `if data is NoContent: data = None`
abbrev pub content : Part → Part
content no_content = value null
content p = p

abbrev is_none : Part → Bool
is_none (value null) = true
is_none p = false

-- the status code of a response, and its media type where that is decided with it
unfoldable pub status_and_mimetype : Option Part → Part → Option String → Part × Option String
status_and_mimetype none (value null) mimetype = (value (int false 204), none)
status_and_mimetype none d mimetype = (value (int false 200), mimetype)
status_and_mimetype (some (enum v)) d mimetype = (value v, mimetype)
status_and_mimetype (some p) d mimetype = (p, mimetype)

module _ (dumps : Part → Result Part) where
  -- `_serialize_data`
  unfoldable pub serialize_data : Part → Option String → Result (Part × Option String)
  unfolding is_json_mimetype
  serialize_data d mimetype = is_json_mimetype mimetype >>= λ is_json.
      (if is_json then dumps d else ok d) >>= λ b. ok (b, mimetype)

  -- `_prepare_body_and_status_code`: the body, the status code and the media type
  unfoldable pub prepare_body_and_status_code :
      Part → Option String → Option Part → Result (Part × Part × Option String)
  unfolding status_and_mimetype serialize_data
  prepare_body_and_status_code d mimetype status_code =
      let (status, mimetype') = status_and_mimetype status_code (content d) mimetype in
      if is_none (content d)
      then ok (content d, status, mimetype')
      else (serialize_data (content d) mimetype' >>= λ (b, m). ok (b, status, m))

-- ===== src/Operations/PathTypes.antt =====
-- `get_path_parameter_types` of connexion/operations/openapi.py and of connexion/operations/swagger2.py.
use connexion.Prelude.{
  String, Bool, false, ◌&&◌, Option, none, some, List, [], ◌∷◌, ◌==◌, if◌then◌else◌,
}
use connexion.Prelude.Dict
use connexion.Prelude.Dict.{Dict}
use connexion.Value.{Value}
use connexion.Value.Access.{lookup}
use connexion.Errors.{Result, ok, ◌>>=◌, or_key_error}
use connexion.Utils.Coerce.{text_of}
use connexion.UriParsing.Swagger2.{text_at}

abbrev is_text : String → Option String → Bool
is_text t none = false
is_text t (some s) = s == t

-- the type of a parameter, or path for the format path of a text; none is None
unfoldable pub path_type : Value → Option String
unfolding lookup
path_type schema =
    if is_text "string" (text_of (lookup "type" schema))
      && is_text "path" (text_of (lookup "format" schema))
    then some "path"
    else text_of (lookup "type" schema)

module _ (schema_of : Value → Result Value) where
  unfoldable pub path_types : Dict (Option String) → List Value → Result (Dict (Option String))
  unfolding path_type Dict.set
  path_types types [] = ok types
  path_types types (p ∷ parameters) = text_at "in" p >>= λ location.
      (if location == "path"
        then (schema_of p >>= λ schema.
            text_at "name" p >>= λ name. ok (Dict.set name (path_type schema) types))
        else ok types)
      >>= λ types'. path_types types' parameters

-- of the schema of a parameter
unfoldable pub get_path_parameter_types : (parameters : List Value) → Result (Dict (Option String))
unfolding path_types lookup
get_path_parameter_types parameters =
    path_types (λ p. or_key_error "schema" (lookup "schema" p)) [] parameters

-- of the parameter itself
unfoldable pub get_path_parameter_types_swagger2 :
    (parameters : List Value) → Result (Dict (Option String))
unfolding path_types
get_path_parameter_types_swagger2 parameters = path_types ok [] parameters

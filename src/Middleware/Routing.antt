-- ===== src/Middleware/Routing.antt =====
-- connexion/middleware/routing.py: the paths of a specification as those of starlette's router, which is
-- a parameter, and the `RoutingOperation` that it calls.
mod Tests
use Prim.Native.Char.{Char, char}
use Prim.Native.String
use connexion.Prelude.{
  ℕ, suc, String, Bool, true, false, not, ◌&&◌, Option, none, some, List, [], ◌∷◌, ◌==◌,
  if◌then◌else◌,
}
use connexion.Prelude.Text.{◌<>◌, push, is_char, replace}
use connexion.Prelude.Dict
use connexion.Prelude.Dict.{Dict, or_else}
use connexion.Value.{Value}
use connexion.Errors.{Result}
use connexion.Middleware.Routed.{RoutingContext}

-- `PATH_PARAMETER_CONVERTERS.get(swagger_type)`
unfoldable pub path_parameter_converter : Option String → Option String
path_parameter_converter none = none
path_parameter_converter (some swagger_type) =
    if swagger_type == "integer"
    then some "int"
    else if swagger_type == "number"
    then some "float"
    else if swagger_type == "path"
    then some "path"
    else none

abbrev type_of : Option (Option String) → Option String
type_of none = none
type_of (some t) = t

abbrev colon : Option String → String
colon none = ""
colon (some converter) = ":" <> converter

-- `convert_path_parameter`, of the name in the braces
unfoldable pub convert_path_parameter : Dict (Option String) → String → String
unfolding Dict.get replace path_parameter_converter
convert_path_parameter types name =
    let converter = path_parameter_converter (type_of (Dict.get name types)) in
    "{" <> (replace b'-' (char b'_' tt) name <> (colon converter <> "}"))

-- `PATH_PARAMETER.sub`: outside of braces, or behind an opening one with the name so far
unfoldable pub sub_parameters : (String → String) → Option String → String → String
sub_parameters convert none String.[] = String.[]
sub_parameters convert (some name) String.[] = "{" <> name
sub_parameters convert none (String.◌∷◌ c s) =
    let opened = sub_parameters convert (some "") s in
    let outside = sub_parameters convert none s in
    if is_char b'{' c then opened else String.◌∷◌ c outside
sub_parameters convert (some name) (String.◌∷◌ c s) =
    let closed = sub_parameters convert none s in
    let inside = sub_parameters convert (some (push name c)) s in
    if is_char b'}' c then convert name <> closed else inside

unfoldable pub starlettify_path : String → Dict (Option String) → String
unfolding sub_parameters convert_path_parameter
starlettify_path swagger_path types =
    sub_parameters (convert_path_parameter types) none swagger_path

-- What the operation reads and writes of the scope that came into the middleware.
pub record OriginalScope : Type 0 where
  pub root_path : String
  pub path_params : Option (Dict Value)
  pub routing : Option RoutingContext

-- What it reads of the scope that the router hands on.
pub record RoutedScope : Type 0 where
  pub root_path : String
  pub path_params : Dict Value

-- `text[n:]`
unfoldable pub behind : (prefix text : String) → String
behind String.[] s = s
behind (String.◌∷◌ p t) String.[] = ""
behind (String.◌∷◌ p t) (String.◌∷◌ c s) = behind t s

module _ {A : Type 0} (next_app : OriginalScope → Result A) where
  -- `RoutingOperation.__call__`
  unfoldable pub call_next : Option String → OriginalScope → RoutedScope → Result A
  unfolding behind Dict.update
  call_next operation_id original_scope scope = next_app (record {
    root_path = original_scope.root_path;
    path_params = some (Dict.update (or_else original_scope.path_params []) scope.path_params);
    routing = some (record {
      api_base_path = some (behind original_scope.root_path scope.root_path);
      operation_id = operation_id;
    });
  })

  -- `RoutingMiddleware.__call__`: a copy of the scope is kept as the original one
  unfoldable pub route_request :
      (router : OriginalScope → Result A) → (kind : String) → OriginalScope → Result A
  route_request router kind scope = if kind == "http" then router scope else next_app scope

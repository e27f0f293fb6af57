-- ===== src/Resolvers/Rest.antt =====
-- connexion/resolver.py: the `RestyResolver`, which names the function of an operation by the path
-- and the method.
use Prim.Native.Char.{char}
use connexion.Prelude.{
  String, Bool, false, not, ◌&&◌, Option, none, some, List, [], ◌∷◌, ◌==◌, last, if◌then◌else◌,
}
use connexion.Prelude.Dict.{is_some, or_else}
use connexion.Prelude.Text.{split, join, lower, replace, strip_prefix, ends_with}
use connexion.Utils.Import.{dotted}
use connexion.Resolvers.{Operation, resolve_operation_id}

abbrev pub filter {ℓ} : {A : Type ℓ} → (A → Bool) → List A → List A
filter p [] = []
filter p (x ∷ xs) = if p x then x ∷ filter p xs else filter p xs

abbrev pub given : Option String → Bool
given none = false
given (some s) = not (s == "")

-- Is the component a variable, such as `{id}`? A component is not empty.
unfoldable pub is_var : String → Bool
unfolding strip_prefix ends_with
is_var component = is_some (strip_prefix "{" component) && ends_with component "}"

unfoldable pub path_components : String → List String
unfolding split
path_components path = filter (λ c. not (c == "")) (split b'/' path)

unfoldable pub resource_name_of : String → String
unfolding path_components is_var join replace
resource_name_of path =
    replace b'-' (char b'_' tt) (join "." (filter (λ c. not (is_var c)) (path_components path)))

-- `operation_id` where it is given
abbrev pub id_or : Option String → Option String → String → Option String
id_or operation_id resolved rest = if given operation_id then resolved else some rest

module _ (default_module_name collection_endpoint_name : String) where
  unfoldable pub get_controller_name : Operation → String
  unfolding resource_name_of
  get_controller_name operation =
      if given operation.router_controller
      then or_else operation.router_controller ""
      else if resource_name_of operation.path == ""
      then default_module_name
      else dotted default_module_name (resource_name_of operation.path)

  -- A path with a resource name has a last component.
  unfoldable pub get_function_name : Operation → String
  unfolding resource_name_of path_components is_var lower
  get_function_name operation =
      if lower operation.method == "get"
        && not (resource_name_of operation.path == "")
        && not (is_var (or_else (last (path_components operation.path)) ""))
      then collection_endpoint_name
      else lower operation.method

  unfoldable pub resolve_operation_id_using_rest_semantics : Operation → String
  unfolding get_controller_name get_function_name
  resolve_operation_id_using_rest_semantics operation =
      dotted (get_controller_name operation) (get_function_name operation)

  -- `RestyResolver.resolve_operation_id`
  unfoldable pub resolve_operation_id_resty : Operation → Option String
  unfolding resolve_operation_id resolve_operation_id_using_rest_semantics
  resolve_operation_id_resty operation =
      id_or operation.operation_id (resolve_operation_id operation)
        (resolve_operation_id_using_rest_semantics operation)

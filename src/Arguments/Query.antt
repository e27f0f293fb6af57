-- ===== src/Arguments/Query.antt =====
-- connexion/decorators/parameter.py: the arguments from the path and from the query.
use connexion.Prelude.{
  String, Bool, not, ◌&&◌, Option, none, some, List, [], ◌∷◌, if◌then◌else◌, mem,
}
use connexion.Prelude.Dict
use connexion.Prelude.Dict.{Dict}
use connexion.Value.{Value, fields, of_fields}
use connexion.Errors.{Result, ok, ◌>>=◌}
use connexion.Utils.Merge.{deep_merge}
use connexion.Utils.Coerce.{Builtins}
use connexion.UriParsing.Swagger2.{defns_by_name}
use connexion.Arguments.Values.{get_val_from_param, get_query_defaults}

-- `{parameter["name"]: parameter for parameter in operation.parameters if parameter["in"] == ...}`
unfoldable pub definitions_in : (location : String) → List Value → Result (Dict Value)
unfolding defns_by_name
definitions_in location parameters = defns_by_name (location ∷ []) [] parameters

module _ (py : Builtins) (sanitize : String → String) where
  -- a path parameter that is not defined is injected as it is
  unfoldable pub path_value : Option Value → Value → Result Value
  unfolding get_val_from_param
  path_value none value = ok value
  path_value (some definition) value = get_val_from_param py value definition

  -- the loop over the path parameters, onto the arguments so far
  unfoldable pub path_arguments :
      (path_definitions kwargs : Dict Value) → Dict Value → Result (Dict Value)
  unfolding path_value Dict.get Dict.set
  path_arguments path_definitions kwargs [] = ok kwargs
  path_arguments path_definitions kwargs ((name, value) ∷ path_params) =
      path_value (Dict.get name path_definitions) value >>= λ v.
      path_arguments path_definitions (Dict.set (sanitize name) v kwargs) path_params

  -- `_get_path_arguments`
  unfoldable pub get_path_arguments :
      (parameters : List Value) → (path_params : Dict Value) → Result (Dict Value)
  unfolding definitions_in path_arguments
  get_path_arguments parameters path_params =
      definitions_in "path" parameters >>= λ path_definitions.
      path_arguments path_definitions [] path_params

  module _ (arguments : List String) (has_kwargs : Bool) where
    -- `not (not has_kwargs and name not in arguments)`
    abbrev pub takes : String → Bool
    takes name = not (not has_kwargs && not (mem name arguments))

    unfoldable pub with_defined : String → Value → Option Value → Dict Value → Result (Dict Value)
    unfolding get_val_from_param Dict.set
    with_defined sanitized_key value none result = ok result
    with_defined sanitized_key value (some definition) result =
        get_val_from_param py value definition >>= λ v. ok (Dict.set sanitized_key v result)

    -- `_query_args_helper`, onto the result so far
    unfoldable pub query_args_helper :
        (query_definitions result : Dict Value)
        → (query_arguments : Dict Value) → Result (Dict Value)
    unfolding Dict.get with_defined
    query_args_helper query_definitions result [] = ok result
    query_args_helper query_definitions result ((key, value) ∷ query_arguments) =
        (if takes (sanitize key)
          then with_defined (sanitize key) value (Dict.get key query_definitions) result
          else ok result)
        >>= λ result'. query_args_helper query_definitions result' query_arguments

    -- `_get_query_arguments`
    unfoldable pub get_query_arguments :
        (parameters : List Value) → (query_params : Dict Value) → Result (Dict Value)
    unfolding definitions_in get_query_defaults deep_merge query_args_helper fields of_fields
    get_query_arguments parameters query_params =
        definitions_in "query" parameters >>= λ query_definitions.
        query_args_helper query_definitions []
          (fields (deep_merge (get_query_defaults query_definitions) (of_fields query_params)))

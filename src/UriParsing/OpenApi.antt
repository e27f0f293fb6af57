-- ===== src/UriParsing/OpenApi.antt =====
-- The `OpenAPIURIParser`. `json.loads` of a form part is a parameter.
pub mod Arrays
use connexion.Prelude.{
  String, Bool, true, false, Option, none, some, List, [], ◌∷◌, ◌==◌, if◌then◌else◌,
}
use connexion.Prelude.Dict
use connexion.Prelude.Dict.{Dict}
use connexion.Value.{Value, null, bool, str, obj, end, field, fields, truthy}
use connexion.Value.Access.{lookup}
use connexion.Errors.{Result, ok, err, ◌>>=◌, or_key_error, attribute_error}
use connexion.Utils.Coerce.{Builtins}
use connexion.Utils.Media.{all_json}
use connexion.Operations.OpenApi.{entries, get_or, empty_dict}
use connexion.UriParsing.{UriParser, last_value, resolve_params}
use connexion.UriParsing.Styles.{delimiter_of, join_values, split_value, style_of}
use connexion.UriParsing.Swagger2.{defns_by_name}
use connexion.UriParsing.DeepObjects.{preprocess_deep_objects}

-- `param_defn.get("explode", is_form)` as a condition
abbrev pub explode_or : Bool → Option Value → Bool
explode_or is_form none = is_form
explode_or is_form (some v) = truthy v

unfoldable pub join_or_last : Bool → String → Value → Result Value
unfolding join_values delimiter_of last_value
join_or_last true style values = join_values (delimiter_of style) values
join_or_last false style values = last_value values

unfoldable pub resolve_param_duplicates : Value → Value → String → Result Value
unfolding lookup truthy style_of join_or_last
resolve_param_duplicates values param_defn location = style_of param_defn location >>= λ style.
    join_or_last (explode_or (style == "form") (lookup "explode" param_defn)) style values

unfoldable pub split_style : Value → Value → String → Result Value
unfolding style_of split_value delimiter_of
split_style value param_defn location =
    style_of param_defn location >>= λ style. split_value (delimiter_of style) value

abbrev pub open_api_parsable : List String
open_api_parsable = "query" ∷ "path" ∷ []

-- `{k: v.get("schema", {}) for k, v in self.param_defns.items()}`
unfoldable pub schemas_of : Dict Value → Dict Value
unfolding lookup
schemas_of [] = []
schemas_of ((k, v) ∷ defns) = (k, get_or "schema" v empty_dict) ∷ schemas_of defns

unfoldable pub open_api_parser : List Value → Result UriParser
unfolding defns_by_name schemas_of resolve_param_duplicates split_style
open_api_parser parameters = defns_by_name open_api_parsable [] parameters >>= λ defns. ok (record {
  param_defns = defns;
  param_schemas = schemas_of defns;
  resolve_param_duplicates = resolve_param_duplicates;
  split = split_style;
})

module _ (py : Builtins) (parser : UriParser) where
  unfoldable pub resolve_query : Dict Value → Result (Dict Value)
  unfolding preprocess_deep_objects resolve_params
  resolve_query query_data =
      preprocess_deep_objects parser.param_defns parser.param_schemas query_data >>= λ params.
      resolve_params py parser params "query"

  unfoldable pub resolve_path : Dict Value → Result (Dict Value)
  unfolding resolve_params
  resolve_path path_data = resolve_params py parser path_data "path"

module _ (loads : Value → Result Value) (body_schema body_encoding : Value) where
  abbrev default_encoding : Value
  default_encoding = obj (field "style" (str "form") end)

  abbrev content_type_text : Option Value → Option String
  content_type_text (some (str s)) = some s
  content_type_text v = none

  -- `"contentType" in encoding and all_json([...])`, and then `json.loads`
  abbrev loaded_if_json : Option String → Value → Result Value
  unfolding all_json
  loaded_if_json none value = ok value
  loaded_if_json (some content_type) value =
      all_json (content_type ∷ []) >>= λ json. if json then loads value else ok value

  abbrev split_or_load : Bool → Value → Value → Result Value
  unfolding split_style lookup loaded_if_json
  split_or_load true value encoding = split_style value encoding "form"
  split_or_load false value encoding =
      loaded_if_json (content_type_text (lookup "contentType" encoding)) value

  -- `defn and defn["type"] == "array"`
  unfoldable pub is_array_defn : Value → Result Bool
  unfolding lookup truthy
  is_array_defn defn =
      if truthy defn
      then (or_key_error "type" (lookup "type" defn)
          >>= elim [ str t ↦ ok (t == "array") | v ↦ ok false ])
      else ok false

  unfoldable pub resolve_form_value : String → Value → Result Value
  unfolding lookup resolve_param_duplicates is_array_defn split_or_load
  resolve_form_value k values =
      let encoding = get_or k body_encoding default_encoding in
      let defn = get_or k (get_or "properties" body_schema empty_dict) empty_dict in
      resolve_param_duplicates values encoding "form" >>= λ value.
      is_array_defn defn >>= λ array. split_or_load array value encoding

  unfoldable pub resolve_form_values : Dict Value → Result (Dict Value)
  unfolding resolve_form_value
  resolve_form_values [] = ok []
  resolve_form_values ((k, values) ∷ form_data) = do
    value ← resolve_form_value k values
    rest ← resolve_form_values form_data
    ok ((k, value) ∷ rest)

  abbrev is_object : Option Value → Bool
  is_object (some (str s)) = s == "object"
  is_object v = false

  unfoldable pub resolve_form : Dict Value → Result (Dict Value)
  unfolding lookup resolve_form_values
  resolve_form form_data =
      if is_object (lookup "type" body_schema) then resolve_form_values form_data else ok form_data

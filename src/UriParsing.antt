-- ===== src/UriParsing.antt =====
-- connexion/uri_parsing.py: the parsers of query, path and form parameters. The values of a parameter
-- are a list, as the request gives them.
pub mod Styles
mod Tests
pub mod Resolve
pub mod Becomes
pub mod DeepObjects
pub mod OpenApi
pub mod Swagger2
use connexion.Prelude.{
  String, Bool, true, false, ◌||◌, ◌&&◌, not, Option, none, some, List, [], ◌∷◌, ◌==◌,
  if◌then◌else◌, last,
}
use connexion.Prelude.Dict
use connexion.Prelude.Dict.{Dict}
use connexion.Value.{Value, null, str, arr, obj, nil, cons, items, truthy}
use connexion.Value.Access.{lookup}
use connexion.Errors.{
  Exc, key_error, type_error, index_error, type_validation_error, Result, ok, err, ◌>>=◌,
  or_key_error,
}
use connexion.Utils.Media.{is_nullable, is_null}
use connexion.Utils.Coerce.{Builtins, coerce_type}

-- `values[-1]` of a list
abbrev pub or_index_error : Option Value → Result Value
or_index_error none = err (index_error "list index out of range")
or_index_error (some v) = ok v

unfoldable pub last_value : Value → Result Value
unfolding items
last_value (arr xs) = or_index_error (last (items xs))
last_value v = err (type_error "object is not subscriptable")

-- What a parser class adds to `resolve_params`: the definitions and schemas by name, and its two
-- static methods, of the values, the definition and where the parameter stands.
pub record UriParser : Type 0 where
  pub param_defns : Dict Value
  pub param_schemas : Dict Value
  pub resolve_param_duplicates : Value → Value → String → Result Value
  pub split : Value → Value → String → Result Value

abbrev pub is_truthy : Option Value → Bool
is_truthy none = false
is_truthy (some v) = truthy v

-- `d[k]` for a definition that may be None
abbrev pub or_null : Option Value → Value
or_null none = null
or_null (some v) = v

-- `param_schema and param_schema["type"] == "array"`
unfoldable pub is_array : Option Value → Result Bool
unfolding lookup truthy
is_array none = ok false
is_array (some schema) =
    if truthy schema
    then (or_key_error "type" (lookup "type" schema)
        >>= elim [ str t ↦ ok (t == "array") | v ↦ ok false ])
    else ok false

-- `except TypeValidationError: pass`
abbrev pub or_unchanged : Value → Result Value → Result Value
or_unchanged value (err (Exc.type_validation_error t p n)) = ok value
or_unchanged value r = r

module _ (py : Builtins) (parser : UriParser) where
  -- the value that a defined parameter takes before its type is coerced
  unfoldable pub combine : Bool → Value → Value → String → Result Value
  unfolding last_value
  combine true values param_defn location =
      parser.resolve_param_duplicates values param_defn location >>= λ value.
      parser.split value param_defn location
  combine false values param_defn location = last_value values

  unfoldable pub coerced : Value → String → Value → Result Value
  unfolding is_nullable is_null coerce_type
  coerced param_defn k value =
      if is_nullable param_defn && is_null value
      then ok value
      else or_unchanged value (coerce_type py param_defn value "parameter" (some k))

  -- One round of the loop of `resolve_params`: what becomes of the values of a parameter.
  unfoldable pub resolve_param : String → Value → String → Result Value
  unfolding Dict.get truthy is_array combine coerced
  resolve_param k values location =
      let param_defn = Dict.get k parser.param_defns in
      let param_schema = Dict.get k parser.param_schemas in
      if is_truthy param_defn || is_truthy param_schema
      then (is_array param_schema >>= λ array.
          combine array (if location == "path" then arr (cons values nil) else values)
            (or_null param_defn) location
          >>= coerced (or_null param_defn) k)
      else ok values

  unfoldable pub resolve_params : Dict Value → String → Result (Dict Value)
  unfolding resolve_param
  resolve_params [] location = ok []
  resolve_params ((k, values) ∷ params) location = do
    value ← resolve_param k values location
    rest ← resolve_params params location
    ok ((k, value) ∷ rest)

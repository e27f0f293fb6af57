-- ===== src/UriParsing/Swagger2.antt =====
-- The parsers for Swagger 2: `Swagger2URIParser`, `FirstValueURIParser` and `AlwaysMultiURIParser`.
use connexion.Prelude.{
  String, Bool, false, Option, none, some, List, [], ◌∷◌, ◌==◌, if◌then◌else◌, first, mem,
}
use connexion.Prelude.Dict
use connexion.Prelude.Dict.{Dict}
use connexion.Value.{Value, str, arr, items}
use connexion.Value.Access.{lookup}
use connexion.Errors.{type_error, index_error, Result, ok, err, ◌>>=◌, or_key_error}
use connexion.UriParsing.{UriParser, last_value}
use connexion.UriParsing.Styles.{comma, pipe, join_values, split_value}

-- `param_defn.get("collectionFormat") == format`
abbrev has_format : String → Option Value → Bool
has_format format (some (str s)) = s == format
has_format format v = false

unfoldable pub first_value : Value → Result Value
unfolding items
first_value (arr xs) = elim (first (items xs)) [
  | none ↦ err (index_error "list index out of range")
  | some v ↦ ok v
]
first_value v = err (type_error "object is not subscriptable")

unfoldable pub duplicates_last : Value → Value → String → Result Value
unfolding lookup join_values last_value
duplicates_last values param_defn location =
    if has_format "multi" (lookup "collectionFormat" param_defn)
    then join_values comma values
    else last_value values

unfoldable pub duplicates_first : Value → Value → String → Result Value
unfolding lookup join_values first_value
duplicates_first values param_defn location =
    if has_format "multi" (lookup "collectionFormat" param_defn)
    then join_values comma values
    else first_value values

unfoldable pub duplicates_all : Value → Value → String → Result Value
unfolding lookup join_values
duplicates_all values param_defn location =
    if has_format "pipes" (lookup "collectionFormat" param_defn)
    then join_values pipe values
    else join_values comma values

unfoldable pub split_format : Value → Value → String → Result Value
unfolding lookup split_value
split_format value param_defn location =
    if has_format "pipes" (lookup "collectionFormat" param_defn)
    then split_value pipe value
    else split_value comma value

-- the name and the place of a parameter
abbrev pub as_text : Value → Result String
as_text (str s) = ok s
as_text v = err (type_error "not a text")

abbrev pub text_at : String → Value → Result String
text_at key p = or_key_error key (lookup key p) >>= as_text

-- `{p["name"]: p for p in param_defns if p["in"] in parsable_parameters}`, onto the dict so far
unfoldable pub defns_by_name : List String → Dict Value → List Value → Result (Dict Value)
unfolding lookup Dict.set
defns_by_name parsable d [] = ok d
defns_by_name parsable d (p ∷ ps) = text_at "in" p >>= λ location.
    (if mem location parsable then (text_at "name" p >>= λ name. ok (Dict.set name p d)) else ok d)
    >>= λ e. defns_by_name parsable e ps

abbrev pub swagger2_parsable : List String
swagger2_parsable = "query" ∷ "path" ∷ "formData" ∷ []

abbrev pub parser_with : (Value → Value → String → Result Value) → Dict Value → UriParser
unfolding split_format
parser_with duplicates defns = record {
  param_defns = defns;
  param_schemas = defns;
  resolve_param_duplicates = duplicates;
  split = split_format;
}

unfoldable pub swagger2_parser : List Value → Result UriParser
unfolding defns_by_name duplicates_last parser_with
swagger2_parser parameters =
    defns_by_name swagger2_parsable [] parameters >>= λ d. ok (parser_with duplicates_last d)

unfoldable pub first_value_parser : List Value → Result UriParser
unfolding defns_by_name duplicates_first parser_with
first_value_parser parameters =
    defns_by_name swagger2_parsable [] parameters >>= λ d. ok (parser_with duplicates_first d)

unfoldable pub always_multi_parser : List Value → Result UriParser
unfolding defns_by_name duplicates_all parser_with
always_multi_parser parameters =
    defns_by_name swagger2_parsable [] parameters >>= λ d. ok (parser_with duplicates_all d)

-- ===== src/Operations/Forms.antt =====
-- connexion/operations/swagger2.py: `_transform_form`, which makes of the parameters of a form the
-- definition of a body in OpenAPI 3. A parameter has a name.
pub mod Described
use connexion.Prelude.{
  String, Bool, true, false, ◌&&◌, Option, none, some, List, [], ◌∷◌, ◌++◌, ◌==◌, if◌then◌else◌,
  mem,
}
use connexion.Prelude.Text.{◌<>◌}
use connexion.Value.{Value, Fields, null, bool, str, arr, obj, end, field, of_items, truthy}
use connexion.Value.Access.{lookup}
use connexion.Errors.{Exc, invalid_specification, Result, ok, err, ◌>>=◌, or_key_error}
use connexion.Utils.Merge.{set_field}
use connexion.UriParsing.Swagger2.{text_at}
use connexion.Operations.OpenApi.{empty_dict, get_or}

-- the style of OpenAPI 3 for a collection format
unfoldable pub collection_format_mapping : String → Option Value
collection_format_mapping format =
    let style = λ (s : String) (explode : Bool).
      some (obj (field "style" (str s) (field "explode" (bool explode) end))) in
    if format == "multi"
    then style "form" true
    else if format == "csv"
    then style "form" false
    else if format == "ssv"
    then style "spaceDelimited" false
    else if format == "pipes"
    then style "pipeDelimited" false
    else none

abbrev shown : Value → String
shown (str s) = s
shown v = "None"

abbrev mapped : Value → Option Value
mapped (str format) = collection_format_mapping format
mapped v = none

-- The schema of a form so far: its properties, their defaults, the names that are required, and the
-- encodings.
pub record Form : Type 0 where
  pub properties : Fields
  pub defaults : Fields
  pub required : List Value
  pub encoding : Fields

abbrev pub empty_form : Form
empty_form = record { properties = end; defaults = end; required = []; encoding = end }

-- `d[k] = v` where there is a v that is not None
abbrev pub set_given : String → Option Value → Fields → Fields
set_given k none d = d
set_given k (some null) d = d
set_given k (some v) d = set_field k v d

-- the type and the format of a property
abbrev typed_property : Value → Value → Fields
typed_property param (str s) =
    if s == "file"
    then field "type" (str "string") (field "format" (str "binary") end)
    else set_given "format" (lookup "format" param) (field "type" (str s) end)
typed_property param type_ = set_given "format" (lookup "format" param) (field "type" type_ end)

abbrev is_array_type : Value → Bool
is_array_type (str s) = s == "array"
is_array_type type_ = false

-- the property of a parameter
unfoldable pub property_of : (param type_ : Value) → Fields
unfolding lookup set_field
property_of param type_ =
    let prop = set_given "nullable" (lookup "x-nullable" param) (typed_property param type_) in
    if is_array_type type_ then set_field "items" (get_or "items" param empty_dict) prop else prop

-- the encoding of a parameter, of an array only
unfoldable pub encoding_of : (param type_ : Value) → String → Fields → Result Fields
unfolding lookup set_field collection_format_mapping
encoding_of param type_ name encoding =
    let collection_format = get_or "collectionFormat" param (str "csv") in
    if is_array_type type_
    then elim (mapped collection_format) [
      | none ↦ err (
          invalid_specification (
            "The collection format ("
            <> (shown collection_format
                <> (") is not supported by " <> "Connexion as it cannot be mapped to OpenAPI 3."))))
      | some style ↦ ok (set_field name style encoding)
    ]
    else ok encoding

-- one parameter, onto the form so far
unfoldable pub add_parameter : Value → Form → Result Form
unfolding lookup truthy set_field property_of encoding_of
add_parameter param form = or_key_error "type" (lookup "type" param) >>= λ type_.
    text_at "name" param >>= λ name. encoding_of param type_ name form.encoding >>= λ encoding.
    ok (record {
      properties = set_field name (obj (property_of param type_)) form.properties;
      defaults = set_given name (lookup "default" param) form.defaults;
      required =
          if truthy (get_or "required" param (bool false))
          then form.required ++ str name ∷ []
          else form.required;
      encoding = encoding;
    })

unfoldable pub add_parameters : List Value → Form → Result Form
unfolding add_parameter
add_parameters [] form = ok form
add_parameters (param ∷ params) form = add_parameter param form >>= add_parameters params

-- the definition that the form makes
unfoldable pub form_definition : Form → Value
unfolding truthy of_items
form_definition form =
    let schema = obj (
      field "type" (str "object") (
        field "properties" (obj form.properties) (
          field "default" (obj form.defaults)
            (field "required" (arr (of_items form.required)) end)))) in
    if truthy (obj form.encoding)
    then obj (field "schema" schema (field "encoding" (obj form.encoding) end))
    else obj (field "schema" schema end)

-- `_transform_form`
unfoldable pub transform_form : (form_parameters : List Value) → Result Value
unfolding add_parameters form_definition
transform_form form_parameters =
    add_parameters form_parameters empty_form >>= λ form. ok (form_definition form)

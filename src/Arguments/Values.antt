-- ===== src/Arguments/Values.antt =====
-- connexion/decorators/parameter.py: values cast to the type of their definition, and the defaults of
-- query parameters. A definition is that of a valid specification, so that its dicts are dicts.
use connexion.Prelude.{
  String, Bool, false, not, ◌&&◌, Option, none, some, List, [], ◌∷◌, ◌==◌, if◌then◌else◌,
}
use connexion.Prelude.Dict
use connexion.Prelude.Dict.{Dict, is_some}
use connexion.Value.{Value, Fields, null, str, arr, obj, field, end, fields, items, of_items}
use connexion.Value.Access.{lookup}
use connexion.Errors.{type_error, Result, ok, err, ◌>>=◌, or_key_error}
use connexion.Utils.Media.{is_nullable, is_null, or_self}
use connexion.Utils.Merge.{set_field, get_field}
use connexion.Utils.Coerce.{Builtins, text_of, make_type}
use connexion.Operations.OpenApi.{empty_dict, get_or}

-- The parts that a `for` takes: of a list its items, of a dict its keys, of a text its characters.
abbrev characters : String → List Value
characters String.[] = []
characters (String.◌∷◌ c s) = str (String.◌∷◌ c String.[]) ∷ characters s

abbrev key_values : List String → List Value
key_values [] = []
key_values (k ∷ ks) = str k ∷ key_values ks

unfoldable pub parts_of : Value → Result (List Value)
unfolding items fields Dict.keys
parts_of (arr xs) = ok (items xs)
parts_of (obj fs) = ok (key_values (Dict.keys (fields fs)))
parts_of (str s) = ok (characters s)
parts_of v = err (type_error "the object is not iterable")

-- `schema["type"]`; a type that is no text is no key of a dict
abbrev text_or_error : Value → Result String
text_or_error (str s) = ok s
text_or_error v = err (type_error "unhashable type")

unfoldable pub type_at : Value → Result String
unfolding lookup
type_at schema = or_key_error "type" (lookup "type" schema) >>= text_or_error

module _ (py : Builtins) where
  unfoldable pub make_each : List Value → String → Option String → Result (List Value)
  unfolding make_type
  make_each [] type_ format = ok []
  make_each (part ∷ parts) type_ format =
      make_type py part type_ format >>= λ v. make_each parts type_ format >>= λ vs. ok (v ∷ vs)

  unfoldable pub make_array : Value → Value → Result Value
  unfolding lookup type_at parts_of make_each of_items
  make_array param_schema value =
      or_key_error "items" (lookup "items" param_schema) >>= λ item_schema.
      type_at item_schema >>= λ type_. parts_of value >>= λ parts.
      make_each parts type_ (text_of (lookup "format" item_schema)) >>= λ vs. ok (arr (of_items vs))

  -- a value that is not null, by the type of its schema
  unfoldable pub make_typed : Value → Value → String → Result Value
  unfolding lookup make_array make_type
  make_typed param_schema value type_ =
      if type_ == "array"
      then make_array param_schema value
      else make_type py value type_ (text_of (lookup "format" param_schema))

  -- `_get_val_from_param`
  unfoldable pub get_val_from_param : Value → (param_definitions : Value) → Result Value
  unfolding lookup is_nullable is_null type_at make_typed
  get_val_from_param value param_definitions =
      let param_schema = or_self (lookup "schema" param_definitions) param_definitions in
      let typed = type_at param_schema >>= make_typed param_schema value in
      if is_nullable param_schema && is_null value then ok null else typed

abbrev pub fields_of : Value → Fields
fields_of (obj fs) = fs
fields_of v = end

abbrev field_or_empty : Option Value → Fields
field_or_empty none = end
field_or_empty (some v) = fields_of v

abbrev is_text : String → Option Value → Bool
is_text t none = false
is_text t (some (str s)) = s == t
is_text t (some v) = false

-- What a property becomes in the default object: its default where there is none yet, or else, of an
-- object with properties, what they become in the object that is there.
unfoldable pub add_default : String → Value → (nested : Fields → Fields) → Fields → Fields
unfolding lookup set_field get_field
add_default name property_ nested default_object =
    let inner = nested (field_or_empty (get_field name default_object)) in
    if is_some (lookup "default" property_) && not (is_some (get_field name default_object))
    then set_field name (or_self (lookup "default" property_) null) default_object
    else if is_text "object" (lookup "type" property_) && is_some (lookup "properties" property_)
    then set_field name (obj inner) default_object
    else default_object

-- `_build_default_obj_recursive`. The properties of a property are found while its dict is walked.
unfoldable mutual
  unfolding add_default

  pub build_default_obj_recursive : (properties : Fields) → (default_object : Fields) → Fields
  build_default_obj_recursive end default_object = default_object
  build_default_obj_recursive (field name property_ properties) default_object =
      build_default_obj_recursive properties
        (add_default name property_ (build_nested property_) default_object)

  -- the properties of a property, onto an object
  pub build_nested : Value → Fields → Fields
  build_nested (obj fs) default_object = build_at fs default_object
  build_nested v default_object = default_object

  pub build_at : Fields → Fields → Fields
  build_at end default_object = default_object
  build_at (field k v fs) default_object =
      let here = build_nested_dict v default_object in
      let later = build_at fs default_object in if k == "properties" then here else later

  pub build_nested_dict : Value → Fields → Fields
  build_nested_dict (obj properties) default_object =
      build_default_obj_recursive properties default_object
  build_nested_dict v default_object = default_object

-- `_get_default_obj`
unfoldable pub get_default_obj : (schema : Value) → Value
unfolding lookup build_default_obj_recursive
get_default_obj schema = elim (lookup "default" schema) [
  | some default ↦ default
  | none ↦ obj (build_default_obj_recursive (fields_of (get_or "properties" schema empty_dict)) end)
]

-- the default of one parameter; none is a `KeyError`
unfoldable pub query_default : Value → Option Value
unfolding lookup get_default_obj
query_default definition = elim (lookup "default" definition) [
  | some default ↦ some default
  | none ↦ elim (lookup "schema" definition) [
    | none ↦ none
    | some schema ↦ elim (lookup "type" schema) [
      | none ↦ none
      | some type_ ↦
          if is_text "object" (some type_)
          then some (get_default_obj schema)
          else lookup "default" schema
    ]
  ]
]

abbrev pub with_default : String → Option Value → Fields → Fields
with_default k none defaults = defaults
with_default k (some v) defaults = field k v defaults

-- `_get_query_defaults`
unfoldable pub get_query_defaults : (query_definitions : Dict Value) → Fields
unfolding query_default
get_query_defaults [] = end
get_query_defaults ((k, v) ∷ definitions) =
    with_default k (query_default v) (get_query_defaults definitions)

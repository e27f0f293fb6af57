-- ===== src/Arguments/Body.antt =====
-- connexion/decorators/parameter.py: the argument from the body, and those from the files.
use connexion.Prelude.{
  String, Bool, true, false, not, ◌&&◌, ◌||◌, Option, none, some, List, [], ◌∷◌, if◌then◌else◌, mem,
  leb, length,
}
use connexion.Prelude.Dict
use connexion.Prelude.Dict.{Dict}
use connexion.Value.{Value, null, bool, obj, field, end, fields, of_fields, truthy}
use connexion.Value.Access.{lookup}
use connexion.Errors.{Exc, Result, ok, err, ◌>>=◌}
use connexion.Utils.Media.{is_nullable, is_null}
use connexion.Utils.Coerce.{Builtins}
use connexion.Operations.OpenApi.{entries, empty_dict, get_or}
use connexion.Arguments.{Operation}
use connexion.Arguments.Values.{get_val_from_param}

-- `FORM_CONTENT_TYPES` of connexion/http_facts.py
abbrev pub form_content_types : List String
form_content_types = "application/x-www-form-urlencoded" ∷ "multipart/form-data" ∷ []

abbrev pub is_form : Option String → Bool
is_form none = false
is_form (some t) = mem t form_content_types

-- `_get_body_argument_json`
unfoldable pub get_body_argument_json : Operation → Option String → Value → Result Value
unfolding is_nullable is_null lookup
get_body_argument_json operation content_type body =
    operation.body_schema content_type >>= λ schema.
    if is_nullable schema && is_null body
    then ok null
    else ok (elim body [ null ↦ get_or "default" schema empty_dict | v ↦ v ])

-- `{k: {"schema": v} for k, v in properties.items()}`
abbrev pub under_schema : Value → Value
under_schema v = obj (field "schema" v end)

unfoldable pub body_props_of : Dict Value → Dict Value
body_props_of [] = []
body_props_of ((k, v) ∷ properties) = (k, under_schema v) ∷ body_props_of properties

abbrev is_dict : Value → Bool
is_dict (obj fs) = true
is_dict v = false

module _ (py : Builtins) where
  -- the value of a property that has no definition, or whose definition lacks a key
  unfoldable pub additional_value : (additional_props value : Value) → Result (Option Value)
  unfolding truthy get_val_from_param
  additional_value additional_props value =
      if not (truthy additional_props)
      then ok none
      else if is_dict additional_props
      then (get_val_from_param py value (under_schema additional_props) >>= λ v. ok (some v))
      else ok (some value)

  unfoldable pub or_additional :
      (additional_props value : Value) → Result Value → Result (Option Value)
  unfolding additional_value
  or_additional additional_props value (ok v) = ok (some v)
  or_additional additional_props value (err (Exc.key_error k)) =
      additional_value additional_props value
  or_additional additional_props value (err e) = err e

  unfoldable pub typed_value :
      (body_props : Dict Value)
      → (additional_props : Value) → String
      → Value
      → Result (Option Value)
  unfolding Dict.get get_val_from_param or_additional
  typed_value body_props additional_props key value = elim (Dict.get key body_props) [
    | none ↦ additional_value additional_props value
    | some definition ↦
        or_additional additional_props value (get_val_from_param py value definition)
  ]

  abbrev pub with_value : String → Option Value → Dict Value → Dict Value
  with_value key none res = res
  with_value key (some v) res = (key, v) ∷ res

  -- `_get_typed_body_values`, of a dict, whose keys are distinct
  unfoldable pub get_typed_body_values :
      (body_props : Dict Value)
      → (additional_props : Value) → (body_arg : Dict Value) → Result (Dict Value)
  unfolding typed_value
  get_typed_body_values body_props additional_props [] = ok []
  get_typed_body_values body_props additional_props ((key, value) ∷ body_arg) =
      typed_value body_props additional_props key value >>= λ o.
      get_typed_body_values body_props additional_props body_arg >>= λ res.
      ok (with_value key o res)

  -- `_get_body_argument_form`
  unfoldable pub get_body_argument_form : Operation → Option String → Value → Result (Dict Value)
  unfolding lookup fields truthy body_props_of get_typed_body_values Dict.update
  get_body_argument_form operation content_type body =
      operation.body_schema content_type >>= λ schema.
      operation.body_schema none >>= λ first_schema.
      let body_props = body_props_of (entries (get_or "properties" schema empty_dict)) in
      let additional_props = get_or "additionalProperties" first_schema (bool true) in
      let body_arg =
        Dict.update (entries (get_or "default" schema empty_dict))
          (if truthy body then entries body else []) in
      let typed = get_typed_body_values body_props additional_props body_arg in
      if leb 1 (length body_props) || truthy additional_props then typed else ok []

  module _ (sanitize : String → String) (arguments : List String) (has_kwargs : Bool) where
    unfoldable pub form_arguments : Dict Value → Dict Value → Dict Value
    unfolding Dict.set
    form_arguments kwargs [] = kwargs
    form_arguments kwargs ((name, value) ∷ result) =
        let set_too = form_arguments (Dict.set (sanitize name) value kwargs) result in
        let skipped = form_arguments kwargs result in
        if mem (sanitize name) arguments then set_too else skipped

    abbrev pub named_body : String → Value → Dict Value
    named_body body_name result =
        if mem body_name arguments || has_kwargs then (body_name, result) ∷ [] else []

    unfoldable pub form_body : Operation → String → Dict Value → Dict Value
    unfolding form_arguments of_fields
    form_body operation body_name result =
        if operation.is_swagger2
        then if has_kwargs then result else form_arguments [] result
        else named_body body_name (obj (of_fields result))

    unfoldable pub body_argument : Operation → Option String → Value → String → Result (Dict Value)
    unfolding get_body_argument_form get_body_argument_json form_body
    body_argument operation content_type body body_name =
        if is_form content_type
        then (get_body_argument_form operation content_type body >>= λ result.
            ok (form_body operation body_name result))
        else (get_body_argument_json operation content_type body >>= λ result.
            ok (named_body body_name result))

    -- `_get_body_argument`
    unfoldable pub get_body_argument : Operation → Option String → Value → Result (Dict Value)
    unfolding body_argument
    get_body_argument operation content_type body =
        if leb (length arguments) 0 && not has_kwargs
        then ok []
        else (operation.body_name content_type >>= λ name.
            body_argument operation content_type body (sanitize name))

module _ (arguments : List String) (has_kwargs : Bool) where
  -- `_get_file_arguments`
  unfoldable pub get_file_arguments : (files : Dict Value) → Dict Value
  get_file_arguments [] = []
  get_file_arguments ((k, v) ∷ files) =
      let rest = get_file_arguments files in
      if mem k arguments || has_kwargs then (k, v) ∷ rest else rest

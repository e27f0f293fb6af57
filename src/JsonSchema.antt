-- ===== src/JsonSchema.antt =====
-- connexion/json_schema.py: the keywords of the request and of the response validator. What jsonschema
-- has is a parameter: its own keywords, `is_type`, `extend` and the text of a name. A schema is valid:
-- `required` is a list of texts, and `properties` is a dict of dicts.
pub mod References
mod Tests
use connexion.Prelude.{
  String, Bool, true, false, not, ◌&&◌, ◌||◌, Option, none, some, List, [], ◌∷◌, if◌then◌else◌, mem,
}
use connexion.Prelude.Text.{◌<>◌}
use connexion.Prelude.Dict
use connexion.Prelude.Dict.{Dict}
use connexion.Value.{Value, null, bool, str, arr, items, truthy}
use connexion.Value.Access.{lookup}
use connexion.Utils.Media.{or_false}
use connexion.Operations.OpenApi.{entries}

-- What a keyword reads of the validator that calls it.
pub record Validator : Type 0 where
  pub is_type : Value → String → Bool
  -- the names of VALIDATORS
  pub validators : List String

-- The errors that a keyword yields for its value, an instance and the schema.
abbrev pub Keyword : Type 0
Keyword = Validator → Value → Value → Value → List String

abbrev is_none : Value → Bool
is_none null = true
is_none v = false

-- `v is True`
abbrev is_true : Option Value → Bool
is_true (some (bool b)) = b
is_true o = false

-- `allow_nullable`
unfoldable pub allow_nullable : Keyword → Keyword
unfolding lookup truthy
allow_nullable validation_fn validator to_validate instance_ schema =
    if is_none instance_
      && (is_true (lookup "x-nullable" schema) || or_false (lookup "nullable" schema))
    then []
    else validation_fn validator to_validate instance_ schema

-- Whether a property that is missing is passed over.
unfoldable pub is_exempt : Validator → Option Value → Bool
unfolding lookup truthy
is_exempt validator none = false
is_exempt validator (some subschema) =
    (mem "readOnly" validator.validators && or_false (lookup "readOnly" subschema))
    || (mem "writeOnly" validator.validators && or_false (lookup "writeOnly" subschema))
    || (mem "x-writeOnly" validator.validators && is_true (lookup "x-writeOnly" subschema))

abbrev subschema_of : String → Option Value → Option Value
subschema_of prop none = none
subschema_of prop (some properties) = lookup prop properties

module _ (repr : String → String) where
  abbrev required_error : String → String
  required_error prop = repr prop <> " is a required property"

  unfoldable pub missing : Validator → (required : List Value) → Value → Value → List String
  unfolding is_exempt Dict.has lookup
  missing validator (str prop ∷ required) instance_ schema =
      let rest = missing validator required instance_ schema in
      if Dict.has prop (entries instance_)
        || is_exempt validator (subschema_of prop (lookup "properties" schema))
      then rest
      else required_error prop ∷ rest
  missing validator _ instance_ schema = []

  -- `validate_required`
  unfoldable pub validate_required : Keyword
  unfolding missing items
  validate_required validator (arr required) instance_ schema =
      if validator.is_type instance_ "object"
      then missing validator (items required) instance_ schema
      else []
  validate_required validator _ instance_ schema = []

  unfoldable pub validate_read_only : Keyword
  validate_read_only validator ro instance_ schema = "Property is read-only" ∷ []

  unfoldable pub validate_write_only : Keyword
  validate_write_only validator wo instance_ schema = "Property is write-only" ∷ []

  module _ (extend : Dict Keyword → Dict Keyword → Dict Keyword) (draft4 : Dict Keyword)
      (type_ enum : Keyword) where
    -- `Draft4RequestValidator`
    unfoldable pub draft4_request_validator : Dict Keyword
    unfolding validate_required validate_read_only allow_nullable
    draft4_request_validator = extend draft4 (
        ("type", allow_nullable type_)
        ∷ ("enum", allow_nullable enum)
        ∷ ("required", validate_required)
        ∷ ("readOnly", validate_read_only)
        ∷ [])

    -- `Draft4ResponseValidator`
    unfoldable pub draft4_response_validator : Dict Keyword
    unfolding validate_required validate_write_only allow_nullable
    draft4_response_validator = extend draft4 (
        ("type", allow_nullable type_)
        ∷ ("enum", allow_nullable enum)
        ∷ ("required", validate_required)
        ∷ ("writeOnly", validate_write_only)
        ∷ ("x-writeOnly", validate_write_only)
        ∷ [])

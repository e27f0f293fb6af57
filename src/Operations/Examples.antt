-- ===== src/Operations/Examples.antt =====
-- Example responses: `_nested_example` and `example_response` of connexion/operations/openapi.py and
-- connexion/operations/swagger2.py, and `get_mimetype` of connexion/operations/abstract.py.
use Prim.Native.String.{compare}
use Prim.Native.Nat.{Ordering}
use connexion.Prelude.{String, false, Option, none, some, List, [], ◌∷◌, ◌==◌, if◌then◌else◌}
use connexion.Prelude.Dict
use connexion.Value.{Value, Fields, null, int, arr, obj, end, field, cons, nil, fields}
use connexion.Errors.{
  Exc, key_error, index_error, type_error, attribute_error, Result, ok, err, ◌>>=◌,
}
use connexion.Utils.Cast.{parse_int, int_of}
use connexion.Utils.Media.{all_json}
use connexion.Utils.Merge.{get_field, deep_get}

-- `except KeyError: pass`, and then what follows
abbrev pub or_next {ℓ} : {A : Type ℓ} → Result A → Result A → Result A
or_next (err (Exc.key_error k)) next = next
or_next r next = r

-- The example of a schema: its own, or that of its properties, or that of its items. The entries of
-- the schema are found while its dict is walked.
unfoldable mutual
  unfolding get_field

  pub nested_example : Value → Result Value
  nested_example (obj fs) =
      let properties = properties_example fs in
      let item = items_example fs in
      elim (get_field "example" fs) [ some example ↦ ok example | none ↦ or_next properties item ]
  nested_example v = err (type_error "the schema is no dict")

  pub properties_example : Fields → Result Value
  properties_example end = err (key_error "properties")
  properties_example (field k v fs) =
      let here = object_example v in
      let later = properties_example fs in if k == "properties" then here else later

  pub object_example : Value → Result Value
  object_example (obj properties) = each_example properties >>= λ fs. ok (obj fs)
  object_example v = err (attribute_error "the object has no attribute 'items'")

  pub each_example : Fields → Result Fields
  each_example end = ok end
  each_example (field key value properties) = nested_example value >>= λ example.
      each_example properties >>= λ fs. ok (field key example fs)

  pub items_example : Fields → Result Value
  items_example end = err (key_error "items")
  items_example (field k v fs) =
      let here = nested_example v >>= λ example. ok (arr (cons example nil)) in
      let later = items_example fs in if k == "items" then here else later

-- `sorted(responses.keys())[0]`
unfoldable pub first_sorted : String → List String → String
first_sorted k [] = k
first_sorted k (j ∷ ks) = first_sorted (elim (compare j k) [ Ordering.lt ↦ j | _ ↦ k ]) ks

-- the status code asked for, or the first_sorted
unfoldable pub status_or_lowest : Option String → (responses : Value) → Result String
unfolding fields first_sorted Dict.keys
status_or_lowest (some status_code) responses = ok status_code
status_or_lowest none (obj fs) = elim (Dict.keys (fields fs)) [
  | [] ↦ err (index_error "list index out of range")
  | k ∷ ks ↦ ok (first_sorted k ks)
]
status_or_lowest none v = err (attribute_error "the object has no attribute 'keys'")

-- `int(status_code)`, and 200 where that fails
unfoldable pub status_number : String → Value
unfolding parse_int
status_number status_code = elim (parse_int status_code) [ ok i ↦ int_of i | err e ↦ int false 200 ]

-- `list(v.values())[0]`
unfoldable pub first_item : Value → Result Value
first_item (obj end) = err (index_error "list index out of range")
first_item (obj (field k v fs)) = ok v
first_item v = err (attribute_error "the object has no attribute 'values'")

-- `except KeyError: return (None, status_code)`
abbrev pub or_none : Result Value → Result Value
or_none r = or_next r (ok null)

-- `Swagger2Operation.example_response`
unfoldable pub example_response_swagger2 :
    (responses : Value) → Option String → Result (Value × Value)
unfolding status_or_lowest status_number first_item deep_get nested_example
example_response_swagger2 responses status_code =
    status_or_lowest status_code responses >>= λ status.
    or_next (deep_get responses (status ∷ "examples" ∷ []) >>= first_item) (
      or_next (deep_get responses (status ∷ "schema" ∷ "example" ∷ []))
        (or_none (deep_get responses (status ∷ "schema" ∷ []) >>= nested_example)))
    >>= λ example. ok (example, status_number status)

-- `except (KeyError, IndexError): pass`
abbrev pub or_next_index : Result Value → Result Value → Result Value
or_next_index (err (Exc.key_error k)) next = next
or_next_index (err (Exc.index_error m)) next = next
or_next_index r next = r

-- `OpenAPIOperation.example_response`
unfoldable pub example_response :
    (responses : Value) → Option String → (content_type : String) → Result (Value × Value)
unfolding status_or_lowest status_number first_item deep_get nested_example
example_response responses status_code content_type =
    status_or_lowest status_code responses >>= λ status.
    or_next_index
      (deep_get responses (status ∷ "content" ∷ content_type ∷ "examples" ∷ []) >>= λ examples.
        first_item examples >>= λ example. deep_get example ("value" ∷ []))
      (or_next (deep_get responses (status ∷ "content" ∷ content_type ∷ "example" ∷ [])) (
        or_next (deep_get responses (status ∷ "content" ∷ content_type ∷ "schema" ∷ "example" ∷ []))
          (or_none (
            deep_get responses (status ∷ "content" ∷ content_type ∷ "schema" ∷ [])
            >>= nested_example))))
    >>= λ example. ok (example, status_number status)

abbrev pub default_mimetype : String
default_mimetype = "application/json"

abbrev first_or_default : List String → String
first_or_default [] = default_mimetype
first_or_default (m ∷ ms) = m

abbrev only_or_default : List String → String
only_or_default (m ∷ []) = m
only_or_default ms = default_mimetype

-- `AbstractOperation.get_mimetype`
unfoldable pub get_mimetype : (produces : List String) → Result String
unfolding all_json
get_mimetype produces = all_json produces >>= λ are_json.
    ok (if are_json then first_or_default produces else only_or_default produces)

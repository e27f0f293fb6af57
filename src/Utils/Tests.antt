-- ===== src/Utils/Tests.antt =====
-- The helpers of connexion/utils.py on concrete inputs.
use connexion.Prelude.{
  ℕ, arith, eq_iff, ◌≢◌, String, ◌≡◌, refl, false, none, some, [], ◌∷◌, ◌==◌, if◌then◌else◌,
}
use connexion.Value.{Value, Fields, int, str, obj, end, field}
use connexion.Errors.{
  Result, ok, err, import_error, attribute_error, value_error, type_validation_error,
}
use connexion.Utils.Merge.{get_field, deep_merge, deep_get}
use connexion.Utils.Merge.Laws.{kept_of, get-deep_merge, deep_get-deep_merge}
use connexion.Utils.Import.{get_function_from_name}
use connexion.Utils.Import.Laws.{Resolves, get_function_from_name-Resolves}
use connexion.Utils.Coerce.{Builtins, cast_fields, coerce_type}
use connexion.Utils.Coerce.Laws.{
  Leaf, property, cast_fields-Leaf, NoValueError, coerce_type-NoValueError,
}
use connexion.Prelude.Text.{◌<>◌, lower, has_char, strip_prefix}
use connexion.Utils.Media.{extract_content_type}
use connexion.Utils.Media.Laws.{LastCharset, value_of, extract_content_type-LastCharset}
use connexion.Prelude.Text.Split.{strip_prefix-append}

abbrev limits : Fields
limits = field "limits" (obj (field "rate" (int false 1) (field "burst" (int false 5) end))) end

abbrev overrides : Fields
overrides = field "limits" (obj (field "rate" (int false 2) end)) (field "name" (str "api") end)

get-deep_merge_example :
    get_field "limits" (deep_merge limits overrides)
    ≡ kept_of (get_field "limits" overrides) (get_field "limits" limits)
unfolding get_field
get-deep_merge_example =
    get-deep_merge limits overrides "limits" (refl, (refl, tt, tt), (refl, tt, tt))

deep_get-deep_merge_example :
    deep_get (obj (deep_merge limits overrides)) ("limits" ∷ "rate" ∷ []) ≡ ok (int false 2)
unfolding get_field deep_get
deep_get-deep_merge_example =
    deep_get-deep_merge ("limits" ∷ "rate" ∷ []) limits overrides (int false 2)
      (refl, (refl, tt, tt), (refl, tt, tt)) tt refl

-- a burst that only the first has stays
deep_merge-burst :
    deep_get (obj (deep_merge limits overrides)) ("limits" ∷ "burst" ∷ []) ≡ ok (int false 5)
unfolding deep_get deep_merge
deep_merge-burst = refl

abbrev import_module : String → Result ℕ
import_module name = if name == "app" then ok 1 else err (import_error name)

abbrev getattr : ℕ → String → Result ℕ
getattr o attr =
    if attr == "User" then ok 2 else if attr == "get" then ok 3 else err (attribute_error attr)

get_function_from_name-method :
    get_function_from_name import_module getattr (some "app.User.get") ≡ some (ok 3)
unfolding get_function_from_name
get_function_from_name-method = refl

get_function_from_name-Resolves_example :
    (r : Result ℕ) × (get_function_from_name import_module getattr (some "app.User.get") ≡ some r)
    × Resolves import_module getattr "app.User.get" r
get_function_from_name-Resolves_example =
    get_function_from_name-Resolves import_module getattr "app.User.get"

abbrev python : Builtins
python = record {
  int_of_float = λ s. err (value_error s);
  float_ = λ v. err (value_error "could not convert string to float");
  str_ = λ v. "";
  list_ = λ v. ok v;
  dict_ = λ v. err (value_error "dictionary update sequence element");
}

abbrev schema : Value
schema = obj (
    field "type" (str "object")
      (field "properties" (obj (field "age" (obj (field "type" (str "integer") end)) end)) end))

cast_fields-Leaf_example :
    Leaf python (some (str "7")) (property python "age" schema) (some (int false 7))
unfolding get_field cast_fields
cast_fields-Leaf_example =
    cast_fields-Leaf python (field "age" (str "7") end) (field "age" (int false 7) end) schema "age"
      refl

coerce_type-number :
    coerce_type python (obj (field "type" (str "integer") end)) (str "x") "query" (some "n")
    ≡ err (type_validation_error "integer" "query" "n")
unfolding coerce_type
coerce_type-number = refl

coerce_type-NoValueError_example :
    NoValueError
      (coerce_type python (obj (field "type" (str "integer") end)) (str "x") "query" (some "n"))
coerce_type-NoValueError_example =
    coerce_type-NoValueError python (obj (field "type" (str "integer") end)) (str "x") "query"
      (some "n")

differs : (a b : String) → (a == b) ≡ false → a ≢ b
differs a b h e = ground (arith, eq_iff a b)

not_charset :
    (p : String)
    → strip_prefix "charset=" p ≡ none
    → (encoding : String) → p ≢ "charset=" <> encoding
not_charset p no_prefix encoding e =
    ground (arith, e, no_prefix, strip_prefix-append "charset=" encoding)

extract_content_type-LastCharset_example :
    extract_content_type (
      ("Accept", "*/*")
      ∷ ("Content-Type", "text/plain;charset=a;charset=b; q=1")
      ∷ ("X-A", "b")
      ∷ [])
    ≡ (some "text/plain", some "b")
unfolding lower has_char value_of strip_prefix
extract_content_type-LastCharset_example =
    extract_content_type-LastCharset (("Accept", "*/*") ∷ []) (("X-A", "b") ∷ []) "Content-Type"
      "text/plain" (differs (lower "Accept") "content-type" refl, tt) refl refl
      ("charset=a" ∷ "charset=b" ∷ " q=1" ∷ []) (refl, (refl, (refl, tt)))
      (LastCharset.later
        (LastCharset.last (LastCharset.another (not_charset " q=1" refl) LastCharset.no_parameter)))

extract_content_type-spaced :
    extract_content_type (("content-type", "text/plain; charset=latin-1") ∷ [])
    ≡ (some "text/plain", none)
unfolding extract_content_type
extract_content_type-spaced = refl

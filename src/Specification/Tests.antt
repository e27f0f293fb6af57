-- ===== src/Specification/Tests.antt =====
-- Specifications of both versions.
use connexion.Prelude.{String, ◌≡◌, refl, sym, ap, false, [], ◌∷◌}
use connexion.Prelude.Dict.{Dict}
use connexion.Value.{Value, Fields, str, float, obj, arr, field, end, cons, nil}
use connexion.Errors.{Done, done, value_error, attribute_error, type_error, Result, ok, err}
use connexion.Specification.{
  Version, swagger2, open_api, Specification, get_spec_version, init, from_dict, with_base_path,
}
use connexion.Specification.BasePath.{IsMoved, with_base_path-IsMoved}

abbrev of_version : (key : String) → Value → Value
of_version key version = obj (field key version end)

get_spec_version-three :
    get_spec_version (of_version "openapi" (str "3.0.1"))
    ≡ ok ((false, 3) ∷ (false, 0) ∷ (false, 1) ∷ [])
unfolding get_spec_version
get_spec_version-three = refl

-- A version that is no text, and one that is no number, raise what is not caught.
get_spec_version-float :
    get_spec_version (of_version "swagger" (float "2.0"))
    ≡ err (attribute_error "the object has no attribute 'split'")
unfolding get_spec_version
get_spec_version-float = refl

get_spec_version-text :
    get_spec_version (of_version "openapi" (str "3.x")) ≡ err (value_error "invalid literal")
unfolding get_spec_version
get_spec_version-text = refl

abbrev accept_any : Version → Value → Result Done
accept_any version spec = ok done

abbrev keep_dicts : Value → Result Value
keep_dicts (obj fs) = ok (obj fs)
keep_dicts v = err (type_error "no dict")

abbrev two_parts : Value
two_parts = of_version "openapi" (str "3.0")

-- A version of two parts is before 3.0.0.
from_dict-two_parts :
    from_dict accept_any keep_dicts two_parts ≡ init accept_any keep_dicts swagger2 two_parts
unfolding from_dict
from_dict-two_parts = refl

abbrev format_url : String → Dict Value → Result String
format_url url variables = ok url

abbrev path_of_url : String → String
path_of_url url = url

abbrev petstore : Specification
petstore = record {
  version = open_api;
  raw_spec = of_version "openapi" (str "3.0.0");
  spec = of_version "openapi" (str "3.0.0");
}

abbrev moved : Specification
moved = record {
  version = open_api;
  raw_spec = obj (
      field "openapi" (str "3.0.0")
        (field "servers" (arr (cons (obj (field "url" (str "/v1") end)) nil)) end));
  spec = obj (
      field "openapi" (str "3.0.0") (
        field "components" (obj end)
          (field "servers" (arr (cons (obj (field "url" (str "/v1") end)) nil)) end)));
}

with_base_path-moved : with_base_path accept_any keep_dicts "/v1/" petstore ≡ ok moved
unfolding with_base_path
with_base_path-moved = refl

keep_dicts-dict : (v r : Value) → keep_dicts v ≡ ok r → (fs : Fields) × (r ≡ obj fs)
keep_dicts-dict (obj fs) r e = (fs, sym (ap (λ q. elim q [ ok z ↦ z | err x ↦ r ]) e))
keep_dicts-dict v r e = cc

with_base_path-IsMoved_example : IsMoved format_url path_of_url "/v1/" petstore moved
with_base_path-IsMoved_example =
    with_base_path-IsMoved format_url path_of_url accept_any keep_dicts keep_dicts-dict "/v1/"
      petstore moved (refl, refl) (field "openapi" (str "3.0.0") end, refl) with_base_path-moved

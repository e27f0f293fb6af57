-- ===== src/Validators/Parameter/Tests.antt =====
-- The parameter validator on concrete requests.
use connexion.Prelude.{
  String, ◌≡◌, refl, true, false, Option, none, some, [], ◌∷◌, ◌==◌, inl, inr, arith, eq_iff,
}
use connexion.Prelude.Dict
use connexion.Prelude.Dict.{Dict}
use connexion.Value.{Value, null, bool, int, str, obj, end, field}
use connexion.Value.Access.{lookup}
use connexion.Errors.{ok, done, err, value_error}
use connexion.Utils.Coerce.{Builtins, coerce_type}
use connexion.Utils.Media.{is_nullable}
use connexion.Validators.Parameter.{HttpRequest, validate_parameter, validate_request}
use connexion.Validators.Parameter.Accepted.{validate_parameter-IsValid_iff}
use connexion.Validators.Parameter.Declared.{validate_request-IsDeclared_iff}
use connexion.Prelude.Text.{lower}

abbrev python : Builtins
python = record {
  int_of_float = λ s. err (value_error s);
  float_ = λ v. err (value_error "could not convert string to float");
  str_ = λ v. "";
  list_ = λ v. ok v;
  dict_ = λ v. err (value_error "dictionary update sequence element");
}

-- a check that takes integers only
abbrev integers_only : (schema value : Value) → Option String
integers_only schema (int negative n) = none
integers_only schema v = some "is not of type 'integer'"

abbrev limit : Value
limit = obj (
    field "name" (str "limit") (
      field "in" (str "query") (
        field "required" (bool true)
          (field "schema" (obj (field "type" (str "integer") end)) end))))

abbrev request : Value → HttpRequest
request v = record {
  query_params = ("limit", v) ∷ [];
  path_params = [];
  headers = [];
  cookies = [];
}

validate_parameter-IsValid_iff_example :
    validate_parameter python integers_only "query" (str "7") limit ≡ ok none
unfolding lookup is_nullable coerce_type
validate_parameter-IsValid_iff_example =
    (validate_parameter-IsValid_iff python integers_only "query" (str "7") limit).1
      (inr (inr (refl, refl, (int false 7, refl, refl))))

missing :
    validate_parameter python integers_only "query" null limit
    ≡ ok (some "Missing query parameter 'limit'")
unfolding validate_parameter
missing = refl

wrong :
    validate_parameter python integers_only "query" (str "x") limit
    ≡ ok (some "Wrong type, expected 'integer' for query parameter 'limit'")
unfolding validate_parameter
wrong = refl

abbrev trace : Value
trace = obj (
    field "name" (str "X-Trace")
      (field "in" (str "header") (field "schema" (obj (field "type" (str "integer") end)) end)))

abbrev traced : HttpRequest
traced = record {
  query_params = ("limit", str "7") ∷ [];
  path_params = [];
  headers = ("x-trace", str "9") ∷ [];
  cookies = [];
}

elsewhere : (a b : String) → (a == b) ≡ false → some (str a) ≡ some (str b) → ⊥
elsewhere a b differ e = ground (arith, e, differ, eq_iff a b)

validate_request-IsDeclared_iff_example :
    validate_request python integers_only (λ d. ok d) (limit ∷ trace ∷ []) true traced ≡ ok done
unfolding lookup is_nullable coerce_type Dict.get Dict.keys lower
validate_request-IsDeclared_iff_example =
    (validate_request-IsDeclared_iff python integers_only (λ d. ok d) (limit ∷ trace ∷ []) true
        traced).1
      (
        inr (
          refl,
          ((λ i. ("limit", refl)), ((λ i. absurd (elsewhere "header" "query" refl i)), tt)),
          (inl (refl, refl), tt),
        ),
        (
          (λ i. (
            ("limit", str "7") ∷ [],
            refl,
            ("limit", refl, inr (inr (refl, refl, (int false 7, refl, tt)))),
          )),
          ((λ i. absurd (elsewhere "header" "query" refl i)), tt),
        ),
        (
          (λ i. absurd (elsewhere "query" "path" refl i)),
          ((λ i. absurd (elsewhere "header" "path" refl i)), tt),
        ),
        (
          (λ i. absurd (elsewhere "query" "header" refl i)),
          ((λ i. ("X-Trace", refl, inr (inr (refl, refl, (int false 9, refl, tt))))), tt),
        ),
        (
          (λ i. absurd (elsewhere "query" "cookie" refl i)),
          ((λ i. absurd (elsewhere "header" "cookie" refl i)), tt),
        ),
      )

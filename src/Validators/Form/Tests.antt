-- ===== src/Validators/Form/Tests.antt =====
-- The form validator on concrete forms.
use connexion.Prelude.{◌≡◌, refl, true, false, none, some, [], ◌∷◌}
use connexion.Value.{Value, int, str, arr, opaque, obj, field, end, cons, nil}
use connexion.Errors.{done, bad_request_problem, ok, err}
use connexion.Utils.Coerce.{Builtins}
use connexion.Validators.Form.{FormTools, extra_form_problem, check_empty, validate_form}

abbrev py : Builtins
py = record {
  int_of_float = λ s. ok (int false 0);
  float_ = λ v. ok v;
  str_ = λ v. "";
  list_ = λ v. ok v;
  dict_ = λ v. ok v;
}

abbrev schema : Value
schema = obj (
    field "required" (arr (cons (str "age") nil)) (
      field "properties"
        (obj (
          field "age" (obj (field "type" (str "integer") end))
            (field "photo" (obj (field "format" (str "binary") end)) end)))
        end))

-- Nothing but the dict with an age and an empty photo is valid. A key has its last value.
abbrev form_tools : FormTools
form_tools = record {
  schema = schema;
  strict_validation = true;
  schema_error = λ v. elim v [
    | obj (field k (int s n) fs) ↦ none
    | w ↦ some (record { message = "'age' is a required property"; path = [] })
  ];
  resolve_form = some (λ d. ok (("age", str "7") ∷ []));
  parse_form = λ body. ok [];
}

validate_form-cast :
    validate_form py form_tools (("age", str "7") ∷ ("photo", opaque 1) ∷ []) ≡ ok done
unfolding validate_form
validate_form-cast = refl

validate_form-extra :
    validate_form py form_tools (("name", str "x") ∷ []) ≡ err (extra_form_problem ("name" ∷ []))
unfolding validate_form
validate_form-extra = refl

-- A body without content that has required properties is refused at once.
check_empty-required :
    check_empty py form_tools none ≡ err (bad_request_problem (str "'age' is a required property"))
unfolding check_empty
check_empty-required = refl

check_empty-length : check_empty py form_tools (some "12") ≡ ok done
unfolding check_empty
check_empty-length = refl

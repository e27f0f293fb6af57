-- ===== src/Arguments/Tests.antt =====
-- The arguments of view functions on concrete requests.
use connexion.Prelude.{String, ◌≡◌, refl, ◌⊎◌, true, false, some, List, [], ◌∷◌, ◌==◌, mem, Any}
use connexion.Prelude.Dict.{Dict}
use connexion.Value.{Value, null, int, str, bool, obj, field, end}
use connexion.Errors.{ok}
use connexion.Utils.Coerce.{Builtins}
use connexion.Arguments.{Operation, Request}
use connexion.Arguments.Names.{sanitized, pythonic}
use connexion.Arguments.Names.Identifiers.{is_identifier, each-sanitized, sanitized-is_identifier}
use connexion.Arguments.Values.{get_query_defaults}
use connexion.Arguments.Body.{get_typed_body_values}
use connexion.Arguments.Wrapper.{prep_kwargs, wrapper}
use connexion.Arguments.Keys.{AllKeys}
use connexion.Arguments.Accepted.{prep_kwargs-Named}

sanitized-brackets : sanitized "filter[name][]" ≡ "filter_name"
unfolding sanitized
sanitized-brackets = refl

sanitized-digits : sanitized "1st-id" ≡ "stid"
unfolding sanitized
sanitized-digits = refl

pythonic-builtin : pythonic (λ s. s) (λ s. s == "id") "id" ≡ "id_"
unfolding pythonic
pythonic-builtin = refl

sanitized-is_identifier_example :
    (is_identifier (sanitized "filter[name]") ≡ true)
    × (is_identifier "filter[name]" ≡ true → sanitized "filter[name]" ≡ "filter[name]")
    × (sanitized (sanitized "filter[name]") ≡ sanitized "filter[name]")
sanitized-is_identifier_example = sanitized-is_identifier "filter[name]"

abbrev py : Builtins
py = record {
  int_of_float = λ s. ok (int false 0);
  float_ = λ v. ok v;
  str_ = λ v. "";
  list_ = λ v. ok v;
  dict_ = λ v. ok v;
}

abbrev of_type : String → Value
of_type t = obj (field "type" (str t) end)

abbrev parameter : (location name : String) → Value → Value
parameter location name schema =
    obj (field "in" (str location) (field "name" (str name) (field "schema" schema end)))

abbrev limit_schema : Value
limit_schema = obj (field "type" (str "integer") (field "default" (int false 20) end))

abbrev operation : Operation
operation = record {
  method = "post";
  parameters =
      parameter "path" "pet-id" (of_type "integer")
      ∷ parameter "query" "limit" limit_schema
      ∷ parameter "query" "offset" limit_schema
      ∷ [];
  is_swagger2 = false;
  body_name = λ t. ok "body";
  body_schema = λ t. ok (obj end);
}

abbrev request : Request
request = record {
  content_type = some "application/json";
  mimetype = some "application/json";
  path_params = ("pet-id", str "7") ∷ [];
  query_params = ("unknown", str "1") ∷ [];
  files = [];
  json = ok (int false 1);
  form = ok null;
  raw_data = ok null;
  context = ("user", str "me") ∷ ("token_info", null) ∷ [];
}

abbrev arguments : List String
arguments = "petid" ∷ "limit" ∷ "body" ∷ "user" ∷ []

abbrev passed : Dict Value
passed =
    ("petid", int false 7)
    ∷ ("limit", int false 20)
    ∷ ("body", int false 1)
    ∷ ("user", str "me")
    ∷ []

-- The default of a query parameter is passed, and what the function has not is left out.
wrapper-passed : wrapper py sanitized operation arguments false request ≡ ok passed
unfolding wrapper sanitized
wrapper-passed = refl

prep_kwargs-passed :
    prep_kwargs py sanitized operation arguments false request (int false 1) ≡ ok passed
unfolding prep_kwargs sanitized
prep_kwargs-passed = refl

prep_kwargs-Named_example :
    AllKeys
      (λ k.
        (mem k arguments ≡ true)
        ⊎ Any (λ (p : String × Value). k ≡ sanitized (sanitized p.0)) (("pet-id", str "7") ∷ []))
      passed
unfolding is_identifier
prep_kwargs-Named_example =
    prep_kwargs-Named py sanitized operation arguments request
      (each-sanitized arguments (refl, (refl, (refl, (refl, tt))))) (int false 1) passed
      prep_kwargs-passed

-- Nested defaults of properties make a default object.
get_query_defaults-nested :
    get_query_defaults (
      (
        "filter",
        obj (
            field "schema"
              (obj (
                field "type"
                  (str "object")
                  (field "properties" (obj (field "limit" limit_schema end)) end)))
              end),
      )
      ∷ [])
    ≡ field "filter" (obj (field "limit" (int false 20) end)) end
unfolding get_query_defaults
get_query_defaults-nested = refl

-- a property without a definition
get_typed_body_values-additional :
    get_typed_body_values py [] (bool true) (("a", str "x") ∷ []) ≡ ok (("a", str "x") ∷ [])
unfolding get_typed_body_values
get_typed_body_values-additional = refl

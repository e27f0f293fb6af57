-- ===== src/Operations/Swagger2.antt =====
-- connexion/operations/swagger2.py: the `Swagger2Operation`. A specification is resolved and valid
-- when an operation is made of it, so that its dicts are dicts, and a parameter has a name. What is
-- written into a dict of the specification is returned here.
use connexion.Prelude.{
  String, Bool, false, Option, none, some, List, [], ◌∷◌, ◌++◌, ◌==◌, if◌then◌else◌, mem,
}
use connexion.Prelude.Text.{◌<>◌}
use connexion.Value.{Value, null, str, arr, items, truthy}
use connexion.Value.Access.{lookup}
use connexion.Errors.{invalid_specification, Result, ok, err, ◌>>=◌, or_key_error}
use connexion.Utils.Media.{or_self}
use connexion.Utils.Merge.{set_field}
use connexion.UriParsing.Swagger2.{text_at}
use connexion.Operations.{AbstractOperation}
use connexion.Operations.Forms.{transform_form}
use connexion.Operations.OpenApi.{empty_dict, get_or, put}

pub record Swagger2Operation : Type 0 where
  pub method : String
  pub path : String
  pub definitions : Value
  pub parameters : List Value
  pub responses : Value
  pub consumes : List String
  pub produces : List String

abbrev or_list : Option Value → List Value
or_list (some (arr xs)) = items xs
or_list v = []

abbrev text_list : List Value → List String
text_list [] = []
text_list (str s ∷ vs) = s ∷ text_list vs
text_list (v ∷ vs) = text_list vs

abbrev or_default : Option Value → List String → List String
or_default none default = default
or_default (some v) default = text_list (or_list (some v))

-- `Swagger2Operation.__init__`, of the operation's dict, the parameters of its path, and what the
-- specification gives
unfoldable pub make :
    (method path : String)
    → (operation : Value) → (path_parameters : List Value)
    → (app_produces app_consumes : List String) → (definitions : Value) → Swagger2Operation
unfolding lookup items truthy
make method path operation path_parameters app_produces app_consumes definitions = record {
  method = method;
  path = path;
  definitions = if truthy definitions then definitions else empty_dict;
  parameters = or_list (lookup "parameters" operation) ++ path_parameters;
  responses = get_or "responses" operation empty_dict;
  consumes = or_default (lookup "consumes" operation) app_consumes;
  produces = or_default (lookup "produces" operation) app_produces;
}

-- `body_parameter["schema"]["nullable"] = nullable`
abbrev set_nullable : Value → Value → Result Value
set_nullable nullable body_parameter =
    or_key_error "schema" (lookup "schema" body_parameter) >>= λ schema.
    ok (put "schema" (put "nullable" nullable schema) body_parameter)

-- `_transform_json`
unfoldable pub transform_json : (body_parameter : Value) → Result Value
unfolding lookup set_field
transform_json body_parameter = elim (lookup "x-nullable" body_parameter) [
  | none ↦ ok body_parameter
  | some null ↦ ok body_parameter
  | some nullable ↦ set_nullable nullable body_parameter
]

-- `[p for p in self.parameters if p["in"] == location]`
unfoldable pub parameters_in : String → List Value → Result (List Value)
parameters_in location [] = ok []
parameters_in location (p ∷ parameters) = text_at "in" p >>= λ l.
    parameters_in location parameters >>= λ ps. ok (if l == location then p ∷ ps else ps)

abbrev is_form : Option String → Bool
is_form none = false
is_form (some t) = mem t ("application/x-www-form-urlencoded" ∷ "multipart/form-data" ∷ [])

module _ (op : Swagger2Operation) where
  -- one body parameter at most
  unfoldable pub body_parameter_of : List Value → Result Value
  body_parameter_of [] = ok empty_dict
  body_parameter_of (p ∷ []) = ok p
  body_parameter_of (p ∷ q ∷ ps) = err (
      invalid_specification
        (op.method <> (" " <> (op.path <> " There can be one 'body' parameter at most"))))

  unfoldable pub body_definition : Option String → Result Value
  unfolding lookup parameters_in transform_form transform_json body_parameter_of
  body_definition content_type =
      if is_form content_type
      then (parameters_in "formData" op.parameters >>= transform_form)
      else (parameters_in "body" op.parameters >>= λ ps. body_parameter_of ps >>= transform_json)

  unfoldable pub body_name : Option String → Result Value
  unfolding body_definition lookup
  body_name content_type = body_definition content_type >>= λ d. ok (get_or "name" d (str "body"))

  abbrev with_schema : Value → Option Value → Value
  with_schema schema none = schema
  with_schema schema (some s) = put "schema" (put "definitions" op.definitions s) schema

  unfoldable pub with_definitions : Value → Value
  unfolding lookup set_field
  with_definitions schema = with_schema schema (lookup "schema" schema)

  unfoldable pub body_schema : Option String → Result Value
  unfolding body_definition with_definitions lookup
  body_schema content_type =
      body_definition content_type >>= λ d. ok (get_or "schema" (with_definitions d) empty_dict)

  -- `AbstractOperation.response_definition`
  unfoldable pub response_definition : (status_code content_type : String) → Value
  unfolding lookup
  response_definition status_code content_type =
      or_self (lookup status_code op.responses) (get_or "default" op.responses empty_dict)

  unfoldable pub response_schema : (status_code content_type : String) → Value
  unfolding response_definition lookup with_definitions
  response_schema status_code content_type =
      with_definitions (get_or "schema" (response_definition status_code content_type) empty_dict)

  -- the operation as the middlewares see it
  unfoldable pub as_operation : Option String → AbstractOperation
  unfolding body_schema body_definition response_definition response_schema
  as_operation operation_id = record {
    operation_id = operation_id;
    parameters = op.parameters;
    consumes = op.consumes;
    produces = op.produces;
    body_schema = body_schema;
    body_definition = body_definition;
    response_definition = response_definition;
    response_schema = response_schema;
  }

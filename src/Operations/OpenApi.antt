-- ===== src/Operations/OpenApi.antt =====
-- connexion/operations/openapi.py: the `OpenAPIOperation`. A specification is resolved and valid when
-- an operation is made of it, so that its dicts are dicts. What `with_definitions` writes into the
-- dict it is given, it returns here.
use connexion.Prelude.{String, if◌then◌else◌, Option, none, some, List, [], ◌∷◌, ◌++◌}
use connexion.Prelude.Dict
use connexion.Prelude.Dict.{Dict}
use connexion.Value.{Value, arr, obj, end, fields, items, truthy}
use connexion.Value.Access.{lookup}
use connexion.Errors.{index_error, Result, ok, err, ◌>>=◌}
use connexion.Utils.Merge.{set_field}
use connexion.Utils.Media.{or_self}
use connexion.Datastructures
use connexion.Operations.{AbstractOperation}

-- the items of a dict
abbrev pub entries : Value → Dict Value
entries (obj fs) = fields fs
entries v = []

abbrev pub empty_dict : Value
empty_dict = obj end

-- `v.get(k, default)`
abbrev pub get_or : String → Value → Value → Value
get_or k v default = or_self (lookup k v) default

-- `v[k] = w` of a dict
abbrev pub put : String → Value → Value → Value
put k w (obj fs) = obj (set_field k w fs)
put k w v = v

pub record OpenApiOperation : Type 0 where
  pub components : Value
  pub request_body : Value
  pub parameters : List Value
  pub responses : Value
  pub consumes : List String
  pub produces : List String

abbrev or_json : List String → List String
or_json [] = "application/json" ∷ []
or_json (c ∷ cs) = c ∷ cs

content_keys : List (String × Value) → List String
unfolding lookup fields Dict.keys
content_keys [] = []
content_keys ((status, defn) ∷ responses) =
    Dict.keys (entries (get_or "content" defn empty_dict)) ++ content_keys responses

abbrev or_list : Option Value → List Value
or_list (some (arr xs)) = items xs
or_list v = []

-- `OpenAPIOperation.__init__`, of the operation's dict, the parameters of its path and the components
unfoldable pub make :
    (operation : Value) → (path_parameters : List Value) → (components : Value) → OpenApiOperation
unfolding lookup fields items Dict.keys content_keys
make operation path_parameters components =
    let request_body = get_or "requestBody" operation empty_dict in
    let responses = get_or "responses" operation empty_dict in
    record {
      components = components;
      request_body = request_body;
      parameters = or_list (lookup "parameters" operation) ++ path_parameters;
      responses = responses;
      consumes = or_json (Dict.keys (entries (get_or "content" request_body empty_dict)));
      produces = or_json (content_keys (entries responses));
    }

module _ (op : OpenApiOperation) where
  unfoldable pub with_definitions : Value → Value
  unfolding lookup truthy set_field
  with_definitions schema =
      if truthy op.components
      then put "schema" (put "components" op.components (get_or "schema" schema empty_dict)) schema
      else schema

  abbrev or_first : Option String → List String → Result String
  or_first (some content_type) consumes = ok content_type
  or_first none [] = err (index_error "list index out of range")
  or_first none (c ∷ cs) = ok c

  unfoldable pub body_definition : Option String → Result Value
  unfolding lookup fields truthy Datastructures.get with_definitions
  body_definition content_type =
      if truthy op.request_body
      then (or_first content_type op.consumes >>= λ t.
          Datastructures.get (entries (get_or "content" op.request_body empty_dict)) t empty_dict
          >>= λ res. ok (with_definitions res))
      else ok empty_dict

  unfoldable pub body_schema : Option String → Result Value
  unfolding body_definition lookup
  body_schema content_type = body_definition content_type >>= λ d. ok (get_or "schema" d empty_dict)

  -- `AbstractOperation.response_definition`
  unfoldable pub response_definition : (status_code content_type : String) → Value
  unfolding lookup
  response_definition status_code content_type =
      or_self (lookup status_code op.responses) (get_or "default" op.responses empty_dict)

  unfoldable schema_of : Value → Value
  unfolding lookup with_definitions
  schema_of content_definition = elim (lookup "schema" content_definition) [
    | none ↦ empty_dict
    | some s ↦ get_or "schema" (with_definitions content_definition) empty_dict
  ]

  unfoldable pub response_schema : (status_code content_type : String) → Value
  unfolding response_definition lookup schema_of
  response_schema status_code content_type =
      let definition = response_definition status_code content_type in
      let content = get_or "content" definition definition in
      schema_of (get_or content_type content content)

  -- the operation as the middlewares see it
  unfoldable pub as_operation : Option String → AbstractOperation
  unfolding body_schema body_definition response_definition response_schema
  as_operation operation_id = record {
    operation_id = operation_id;
    parameters = op.parameters;
    consumes = op.consumes;
    produces = op.produces;
    body_schema = body_schema;
    body_definition = body_definition;
    response_definition = response_definition;
    response_schema = response_schema;
  }

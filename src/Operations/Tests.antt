-- ===== src/Operations/Tests.antt =====
-- Operations of Swagger 2, and examples, on concrete specifications.
use connexion.Prelude.{String, ◌≡◌, refl, true, false, none, some, List, [], ◌∷◌}
use connexion.Value.{Value, bool, int, str, arr, obj, field, end, cons, nil}
use connexion.Errors.{ok, err, invalid_specification, index_error}
use connexion.Utils.Merge.{get_field}
use connexion.Operations.Forms.{Form, form_definition, transform_form}
use connexion.Operations.Forms.Described.{property_named, required_names, transform_form-Describes}
use connexion.Operations.Swagger2.{Swagger2Operation, body_definition}
use connexion.Operations.Examples.{
  nested_example, example_response, example_response_swagger2, get_mimetype,
}
use connexion.Operations.PathTypes.{get_path_parameter_types_swagger2}

abbrev name_parameter : Value
name_parameter = obj (
    field "in" (str "formData")
      (field "name" (str "name") (field "type" (str "string") (field "required" (bool true) end))))

abbrev tags_parameter : String → Value
tags_parameter format = obj (
    field "in" (str "formData") (
      field "name" (str "tags")
        (field "type" (str "array") (field "collectionFormat" (str format) end))))

abbrev form_parameters : List Value
form_parameters = name_parameter ∷ tags_parameter "pipes" ∷ []

abbrev definition : Value
definition = obj (
    field "schema"
      (obj (
        field "type" (str "object") (
          field "properties"
            (obj (
              field "name" (obj (field "type" (str "string") end)) (
                field "tags" (obj (field "type" (str "array") (field "items" (obj end) end))) end)))
            (field "default" (obj end) (field "required" (arr (cons (str "name") nil)) end)))))
      (field "encoding"
        (obj (
          field "tags"
            (obj (field "style" (str "pipeDelimited") (field "explode" (bool false) end))) end))
        end))

transform_form-pipes : transform_form form_parameters ≡ ok definition
unfolding transform_form
transform_form-pipes = refl

transform_form-tsv :
    transform_form (tags_parameter "tsv" ∷ [])
    ≡ err (
        invalid_specification
          "The collection format (tsv) is not supported by Connexion as it cannot be mapped to OpenAPI 3.")
unfolding transform_form
transform_form-tsv = refl

transform_form-Describes_example :
    (form : Form) × (definition ≡ form_definition form)
    × ((name : String) → get_field name form.properties ≡ property_named name form_parameters)
    × (form.required ≡ required_names form_parameters)
transform_form-Describes_example =
    transform_form-Describes form_parameters definition transform_form-pipes

abbrev op : Swagger2Operation
op = record {
  method = "post";
  path = "/pets";
  definitions = obj end;
  parameters = form_parameters;
  responses = obj end;
  consumes = [];
  produces = [];
}

body_definition-form : body_definition op (some "multipart/form-data") ≡ ok definition
unfolding body_definition
body_definition-form = refl

body_definition-none : body_definition op none ≡ ok (obj end)
unfolding body_definition
body_definition-none = refl

-- An object without an example of its own has those of its properties.
nested_example-properties :
    nested_example (
      obj (field "properties" (obj (field "id" (obj (field "example" (int false 1) end)) end)) end))
    ≡ ok (obj (field "id" (int false 1) end))
unfolding nested_example
nested_example-properties = refl

abbrev empty_examples : Value
empty_examples = obj (field "200" (obj (field "examples" (obj end) end)) end)

-- Without an example in `examples`, Swagger 2 raises.
example_response_swagger2-empty :
    example_response_swagger2 empty_examples none ≡ err (index_error "list index out of range")
unfolding example_response_swagger2
example_response_swagger2-empty = refl

example_response-lowest :
    example_response
      (obj (
        field "404" (obj end) (
          field "200"
            (obj (
              field "content"
                (obj (field "application/json" (obj (field "example" (str "x") end)) end))
                end))
            end)))
      none
      "application/json"
    ≡ ok (str "x", int false 200)
unfolding example_response
example_response-lowest = refl

get_mimetype-text : get_mimetype ("text/plain" ∷ []) ≡ ok "text/plain"
unfolding get_mimetype
get_mimetype-text = refl

get_path_parameter_types-path :
    get_path_parameter_types_swagger2 (
      obj (
        field "in" (str "path") (
          field "name"
            (str "file")
            (field "type" (str "string") (field "format" (str "path") end))))
      ∷ [])
    ≡ ok (("file", some "path") ∷ [])
unfolding get_path_parameter_types_swagger2
get_path_parameter_types-path = refl

-- ===== src/Middleware/RequestValidation.antt =====
-- connexion/middleware/request_validation.py: the `RequestValidationOperation`.
pub mod Validated
mod Tests
use connexion.Prelude.{
  String, Bool, true, false, Option, none, some, List, [], ◌∷◌, map, ◌==◌, if◌then◌else◌,
}
use connexion.Prelude.Text.{◌<>◌, join, lower}
use connexion.Prelude.Dict
use connexion.Prelude.Dict.{Dict}
use connexion.Value.{Value, truthy}
use connexion.Errors.{
  Exc, key_error, Done, done, unsupported_media_type_problem, Result, ok, err, ◌>>=◌,
}
use connexion.Utils.Media.{extract_content_type, is_nullable}
use connexion.Asgi.{Message, Receive, queue}
use connexion.Datastructures
use connexion.Operations.{AbstractOperation}

-- What a registered validator of bodies is made of, and its `wrapped_receive` on the messages to come;
-- none is a caller that waits.
pub record BodyArguments : Type 0 where
  pub schema : Value
  pub nullable : Bool
  pub encoding : String
  pub strict_validation : Bool

abbrev pub BodyValidator : Type 0
BodyValidator = BodyArguments → List Message → Option (Result Receive)

-- The validators in use: the one of parameters, on the request at hand, and those of bodies.
pub record ValidatorMap : Type 0 where
  pub parameter : Result Done
  pub body : Dict BodyValidator

abbrev pub first_or_octets : List String → String
first_or_octets [] = "application/octet-stream"
first_or_octets (c ∷ cs) = c

abbrev pub or_text : Option String → String → String
or_text none default = default
or_text (some s) default = s

-- the text of a list of texts
abbrev quoted : String → String
quoted s = "'" <> (s <> "'")

unfoldable pub shown : List String → String
unfolding join
shown ss = "[" <> (join ", " (map quoted ss) <> "]")

unfoldable pub any_type : List String → Dict Done
unfolding lower
any_type [] = []
any_type (c ∷ cs) = (lower c, done) ∷ any_type cs

module _ (op : AbstractOperation) where
  unfoldable pub content_type_of : List (String × String) → String × String
  unfolding extract_content_type
  content_type_of headers =
      let (mime_type, encoding) = extract_content_type headers in
      (or_text mime_type (first_or_octets op.consumes), or_text encoding "utf-8")

  unfoldable pub accepted_or : String → Result Bool → Result Done
  unfolding unsupported_media_type_problem shown
  accepted_or mime_type (ok true) = ok done
  accepted_or mime_type (ok false) = err (
      unsupported_media_type_problem
        ("Invalid Content-type (" <> (mime_type <> ("), expected " <> shown op.consumes))))
  accepted_or mime_type (err e) = err e

  unfoldable pub validate_mime_type : String → Result Done
  unfolding Datastructures.contains lower any_type accepted_or
  validate_mime_type mime_type =
      accepted_or mime_type (Datastructures.contains (any_type op.consumes) (lower mime_type))

  module _ (validators : ValidatorMap) (strict_validation : Bool) where
    -- the validator of the body with its arguments
    unfoldable pub run_validator :
        BodyValidator
        → (schema : Value) → (encoding : String) → Result Value
        → List Message
        → Option (Result Receive)
    unfolding is_nullable
    run_validator validator schema encoding (err e) coming = some (err e)
    run_validator validator schema encoding (ok definition) coming =
        validator
          (record {
            schema = schema;
            nullable = is_nullable definition;
            encoding = encoding;
            strict_validation = strict_validation;
          })
          coming

    -- `except KeyError`: the body is not validated
    unfoldable pub receive_of :
        Result BodyValidator
        → (mime_type encoding : String) → (schema : Value) → List Message
        → Option (Result Receive)
    unfolding run_validator
    receive_of (ok validator) mime_type encoding schema coming =
        run_validator validator schema encoding (op.body_definition (some mime_type)) coming
    receive_of (err (Exc.key_error k)) mime_type encoding schema coming =
        some (ok (queue [] coming))
    receive_of (err e) mime_type encoding schema coming = some (err e)

    -- The validation of the body, by the schema that the operation has for it.
    unfoldable pub validate_body :
        (mime_type encoding : String) → Value → List Message → Option (Result Receive)
    unfolding Datastructures.get_item truthy receive_of
    validate_body mime_type encoding schema coming =
        if truthy schema
        then receive_of (Datastructures.get_item validators.body mime_type) mime_type encoding
            schema coming
        else some (ok (queue [] coming))

    unfoldable pub checks : (mime_type : String) → Result Value
    unfolding validate_mime_type
    checks mime_type = validators.parameter >>= λ _.
        validate_mime_type mime_type >>= λ _. op.body_schema (some mime_type)

    unfoldable pub validate_by :
        (mime_type encoding : String) → Result Value → List Message → Option (Result Receive)
    unfolding validate_body
    validate_by mime_type encoding (err e) coming = some (err e)
    validate_by mime_type encoding (ok schema) coming =
        validate_body mime_type encoding schema coming

    module _ {A : Type 0} (next_app : Receive → Option (Result A)) where
      abbrev pub and_next : Option (Result Receive) → Option (Result A)
      and_next none = none
      and_next (some (ok receive_fn)) = next_app receive_fn
      and_next (some (err e)) = some (err e)

      -- `__call__` on the headers of the scope and the messages to come
      unfoldable pub call : List (String × String) → List Message → Option (Result A)
      unfolding content_type_of checks validate_by
      call headers coming =
          let (mime_type, encoding) = content_type_of headers in
          and_next (validate_by mime_type encoding (checks mime_type) coming)

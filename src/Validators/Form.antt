-- ===== src/Validators/Form.antt =====
-- connexion/validators/form_data.py: the `FormDataValidator` and its child for multipart bodies, which
-- differ in the parser of starlette only. The parser of the form, the check of jsonschema and the URI
-- parser are parameters. A form is the list of its items, where a file is an opaque value.
mod Tests
use connexion.Prelude.{
  String, Bool, true, false, not, ◌&&◌, Option, none, some, List, [], ◌∷◌, ◌++◌, ◌==◌,
  if◌then◌else◌, mem, ℕ, eqb,
}
use connexion.Prelude.Text.{◌<>◌, join}
use connexion.Prelude.Dict
use connexion.Prelude.Dict.{Dict}
use connexion.Value.{Value, fields, null, str, arr, opaque, items, of_items, of_fields, obj, truthy}
use connexion.Value.Access.{lookup}
use connexion.Errors.{
  Exc, Done, done, bad_request_problem, problem_exception, Result, ok, err, ◌>>=◌,
}
use connexion.Utils.Cast.{parse_int}
use connexion.Utils.Coerce.{Builtins, coerce_type}
use connexion.Asgi.{Message, Receive, queue, join_bodies}
use connexion.Operations.OpenApi.{entries, empty_dict, get_or}
use connexion.Validators.Json.{ValidationError, full_message}
use connexion.Validators.Json.Request.{read_messages}
use connexion.Validators.Parameter.{wrong_type}

-- `data.getlist(k)`
unfoldable pub values_of : String → List (String × Value) → List Value
values_of k [] = []
values_of k ((j, v) ∷ data_) = let rest = values_of k data_ in if k == j then v ∷ rest else rest

-- `dict(data)`: the keys as they first stand, with their last values
unfoldable pub latest : List (String × Value) → Dict Value
unfolding Dict.update
latest data_ = Dict.update [] data_

abbrev getlist : String → List (String × Value) → Value
getlist k data_ = arr (of_items (values_of k data_))

-- the texts, or the files, each key with all its values
unfoldable pub form_values : (is_text : Bool) → List (String × Value) → Dict Value → Dict Value
unfolding values_of of_items
form_values is_text data_ [] = []
form_values true data_ ((k, str s) ∷ keys) = (k, getlist k data_) ∷ form_values true data_ keys
form_values false data_ ((k, opaque n) ∷ keys) = (k, getlist k data_) ∷ form_values false data_ keys
form_values is_text data_ ((k, v) ∷ keys) = form_values is_text data_ keys

unfoldable pub all_values : List (String × Value) → Dict Value → Dict Value
unfolding values_of of_items
all_values data_ [] = []
all_values data_ ((k, v) ∷ keys) = (k, getlist k data_) ∷ all_values data_ keys

-- the names that the specification has not
unfoldable pub extra : List String → (spec_params : List String) → List String
extra [] spec_params = []
extra (k ∷ ks) spec_params =
    let rest = extra ks spec_params in if mem k spec_params then rest else k ∷ rest

-- `ExtraParameterProblem(errors, [])`
unfoldable pub extra_form_problem : List String → Exc
unfolding join
extra_form_problem names = problem_exception (record {
  status = 400;
  title = null;
  detail = str ("Extra formData parameter(s) " <> (join ", " names <> " not in spec"));
  kind = null;
  instance_ = null;
  headers = [];
  ext = [];
})

abbrev extra_or : List String → Result Done
extra_or [] = ok done
extra_or (k ∷ ks) = err (extra_form_problem (k ∷ ks))

abbrev texts : List String → List Value
texts [] = []
texts (s ∷ ss) = str s ∷ texts ss

-- What the validator is made of, with the check against its schema, its URI parser and the parser of
-- the form.
pub record FormTools : Type 0 where
  pub schema : Value
  pub strict_validation : Bool
  pub schema_error : Value → Option ValidationError
  pub resolve_form : Option (Dict Value → Result (Dict Value))
  pub parse_form : (body : List ℕ) → Result (List (String × Value))

abbrev is_binary : Option Value → Bool
is_binary (some (str s)) = s == "binary"
is_binary v = false

module _ (py : Builtins) (tools : FormTools) where
  abbrev valid_or : Option ValidationError → Result Done
  valid_or none = ok done
  valid_or (some e) = err (bad_request_problem (str (full_message e)))

  -- `_validate`
  unfoldable pub validate_data : Dict Value → Result Done
  unfolding bad_request_problem full_message of_fields
  validate_data data_ = valid_or (tools.schema_error (obj (of_fields data_)))

  -- `not int(self.headers.get("content-length", 0))`
  unfoldable pub is_empty : Option String → Result Bool
  unfolding parse_int
  is_empty none = ok true
  is_empty (some s) = parse_int s >>= λ (negative, n). ok (eqb n 0)

  -- A body that is empty is never read, so that it is checked when the validator is made.
  unfoldable pub check_empty : (content_length : Option String) → Result Done
  unfolding is_empty lookup truthy validate_data
  check_empty content_length = is_empty content_length >>= λ empty.
      if empty && truthy (get_or "required" tools.schema (arr (of_items [])))
      then validate_data []
      else ok done

  abbrev properties : Dict Value
  properties = entries (get_or "properties" tools.schema empty_dict)

  unfoldable pub check_extra : List (String × Value) → Result Done
  unfolding lookup fields extra latest Dict.keys extra_form_problem
  check_extra data_ =
      if tools.strict_validation
      then extra_or (extra (Dict.keys (latest data_)) (Dict.keys properties))
      else ok done

  -- the form as the URI parser reads it, without the files, and then with them
  unfoldable pub resolved :
      Option (Dict Value → Result (Dict Value)) → List (String × Value) → Result (Dict Value)
  unfolding latest form_values all_values Dict.update
  resolved none data_ = ok (all_values data_ (latest data_))
  resolved (some resolve_form) data_ = resolve_form (form_values true data_ (latest data_)) >>= λ d.
      ok (Dict.update d (form_values false data_ (latest data_)))

  -- one value cast by its definition, or the message of a type that is wrong
  unfoldable pub with_coerced :
      String → Result Value → Dict Value × List String → Result (Dict Value × List String)
  unfolding Dict.set
  with_coerced k (ok v) (data_, errs) = ok (Dict.set k v data_, errs)
  with_coerced k (err (Exc.type_validation_error t p n)) (data_, errs) =
      ok (data_, errs ++ wrong_type t p n ∷ [])
  with_coerced k (err e) (data_, errs) = err e

  -- A file is an empty text for the check.
  unfoldable pub coerce_property :
      String → Value → Option Value → Dict Value × List String → Result (Dict Value × List String)
  unfolding lookup coerce_type with_coerced Dict.set
  coerce_property k param_defn none (data_, errs) = ok (data_, errs)
  coerce_property k param_defn (some v) (data_, errs) =
      if is_binary (lookup "format" param_defn)
      then ok (Dict.set k (str "") data_, errs)
      else with_coerced k (coerce_type py param_defn v "requestBody" (some k)) (data_, errs)

  -- the loop over the properties
  unfoldable pub coerce_all :
      Dict Value → Dict Value × List String → Result (Dict Value × List String)
  unfolding coerce_property Dict.get
  coerce_all [] (data_, errs) = ok (data_, errs)
  coerce_all ((k, param_defn) ∷ props) (data_, errs) =
      coerce_property k param_defn (Dict.get k data_) (data_, errs) >>= coerce_all props

  abbrev or_errors : Dict Value × List String → Result Done
  or_errors (data_, []) = validate_data data_
  or_errors (data_, e ∷ errs) = err (bad_request_problem (arr (of_items (texts (e ∷ errs)))))

  -- `validate`
  unfoldable pub validate_form : List (String × Value) → Result Done
  unfolding check_extra resolved coerce_all validate_data bad_request_problem lookup fields of_items
  validate_form data_ = check_extra data_ >>= λ _.
      resolved tools.resolve_form data_ >>= λ d. coerce_all properties (d, []) >>= or_errors

  -- a form without items is not validated
  abbrev validate_given : List (String × Value) → Result Done
  validate_given [] = ok done
  validate_given (item ∷ form) = validate_form (item ∷ form)

  unfoldable pub checked_form : List Message × List Message → Result Receive
  unfolding join_bodies validate_form
  checked_form (messages, rest) = tools.parse_form (join_bodies messages) >>= λ form.
      validate_given form >>= λ _. ok (queue messages rest)

  abbrev checked_or_waits : Option (List Message × List Message) → Option (Result Receive)
  checked_or_waits none = none
  checked_or_waits (some read) = some (checked_form read)

  -- `wrapped_receive`; none is a caller that waits for a message that does not come
  unfoldable pub wrapped_receive_form : List Message → Option (Result Receive)
  unfolding read_messages checked_form
  wrapped_receive_form coming = checked_or_waits (read_messages coming)

-- ===== src/Arguments/Wrapper.antt =====
-- connexion/decorators/parameter.py: `get_arguments`, `prep_kwargs` and the wrapper that
-- `parameter_to_arg` makes, up to the call of the function. Of the two requests, Flask's and
-- starlette's, the parts that are read are the same.
use connexion.Prelude.{String, Bool, ◌&&◌, ◌||◌, List, [], ◌∷◌, if◌then◌else◌, mem}
use connexion.Prelude.Text.{upper}
use connexion.Prelude.Dict
use connexion.Prelude.Dict.{Dict}
use connexion.Value.{Value, null, obj, of_fields, truthy}
use connexion.Errors.{Result, ok, ◌>>=◌}
use connexion.Utils.Media.{is_json_mimetype}
use connexion.Utils.Coerce.{Builtins}
use connexion.Arguments.{Operation, Request}
use connexion.Arguments.Query.{get_path_arguments, get_query_arguments}
use connexion.Arguments.Body.{is_form, get_body_argument, get_file_arguments}

-- `get_flask_body` and `get_starlette_body`
unfoldable pub get_body : Request → Result Value
unfolding is_json_mimetype truthy
get_body request = is_json_mimetype request.content_type >>= λ is_json.
    if is_json
    then request.json
    else if is_form request.mimetype
    then request.form
    else (request.raw_data >>= λ v. ok (if truthy v then v else null))

module _ (py : Builtins) (sanitize : String → String) (operation : Operation)
    (arguments : List String) (has_kwargs : Bool) where
  -- the arguments from the body and the files, onto those so far
  unfoldable pub add_body : Request → Value → Dict Value → Result (Dict Value)
  unfolding upper get_body_argument get_file_arguments Dict.update
  add_body request body ret =
      if mem (upper operation.method) ("PATCH" ∷ "POST" ∷ "PUT" ∷ [])
      then (get_body_argument py sanitize arguments has_kwargs operation request.content_type body
          >>= λ body_arguments. ok (
              Dict.update (Dict.update ret body_arguments)
                (get_file_arguments arguments has_kwargs request.files)))
      else ok ret

  unfoldable pub get_arguments : Request → (body : Value) → Result (Dict Value)
  unfolding get_path_arguments get_query_arguments add_body Dict.update
  get_arguments request body =
      get_path_arguments py sanitize operation.parameters request.path_params >>= λ path_arguments.
      get_query_arguments py sanitize arguments has_kwargs operation.parameters request.query_params
      >>= λ query_arguments.
          add_body request body (Dict.update (Dict.update [] path_arguments) query_arguments)

  -- `{sanitize(k): v for k, v in kwargs.items()}`, onto a dict
  unfoldable pub sanitize_keys : Dict Value → Dict Value → Dict Value
  unfolding Dict.set
  sanitize_keys d [] = d
  sanitize_keys d ((k, v) ∷ kwargs) = sanitize_keys (Dict.set (sanitize k) v d) kwargs

  -- the loop over the context
  unfoldable pub add_context : Dict Value → Dict Value → Dict Value
  unfolding Dict.set
  add_context kwargs [] = kwargs
  add_context kwargs ((key, value) ∷ context) =
      let set_too = add_context (Dict.set key value kwargs) context in
      let skipped = add_context kwargs context in
      if has_kwargs || mem key arguments then set_too else skipped

  unfoldable pub give_context : Dict Value → Dict Value → Dict Value
  unfolding Dict.set of_fields
  give_context context kwargs =
      if mem "context_" arguments
      then Dict.set "context_" (obj (of_fields context)) kwargs
      else kwargs

  unfoldable pub prep_kwargs : Request → (request_body : Value) → Result (Dict Value)
  unfolding get_arguments sanitize_keys add_context give_context
  prep_kwargs request request_body = get_arguments request request_body >>= λ kwargs.
      ok (give_context request.context (add_context (sanitize_keys [] kwargs) request.context))

  -- whether the body is read
  abbrev pub reads_body : Request → (body_name : String) → Bool
  reads_body request body_name =
      (mem body_name arguments || has_kwargs) || (is_form request.mimetype && operation.is_swagger2)

  -- The keyword arguments that the wrapper calls the function with.
  unfoldable pub wrapper : Request → Result (Dict Value)
  unfolding get_body prep_kwargs
  wrapper request = operation.body_name request.content_type >>= λ name.
      (if reads_body request (sanitize name) then get_body request else ok null) >>= λ request_body.
      prep_kwargs request request_body

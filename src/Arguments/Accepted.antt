-- ===== src/Arguments/Accepted.antt =====
-- The keyword arguments that a function without ** is called with.
use connexion.Prelude.{
  String, ◌≡◌, refl, ap, ◌∙◌, subst, ◌⊎◌, inl, inr, Bool, true, false, List, [], ◌∷◌, if◌then◌else◌,
  mem, All, Any,
}
use connexion.Prelude.Dict
use connexion.Prelude.Dict.{Dict}
use connexion.Prelude.Text.{upper}
use connexion.Value.{Value, fields, of_fields}
use connexion.Errors.{Result, ok, err, ◌>>=◌}
use connexion.Utils.Merge.{deep_merge}
use connexion.Utils.Coerce.{Builtins}
use connexion.Arguments.{Operation, Request}
use connexion.Arguments.Values.{get_query_defaults}
use connexion.Arguments.Query.{definitions_in, get_path_arguments, get_query_arguments}
use connexion.Arguments.Body.{get_body_argument, get_file_arguments}
use connexion.Arguments.Wrapper.{
  add_body, get_arguments, sanitize_keys, add_context, give_context, prep_kwargs,
}
use connexion.Arguments.Keys.{
  AllKeys, AllKeysIf, set-AllKeys, update-AllKeys, bind-AllKeysIf, bind_dict-AllKeysIf, IsArgument,
  path_arguments-AllKeys, query_args_helper-AllKeys, get_body_argument-AllKeys,
  get_file_arguments-AllKeys, add_context-AllKeys, give_context-AllKeys,
}

All-map :
    {P Q : String × Value → Type 0} (d : Dict Value)
    → ((p : String × Value) → P p → Q p)
    → All P d
    → All Q d
All-map [] f h = tt
All-map (p ∷ d) f (h, k) = (f p h, All-map d f k)

-- Every parameter of the path is one of them.
each_named :
    (f : String → String) (path_params : Dict Value)
    → All (λ p. Any (λ q. f p.0 ≡ f q.0) path_params) path_params
each_named f [] = tt
each_named f (p ∷ path_params) =
    (inl refl, All-map path_params (λ q h. inr h) (each_named f path_params))

module _ (py : Builtins) (sanitize : String → String) (operation : Operation)
    (arguments : List String) (request : Request) where
  -- an argument of the function, or the name that a parameter of the path gets
  abbrev Named : (String → String) → String → Type 0
  Named f k = IsArgument py sanitize arguments k ⊎ Any (λ p. k ≡ f p.0) request.path_params

  get_query_arguments-AllKeys :
      AllKeysIf
        (IsArgument py sanitize arguments)
        (get_query_arguments py sanitize arguments false operation.parameters request.query_params)
  unfolding get_query_arguments
  get_query_arguments-AllKeys =
      bind-AllKeysIf (IsArgument py sanitize arguments)
        (definitions_in "query" operation.parameters) _
        (λ definitions.
          query_args_helper-AllKeys py sanitize arguments definitions []
            (fields (deep_merge (get_query_defaults definitions) (of_fields request.query_params)))
            tt)

  get_path_arguments-AllKeys :
      AllKeysIf
        (Named sanitize)
        (get_path_arguments py sanitize operation.parameters request.path_params)
  unfolding get_path_arguments
  get_path_arguments-AllKeys =
      bind-AllKeysIf (Named sanitize) (definitions_in "path" operation.parameters) _ (λ definitions.
        path_arguments-AllKeys py sanitize arguments (Named sanitize) definitions []
          request.path_params
          (All-map request.path_params (λ p h. inr h) (each_named sanitize request.path_params)) tt)

  IsArgument-Named :
      (f : String → String) (d : Dict Value)
      → AllKeys (IsArgument py sanitize arguments) d
      → AllKeys (Named f) d
  IsArgument-Named f d h = All-map d (λ p a. inl a) h

  IsArgument-Named_if :
      (f : String → String) (r : Result (Dict Value))
      → AllKeysIf (IsArgument py sanitize arguments) r
      → AllKeysIf (Named f) r
  IsArgument-Named_if f (ok d) h = IsArgument-Named f d h
  IsArgument-Named_if f (err e) h = tt

  add_body-AllKeys :
      (body : Value) (ret : Dict Value)
      → AllKeys (Named sanitize) ret
      → AllKeysIf (Named sanitize) (add_body py sanitize operation arguments false request body ret)
  unfolding add_body
  add_body-AllKeys body ret h = split (mem (upper operation.method) ("PATCH" ∷ "POST" ∷ "PUT" ∷ []))
    where
      split :
          (b : Bool)
          → AllKeysIf (Named sanitize) (
              if b
              then (get_body_argument py sanitize arguments false operation request.content_type
                    body
                  >>= λ body_arguments. ok (
                      Dict.update
                        (Dict.update ret body_arguments)
                        (get_file_arguments arguments false request.files)))
              else ok ret)
      split true =
          bind_dict-AllKeysIf (Named sanitize)
            (get_body_argument py sanitize arguments false operation request.content_type body) _
            (IsArgument-Named_if sanitize _
              (get_body_argument-AllKeys py sanitize arguments operation request.content_type body))
            (λ d k.
              update-AllKeys (Named sanitize) (Dict.update ret d)
                (get_file_arguments arguments false request.files)
                (update-AllKeys (Named sanitize) ret d h k)
                (IsArgument-Named sanitize (get_file_arguments arguments false request.files)
                  (get_file_arguments-AllKeys py sanitize arguments request.files)))
      split false = h

  get_arguments-AllKeys :
      (body : Value)
      → AllKeysIf
          (Named sanitize)
          (get_arguments py sanitize operation arguments false request body)
  unfolding get_arguments
  get_arguments-AllKeys body =
      bind_dict-AllKeysIf (Named sanitize)
        (get_path_arguments py sanitize operation.parameters request.path_params) _
        get_path_arguments-AllKeys
        (λ path h.
          bind_dict-AllKeysIf (Named sanitize)
            (get_query_arguments py sanitize arguments false operation.parameters
              request.query_params)
            _ (IsArgument-Named_if sanitize _ get_query_arguments-AllKeys)
            (λ query k. add_body-AllKeys body (Dict.update (Dict.update [] path) query) (
              update-AllKeys (Named sanitize) (Dict.update [] path) query
                (update-AllKeys (Named sanitize) [] path tt h) k)))

  abbrev twice : String → String
  twice name = sanitize (sanitize name)

  module _ (fixed : (a : String) → mem a arguments ≡ true → sanitize a ≡ a) where
    sanitize-Named : (k : String) → Named sanitize k → Named twice (sanitize k)
    sanitize-Named k (inl a) = inl (ap (λ t. mem t arguments) (fixed k a) ∙ a)
    sanitize-Named k (inr named) = inr (again request.path_params named)
      where
        again :
            (path_params : Dict Value)
            → Any (λ p. k ≡ sanitize p.0) path_params
            → Any (λ p. sanitize k ≡ sanitize (sanitize p.0)) path_params
        again [] h = h
        again (p ∷ path_params) (inl e) = inl (ap sanitize e)
        again (p ∷ path_params) (inr h) = inr (again path_params h)

    sanitize_keys-AllKeys :
        (d kwargs : Dict Value)
        → AllKeys (Named twice) d
        → AllKeys (Named sanitize) kwargs
        → AllKeys (Named twice) (sanitize_keys py sanitize operation arguments false d kwargs)
    unfolding sanitize_keys
    sanitize_keys-AllKeys d [] h k = h
    sanitize_keys-AllKeys d ((j, v) ∷ kwargs) h (named, k) =
        sanitize_keys-AllKeys (Dict.set (sanitize j) v d) kwargs
          (set-AllKeys (Named twice) (sanitize j) v d (sanitize-Named j named) h) k

    -- What a function without ** is called with is one of its arguments, or is named as a parameter of
    -- the path: nothing of the query, the body, the files or the context is passed under a name that
    -- the function has not. The sanitizing of names, which is applied twice, leaves those of the
    -- function's arguments as they are.
    pub prep_kwargs-Named :
        (request_body : Value) (kwargs : Dict Value)
        → prep_kwargs py sanitize operation arguments false request request_body ≡ ok kwargs
        → AllKeys
            (λ k.
              (mem k arguments ≡ true) ⊎ Any (λ p. k ≡ sanitize (sanitize p.0)) request.path_params)
            kwargs
    unfolding prep_kwargs
    prep_kwargs-Named body kwargs e = subst (AllKeysIf (Named twice)) e (
        go (get_arguments py sanitize operation arguments false request body)
          (get_arguments-AllKeys body))
      where
        go :
            (r : Result (Dict Value))
            → AllKeysIf (Named sanitize) r
            → AllKeysIf (Named twice) (
                r >>= λ kwargs. ok (
                  give_context py sanitize operation arguments false request.context (
                    add_context py sanitize operation arguments false
                      (sanitize_keys py sanitize operation arguments false [] kwargs)
                      request.context)))
        go (err e) h = tt
        go (ok d) h =
            give_context-AllKeys py sanitize arguments (Named twice) operation request.context
              (add_context py sanitize operation arguments false
                (sanitize_keys py sanitize operation arguments false [] d) request.context)
              (λ k a. inl a)
              (add_context-AllKeys py sanitize arguments (Named twice) operation
                (sanitize_keys py sanitize operation arguments false [] d) request.context
                (λ k a. inl a) (sanitize_keys-AllKeys [] d tt h))

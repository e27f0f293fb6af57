-- ===== src/Arguments/Keys.antt =====
-- The keys of the dicts of arguments, step by step, for a function without **.
use connexion.Prelude.{
  String, ◌≡◌, refl, inl, inr, Bool-cases, Bool, true, false, not, ◌&&◌, ◌||◌, Option, none, some,
  List, [], ◌∷◌, ◌==◌, if◌then◌else◌, mem, All, length, leb, arith,
}
use connexion.Prelude.Dict
use connexion.Prelude.Dict.{Dict}
use connexion.Value.{Value, obj, of_fields}
use connexion.Errors.{Result, ok, err, ◌>>=◌}
use connexion.Utils.Coerce.{Builtins}
use connexion.Arguments.{Operation}
use connexion.Arguments.Values.{get_val_from_param}
use connexion.Arguments.Query.{path_value, path_arguments, takes, with_defined, query_args_helper}
use connexion.Arguments.Body.{
  is_form, get_body_argument_form, get_body_argument_json, named_body, form_arguments, form_body,
  body_argument, get_body_argument, get_file_arguments,
}
use connexion.Arguments.Wrapper.{add_context, give_context}

-- Every key of the dict has the property.
abbrev pub AllKeys : (String → Type 0) → Dict Value → Type 0
AllKeys R d = All (λ p. R p.0) d

-- What a step that returns gives has the property for all keys.
abbrev pub AllKeysIf : (String → Type 0) → Result (Dict Value) → Type 0
AllKeysIf R (ok d) = AllKeys R d
AllKeysIf R (err e) = Unit

module _ (R : String → Type 0) where
  pub set-AllKeys :
      (k : String) (v : Value) (d : Dict Value) → R k → AllKeys R d → AllKeys R (Dict.set k v d)
  unfolding Dict.set
  set-AllKeys k v [] r h = (r, tt)
  set-AllKeys k v ((j, w) ∷ d) r (s, h) = elim (Bool-cases (k == j)) [
    | inl same ↦ rw same (s, h)
    | inr other ↦ rw other (s, set-AllKeys k v d r h)
  ]

  pub update-AllKeys : (d e : Dict Value) → AllKeys R d → AllKeys R e → AllKeys R (Dict.update d e)
  unfolding Dict.update
  update-AllKeys d [] h k = h
  update-AllKeys d ((j, v) ∷ e) h (r, k) =
      update-AllKeys (Dict.set j v d) e (set-AllKeys j v d r h) k

  pub bind-AllKeysIf :
      {A : Type 0} (r : Result A) (next : A → Result (Dict Value))
      → ((a : A) → AllKeysIf R (next a))
      → AllKeysIf R (r >>= next)
  bind-AllKeysIf (ok a) next h = h a
  bind-AllKeysIf (err e) next h = tt

  -- a step that returns a dict with the property, and then another
  pub bind_dict-AllKeysIf :
      (r : Result (Dict Value)) (next : Dict Value → Result (Dict Value))
      → AllKeysIf R r
      → ((d : Dict Value) → AllKeys R d → AllKeysIf R (next d))
      → AllKeysIf R (r >>= next)
  bind_dict-AllKeysIf (ok d) next k h = h d k
  bind_dict-AllKeysIf (err e) next k h = tt

module _ (py : Builtins) (sanitize : String → String) (arguments : List String) where
  abbrev pub IsArgument : String → Type 0
  IsArgument k = mem k arguments ≡ true

  module _ (R : String → Type 0) where
    pub path_arguments-AllKeys :
        (path_definitions kwargs path_params : Dict Value)
        → All (λ p. R (sanitize p.0)) path_params
        → AllKeys R kwargs
        → AllKeysIf R (path_arguments py sanitize path_definitions kwargs path_params)
    unfolding path_arguments
    path_arguments-AllKeys path_definitions kwargs [] named h = h
    path_arguments-AllKeys path_definitions kwargs ((name, value) ∷ path_params) (r, named) h =
        bind-AllKeysIf R (path_value py sanitize (Dict.get name path_definitions) value) _ (λ v.
          path_arguments-AllKeys path_definitions (Dict.set (sanitize name) v kwargs) path_params
            named (set-AllKeys R (sanitize name) v kwargs r h))

  takes-IsArgument :
      (name : String) → takes py sanitize arguments false name ≡ true → IsArgument name
  takes-IsArgument name h = ground arith

  with_defined-AllKeys :
      (k : String) (v : Value) (o : Option Value) (result : Dict Value)
      → IsArgument k
      → AllKeys IsArgument result
      → AllKeysIf IsArgument (with_defined py sanitize arguments false k v o result)
  unfolding with_defined
  with_defined-AllKeys k v none result a h = h
  with_defined-AllKeys k v (some definition) result a h =
      bind-AllKeysIf IsArgument (get_val_from_param py v definition) _
        (λ w. set-AllKeys IsArgument k w result a h)

  query_step-AllKeys :
      (b : Bool) (k : String) (v : Value) (o : Option Value) (result : Dict Value)
      → (b ≡ true → IsArgument k)
      → AllKeys IsArgument result
      → AllKeysIf IsArgument
          (if b then with_defined py sanitize arguments false k v o result else ok result)
  query_step-AllKeys true k v o result a h = with_defined-AllKeys k v o result (a refl) h
  query_step-AllKeys false k v o result a h = h

  pub query_args_helper-AllKeys :
      (definitions result query_arguments : Dict Value)
      → AllKeys IsArgument result
      → AllKeysIf IsArgument
          (query_args_helper py sanitize arguments false definitions result query_arguments)
  unfolding query_args_helper
  query_args_helper-AllKeys definitions result [] h = h
  query_args_helper-AllKeys definitions result ((key, value) ∷ query_arguments) h =
      bind_dict-AllKeysIf IsArgument _ _
        (query_step-AllKeys (takes py sanitize arguments false (sanitize key)) (sanitize key) value
          (Dict.get key definitions) result (takes-IsArgument (sanitize key)) h)
        (λ d k. query_args_helper-AllKeys definitions d query_arguments k)

  named_body-AllKeys :
      (name : String) (v : Value)
      → AllKeys IsArgument (named_body py sanitize arguments false name v)
  named_body-AllKeys name v = split (mem name arguments) refl
    where
      split :
          (b : Bool)
          → mem name arguments ≡ b
          → AllKeys IsArgument (if b || false then (name, v) ∷ [] else [])
      split true e = (e, tt)
      split false e = tt

  form_arguments-AllKeys :
      (kwargs result : Dict Value)
      → AllKeys IsArgument kwargs
      → AllKeys IsArgument (form_arguments py sanitize arguments false kwargs result)
  unfolding form_arguments
  form_arguments-AllKeys kwargs [] h = h
  form_arguments-AllKeys kwargs ((name, value) ∷ result) h =
      elim (Bool-cases (mem (sanitize name) arguments)) [
        | inl taken ↦ rw taken (
            form_arguments-AllKeys (Dict.set (sanitize name) value kwargs) result
              (set-AllKeys IsArgument (sanitize name) value kwargs taken h))
        | inr left ↦ rw left (form_arguments-AllKeys kwargs result h)
      ]

  form_body-AllKeys :
      (operation : Operation) (name : String) (result : Dict Value)
      → AllKeys IsArgument (form_body py sanitize arguments false operation name result)
  unfolding form_body
  form_body-AllKeys operation name result = split (operation.is_swagger2)
    where
      split :
          (b : Bool)
          → AllKeys IsArgument (
              if b
              then form_arguments py sanitize arguments false [] result
              else named_body py sanitize arguments false name (obj (of_fields result)))
      split true = form_arguments-AllKeys [] result tt
      split false = named_body-AllKeys name (obj (of_fields result))

  body_argument-AllKeys :
      (operation : Operation) (content_type : Option String) (body : Value) (name : String)
      → AllKeysIf IsArgument
          (body_argument py sanitize arguments false operation content_type body name)
  unfolding body_argument
  body_argument-AllKeys operation content_type body name = split (is_form content_type)
    where
      split :
          (b : Bool)
          → AllKeysIf IsArgument (
              if b
              then (get_body_argument_form py operation content_type body >>= λ result.
                  ok (form_body py sanitize arguments false operation name result))
              else (get_body_argument_json operation content_type body >>= λ result.
                  ok (named_body py sanitize arguments false name result)))
      split true =
          bind-AllKeysIf IsArgument (get_body_argument_form py operation content_type body) _
            (λ result. form_body-AllKeys operation name result)
      split false =
          bind-AllKeysIf IsArgument (get_body_argument_json operation content_type body) _
            (λ result. named_body-AllKeys name result)

  pub get_body_argument-AllKeys :
      (operation : Operation) (content_type : Option String) (body : Value)
      → AllKeysIf IsArgument
          (get_body_argument py sanitize arguments false operation content_type body)
  unfolding get_body_argument
  get_body_argument-AllKeys operation content_type body =
      split (leb (length arguments) 0 && not false)
    where
      split :
          (b : Bool)
          → AllKeysIf IsArgument (
              if b
              then ok []
              else (operation.body_name content_type >>= λ name.
                  body_argument py sanitize arguments false operation content_type body
                    (sanitize name)))
      split true = tt
      split false =
          bind-AllKeysIf IsArgument (operation.body_name content_type) _
            (λ name. body_argument-AllKeys operation content_type body (sanitize name))

  pub get_file_arguments-AllKeys :
      (files : Dict Value) → AllKeys IsArgument (get_file_arguments arguments false files)
  unfolding get_file_arguments
  get_file_arguments-AllKeys [] = tt
  get_file_arguments-AllKeys ((k, v) ∷ files) =
      split (mem k arguments) refl (get_file_arguments-AllKeys files)
    where
      split :
          (b : Bool)
          → mem k arguments ≡ b
          → AllKeys IsArgument (get_file_arguments arguments false files)
          → AllKeys IsArgument (
              if b || false
              then (k, v) ∷ get_file_arguments arguments false files
              else get_file_arguments arguments false files)
      split true e h = (e, h)
      split false e h = h

  pub add_context-AllKeys :
      (R : String → Type 0) (operation : Operation) (kwargs context : Dict Value)
      → ((k : String) → IsArgument k → R k)
      → AllKeys R kwargs
      → AllKeys R (add_context py sanitize operation arguments false kwargs context)
  unfolding add_context
  add_context-AllKeys R operation kwargs [] r h = h
  add_context-AllKeys R operation kwargs ((key, value) ∷ context) r h =
      elim (Bool-cases (mem key arguments)) [
        | inl taken ↦ rw taken (
            add_context-AllKeys R operation (Dict.set key value kwargs) context r
              (set-AllKeys R key value kwargs (r key taken) h))
        | inr left ↦ rw left (add_context-AllKeys R operation kwargs context r h)
      ]

  pub give_context-AllKeys :
      (R : String → Type 0) (operation : Operation) (context kwargs : Dict Value)
      → ((k : String) → IsArgument k → R k)
      → AllKeys R kwargs
      → AllKeys R (give_context py sanitize operation arguments false context kwargs)
  unfolding give_context
  give_context-AllKeys R operation context kwargs r h =
      elim (Bool-cases (mem "context_" arguments)) [
        | inl taken ↦
            rw taken
              (set-AllKeys R "context_" (obj (of_fields context)) kwargs (r "context_" taken) h)
        | inr left ↦ rw left h
      ]

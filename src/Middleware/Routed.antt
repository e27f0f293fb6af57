-- ===== src/Middleware/Routed.antt =====
-- connexion/middleware/abstract.py: `RoutedAPI` and `RoutedMiddleware`. An operation of a specification
-- and its routed operation are of any type; making them is a parameter.
pub mod Registered
pub mod Dispatch
use connexion.Prelude.{
  String, Bool, true, false, Option, none, some, List, [], ◌∷◌, ◌==◌, if◌then◌else◌, mem,
}
use connexion.Prelude.Dict
use connexion.Prelude.Dict.{Dict}
use connexion.Errors.{Exc, missing_middleware, missing_operation, Result, ok, err, ◌>>=◌}

-- `METHODS` of connexion/http_facts.py
abbrev pub methods_known : List String
methods_known = "get" ∷ "put" ∷ "post" ∷ "delete" ∷ "options" ∷ "head" ∷ "patch" ∷ "trace" ∷ []

module _ {Routed : Type 0} (make : (path method : String) → Result (String × Routed)) where
  -- `except ResolverError: pass`
  unfoldable pub register : Result (String × Routed) → Dict Routed → Result (Dict Routed)
  unfolding Dict.set
  register (ok (operation_id, routed)) operations = ok (Dict.set operation_id routed operations)
  register (err (Exc.resolver_error m)) operations = ok operations
  register (err e) operations = err e

  unfoldable pub add_methods : String → List String → Dict Routed → Result (Dict Routed)
  unfolding register
  add_methods path [] operations = ok operations
  add_methods path (method ∷ methods) operations =
      (if mem method methods_known then register (make path method) operations else ok operations)
      >>= λ operations'. add_methods path methods operations'

  -- `RoutedAPI.add_paths`, of the paths with their methods, onto the operations so far
  unfoldable pub add_paths : Dict (List String) → Dict Routed → Result (Dict Routed)
  unfolding add_methods
  add_paths [] operations = ok operations
  add_paths ((path, methods) ∷ paths) operations =
      add_methods path methods operations >>= λ operations'. add_paths paths operations'

-- What the routing middleware leaves in the scope.
pub record RoutingContext : Type 0 where
  pub api_base_path : Option String
  pub operation_id : Option String

module _ {Scope A : Type 0} (app : Scope → Result A) where
  abbrev pub Apis : Type 0
  Apis = Dict (Dict (Scope → Result A))

  -- the operation that is found, or none, for an operation id
  unfoldable pub run_operation : Option (Scope → Result A) → Option String → Scope → Result A
  run_operation (some operation) operation_id scope = operation scope
  run_operation none none scope = app scope
  run_operation none (some operation_id) scope =
      err (missing_operation "Encountered unknown operation_id.")

  unfoldable pub find : Dict (Scope → Result A) → Option String → Option (Scope → Result A)
  unfolding Dict.get
  find operations none = none
  find operations (some operation_id) = Dict.get operation_id operations

  unfoldable pub run_api : Option (Dict (Scope → Result A)) → Option String → Scope → Result A
  unfolding run_operation find
  run_api none operation_id scope = app scope
  run_api (some operations) operation_id scope =
      run_operation (find operations operation_id) operation_id scope

  unfoldable pub api_at : Apis → Option String → Option (Dict (Scope → Result A))
  unfolding Dict.get
  api_at apis none = none
  api_at apis (some api_base_path) = Dict.get api_base_path apis

  -- `RoutedMiddleware.__call__`, on the type of the scope and the routing context in it
  unfoldable pub call : Apis → (kind : String) → Option RoutingContext → Scope → Result A
  unfolding run_api api_at
  call apis kind context scope =
      if kind == "http"
      then (elim context [
        | none ↦ err (missing_middleware "Could not find routing information in scope.")
        | some c ↦ run_api (api_at apis c.api_base_path) c.operation_id scope
      ])
      else app scope

-- ===== src/Resolvers.antt =====
-- connexion/resolver.py: what names the function of an operation, and what finds it. The function
-- resolver is a parameter, as it is an argument of the classes; connexion.Utils.Import models the
-- one that is taken by default.
pub mod Rest
pub mod Views
pub mod Mock
pub mod Caught
mod Tests
use connexion.Prelude.{String, Option, none, some}
use connexion.Prelude.Text.{◌<>◌}
use connexion.Errors.{Exc, resolver_error, Result, ok, err, ◌>>=◌}
use connexion.Utils.Import.{dotted}

-- What the resolvers read of an operation.
pub record Operation : Type 0 where
  pub operation_id : Option String
  pub router_controller : Option String
  pub path : String
  pub method : String

pub record Resolution (Obj : Type 0) : Type 0 where
  pub function : Obj
  pub operation_id : Option String

-- an operation id in an f-string
abbrev pub text_of : Option String → String
text_of none = "None"
text_of (some s) = s

-- `Resolver.resolve_operation_id`
unfoldable pub resolve_operation_id : Operation → Option String
resolve_operation_id operation = elim (operation.router_controller) [
  | none ↦ operation.operation_id
  | some router_controller ↦ some (dotted router_controller (text_of operation.operation_id))
]

-- `RelativeResolver.resolve_operation_id`
unfoldable pub resolve_operation_id_relative : (root_path : String) → Operation → String
resolve_operation_id_relative root_path operation = elim (operation.router_controller) [
  | none ↦ dotted root_path (text_of operation.operation_id)
  | some router_controller ↦ dotted router_controller (text_of operation.operation_id)
]

abbrev import_message : Option String → String → String
import_message operation_id message =
    "Cannot resolve operationId \""
    <> (text_of operation_id <> ("\"! Import error was \"" <> (message <> "\"")))

-- the `except` clauses of the resolvers
unfoldable pub as_resolver_error {ℓ} : {A : Type ℓ} → Option String → Result A → Result A
as_resolver_error operation_id (err (Exc.import_error m)) =
    err (resolver_error (import_message operation_id m))
as_resolver_error operation_id (err (Exc.attribute_error m)) = err (resolver_error m)
as_resolver_error operation_id (err (Exc.value_error m)) = err (resolver_error m)
as_resolver_error operation_id r = r

module _ {Obj : Type 0} (function_resolver : Option String → Result Obj) where
  unfoldable pub resolve_function_from_operation_id : Option String → Result Obj
  unfolding as_resolver_error
  resolve_function_from_operation_id operation_id =
      as_resolver_error operation_id (function_resolver operation_id)

  -- `Resolver.resolve`, for whatever names the operation
  unfoldable pub resolve :
      (Operation → Result (Option String)) → Operation → Result (Resolution Obj)
  unfolding resolve_function_from_operation_id
  resolve resolve_id operation = resolve_id operation >>= λ operation_id.
      resolve_function_from_operation_id operation_id >>= λ function.
      ok (record { function = function; operation_id = operation_id })

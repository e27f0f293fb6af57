-- ===== src/Apis/Routing.antt =====
-- connexion/apis/abstract.py: `AbstractRoutingAPI.add_paths`. Making an operation of a path and a method
-- is a parameter; the router is the list of the routes that are added to it.
pub mod Built
use connexion.Prelude.{String, Bool, Option, none, some, List, [], ◌∷◌, ◌++◌, if◌then◌else◌, mem}
use connexion.Prelude.Dict.{Dict}
use connexion.Errors.{Exc, Result, ok, err, ◌>>=◌}
use connexion.Middleware.Routed.{methods_known}

-- What `add_operation` comes to: an operation, a `ResolverError` with its reason and the exception that
-- it holds as `exc_info`, or any other exception.
pub data Attempt (Op : Type 0) : Type 0 where
  made : Op → Attempt Op
  unresolved : (reason : String) → (exc_info : Exc) → Attempt Op
  failed : Exc → Attempt Op

pub record Route (Op : Type 0) : Type 0 where
  pub method : String
  pub path : String
  pub operation : Op

module _ {Op : Type 0} (add_operation : (path method : String) → Attempt Op)
    (resolver_error_handler : Option (String → Op)) where
  -- `_add_operation_internal`
  abbrev pub route : (path method : String) → Op → Route Op
  route path method operation = record { method = method; path = path; operation = operation }

  -- `_add_resolver_error_handler`, or `_handle_add_operation_error` where there is no handler
  unfoldable pub add_unresolved :
      (path method reason : String)
      → Exc
      → Option (String → Op)
      → List (Route Op)
      → Result (List (Route Op))
  add_unresolved path method reason exc_info none routes = err exc_info
  add_unresolved path method reason exc_info (some handler) routes =
      ok (routes ++ route path method (handler reason) ∷ [])

  unfoldable pub add_attempt :
      (path method : String) → Attempt Op → List (Route Op) → Result (List (Route Op))
  unfolding add_unresolved
  add_attempt path method (made operation) routes = ok (routes ++ route path method operation ∷ [])
  add_attempt path method (unresolved reason exc_info) routes =
      add_unresolved path method reason exc_info resolver_error_handler routes
  add_attempt path method (failed e) routes = err e

  -- the loop over the methods of a path
  unfoldable pub add_each : String → List String → List (Route Op) → Result (List (Route Op))
  unfolding add_attempt
  add_each path [] routes = ok routes
  add_each path (method ∷ methods) routes =
      (if mem method methods_known
        then add_attempt path method (add_operation path method) routes
        else ok routes)
      >>= λ routes'. add_each path methods routes'

  unfoldable pub add_all : Dict (List String) → List (Route Op) → Result (List (Route Op))
  unfolding add_each
  add_all [] routes = ok routes
  add_all ((path, methods) ∷ paths) routes =
      add_each path methods routes >>= λ routes'. add_all paths routes'

-- `paths or self.specification.get("paths", dict())`
abbrev pub paths_or : Option (Dict (List String)) → Dict (List String) → Dict (List String)
paths_or none specified = specified
paths_or (some []) specified = specified
paths_or (some (p ∷ paths)) specified = p ∷ paths

module _ {Op : Type 0} (add_operation : (path method : String) → Attempt Op)
    (resolver_error_handler : Option (String → Op)) where
  -- `AbstractRoutingAPI.add_paths`
  unfoldable pub add_routes :
      Option (Dict (List String))
      → (specified : Dict (List String)) → List (Route Op)
      → Result (List (Route Op))
  unfolding add_all
  add_routes paths specified routes =
      add_all add_operation resolver_error_handler (paths_or paths specified) routes

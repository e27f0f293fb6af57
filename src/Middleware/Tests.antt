-- ===== src/Middleware/Tests.antt =====
-- The stack of middlewares and the dispatch to operations on concrete inputs.
use connexion.Prelude.{ℕ, String, ◌≡◌, refl, some, List, [], ◌∷◌, inl, inr, ◌==◌, if◌then◌else◌}
use connexion.Value.{null}
use connexion.Prelude.Dict
use connexion.Prelude.Dict.{Dict}
use connexion.Middleware.Exceptions.{handle}
use connexion.Middleware.Exceptions.Status.{HasStatusIf, handle-HasStatus}
use connexion.Errors.{oauth_scope_problem, Result, ok, err, resolver_error, missing_operation}
use connexion.Middleware.Stack.{apply_middlewares}
use connexion.Middleware.Stack.Nested.{wrapped_in, layers, apply_middlewares-nested}
use connexion.Middleware.Routed.{add_paths, call}
use connexion.Middleware.Routed.Dispatch.{context_of, call-Made}
use connexion.Middleware.Routed.Registered.{Made}

-- An app is the list of the names of what a request passes.
abbrev exceptions : List String → List String
exceptions app = "exceptions" ∷ app

abbrev routing : List String → List String
routing app = "routing" ∷ app

abbrev application : List String
application = "application" ∷ []

apply_middlewares-nested_example : apply_middlewares application (exceptions ∷ routing ∷ []) ≡ (
  exceptions (routing application),
  exceptions (routing application) ∷ routing application ∷ [],
)
unfolding wrapped_in layers
apply_middlewares-nested_example = apply_middlewares-nested application (exceptions ∷ routing ∷ [])

-- Only GET has a function.
abbrev operation_for : (path method : String) → Result (String × (ℕ → Result ℕ))
operation_for path method =
    if method == "get" then ok ("list_pets", λ scope. ok 7) else err (resolver_error "no function")

abbrev paths : Dict (List String)
paths = ("/pets", "parameters" ∷ "get" ∷ "post" ∷ []) ∷ []

abbrev operations : Dict (ℕ → Result ℕ)
operations = ("list_pets", λ scope. ok 7) ∷ []

abbrev pass : ℕ → Result ℕ
pass scope = ok scope

add_paths-get : add_paths operation_for paths [] ≡ ok operations
unfolding add_paths
add_paths-get = refl

call-Made_example :
    (run : ℕ → Result ℕ) × Made operation_for "list_pets" run
    × (call pass
          (("/v1", operations) ∷ [])
          "http"
          (some (context_of pass operation_for "/v1" "list_pets"))
          0
        ≡ run 0)
unfolding Dict.get add_paths
call-Made_example =
    call-Made pass operation_for paths operations (("/v1", operations) ∷ []) "/v1" "/pets" "get"
      "list_pets" (λ scope. ok 7) 0 refl refl (inl (refl, inr (inl refl))) refl refl

-- An operation that is not known is not passed by either.
call-unknown :
    call pass
      (("/v1", operations) ∷ [])
      "http"
      (some (context_of pass operation_for "/v1" "other"))
      0
    ≡ err (missing_operation "Encountered unknown operation_id.")
unfolding call
call-unknown = refl

handle-HasStatus_example :
    HasStatusIf 403 (handle (oauth_scope_problem "no scope" ("write" ∷ []) null))
unfolding connexion.Errors.status_of
handle-HasStatus_example = handle-HasStatus (oauth_scope_problem "no scope" ("write" ∷ []) null) tt

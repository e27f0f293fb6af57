-- ===== src/Resolvers/Mock.antt =====
-- connexion/mock.py and connexion/handlers.py: the `MockResolver`, whose state is the counter of the
-- ids that it makes up, and the handler of operations that are not resolved.
pub mod Fresh
use connexion.Prelude.{ℕ, suc, String, Bool, Option, none, some, List, [], ◌∷◌, if◌then◌else◌}
use connexion.Prelude.Text.{◌<>◌}
use connexion.Prelude.Decimal.{decimal}
use connexion.Value.{Value, null, str}
use connexion.Errors.{Exc, resolver_problem, Result, ok, err, ◌>>=◌}
use connexion.Resolvers.{
  Operation, Resolution, text_of, resolve_operation_id, resolve_function_from_operation_id,
}
use connexion.Resolvers.Rest.{given}

abbrev pub mock_id : ℕ → String
mock_id counter = "mock-" <> decimal counter

-- The id, and the counter after it.
unfoldable pub next_id : Operation → ℕ → ℕ × Option String
unfolding decimal resolve_operation_id
next_id operation counter =
    let operation_id = resolve_operation_id operation in
    if given operation_id then (counter, operation_id) else (suc counter, some (mock_id counter))

module _ {Obj : Type 0} (function_resolver : Option String → Result Obj) (mock_all : Bool)
    (mock_operation : Operation → Obj) where
  -- `except ResolverError`
  abbrev pub or_mock : Operation → Result Obj → Result Obj
  or_mock operation (err (Exc.resolver_error m)) = ok (mock_operation operation)
  or_mock operation r = r

  unfoldable pub find_function : Operation → Option String → Result Obj
  unfolding resolve_function_from_operation_id
  find_function operation operation_id =
      if mock_all
      then ok (mock_operation operation)
      else or_mock operation (resolve_function_from_operation_id function_resolver operation_id)

  -- `MockResolver.resolve`
  unfoldable pub resolve_mock : Operation → ℕ → ℕ × Result (Resolution Obj)
  unfolding next_id find_function
  resolve_mock operation counter =
      let (counter', operation_id) = next_id operation counter in
      (
        counter',
        find_function operation operation_id >>= λ function.
            ok (record { function = function; operation_id = operation_id }),
      )

  abbrev pub returned_id : Result (Resolution Obj) → List String → List String
  returned_id (err e) ids = ids
  returned_id (ok resolution) ids = text_of resolution.operation_id ∷ ids

  -- the ids in the resolutions of the operations that have none, of operations resolved in turn
  unfoldable pub made_up : List Operation → ℕ → List String
  unfolding resolve_mock resolve_operation_id
  made_up [] counter = []
  made_up (operation ∷ operations) counter =
      let (counter', resolution) = resolve_mock operation counter in
      let ids = made_up operations counter' in
      if given (resolve_operation_id operation) then ids else returned_id resolution ids

-- `MockResolver.mock_operation`, of what `operation.example_response()` gives
unfoldable pub mock_operation : Value × ℕ → Value × ℕ
mock_operation (null, code) = (str "No example response was defined.", code)
mock_operation (resp, code) = (resp, code)

-- `ResolverErrorHandler.handle` and `__call__`, whatever the request
unfoldable pub handle {ℓ} : {A : Type ℓ} → (status_code : ℕ) → (reason : String) → Result A
unfolding resolver_problem
handle status_code reason = err (resolver_problem status_code "Not Implemented" reason)

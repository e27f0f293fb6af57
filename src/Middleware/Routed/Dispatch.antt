-- ===== src/Middleware/Routed/Dispatch.antt =====
-- What the middleware calls for an operation of its API.
use connexion.Prelude.{String, ◌≡◌, ap, ◌∙◌, true, some, List, [], mem}
use connexion.Prelude.Dict
use connexion.Prelude.Dict.{Dict}
use connexion.Errors.{Result, ok}
use connexion.Middleware.Routed.{
  methods_known, add_paths, RoutingContext, find, run_operation, run_api, api_at, call,
}
use connexion.Middleware.Routed.Registered.{Declares, Made, add_paths-Registered}

module _ {Scope A : Type 0} (app : Scope → Result A)
    (make : (path method : String) → Result (String × (Scope → Result A))) where
  abbrev pub context_of : (base_path operation_id : String) → RoutingContext
  context_of base_path operation_id = record {
    api_base_path = some base_path;
    operation_id = some operation_id;
  }

  call-found :
      (apis : Dict (Dict (Scope → Result A))) (operations : Dict (Scope → Result A))
      (base_path id : String) (routed : Scope → Result A) (scope : Scope)
      → Dict.get base_path apis ≡ some operations
      → Dict.get id operations ≡ some routed
      → call app apis "http" (some (context_of base_path id)) scope ≡ routed scope
  unfolding call run_api api_at find run_operation
  call-found apis operations base_path id routed scope has_api has_id =
      ap (λ o. run_api app o (some id) scope) has_api
      ∙ ap (λ o. run_operation app o (some id) scope) has_id

  -- A request that is routed to an operation, which the specification declares and which could be made,
  -- runs an operation made with its id: the middleware is not passed by.
  pub call-Made :
      (paths : Dict (List String)) (operations : Dict (Scope → Result A))
      (apis : Dict (Dict (Scope → Result A))) (base_path path method id : String)
      (routed : Scope → Result A) (scope : Scope)
      → make path method ≡ ok (id, routed)
      → mem method methods_known ≡ true
      → Declares paths path method
      → add_paths make paths [] ≡ ok operations
      → Dict.get base_path apis ≡ some operations
      → (run : Scope → Result A) × Made make id run
        × (call app apis "http" (some (context_of base_path id)) scope ≡ run scope)
  call-Made paths operations apis base_path path method id routed scope made known declared added
        has_api =
      let (run, has_id, made_run) =
        add_paths-Registered make path method id routed made known paths [] operations declared
          added in
      (run, made_run, call-found apis operations base_path id run scope has_api has_id)

-- ===== src/Apis/Routing/Built.antt =====
-- A router with a handler for operations that are not resolved has a route for every operation.
use connexion.Prelude.{
  String, ◌≡◌, refl, sym, ap, ◌∙◌, Bool, true, false, none, some, List, [], ◌∷◌, ◌++◌, append-nil,
  append_assoc, if◌then◌else◌, mem, All,
}
use connexion.Prelude.Dict.{Dict}
use connexion.Errors.{Result, ok, ◌>>=◌}
use connexion.Middleware.Routed.{methods_known}
use connexion.Apis.Routing.{
  Attempt, made, unresolved, failed, Route, route, add_attempt, add_each, add_all, add_routes,
}

module _ {Op : Type 0} (add_operation : (path method : String) → Attempt Op)
    (handler : String → Op) where
  -- No attempt ends with an exception other than a `ResolverError`.
  abbrev pub IsTried : Attempt Op → Type 0
  IsTried (failed e) = ⊥
  IsTried a = Unit

  abbrev pub AreTried : String → List String → Type 0
  AreTried path methods =
      All (λ method. mem method methods_known ≡ true → IsTried (add_operation path method)) methods

  abbrev operation_or : Attempt Op → List Op
  operation_or (made operation) = operation ∷ []
  operation_or (unresolved reason exc_info) = handler reason ∷ []
  operation_or (failed e) = []

  abbrev routes_at : (path method : String) → List Op → List (Route Op)
  routes_at path method [] = []
  routes_at path method (operation ∷ ops) =
      route add_operation (some handler) path method operation ∷ []

  -- the route of one method of a path
  unfoldable pub planned_route : (path method : String) → List (Route Op)
  planned_route path method =
      if mem method methods_known
      then routes_at path method (operation_or (add_operation path method))
      else []

  unfoldable pub planned_at : String → List String → List (Route Op)
  unfolding planned_route
  planned_at path [] = []
  planned_at path (method ∷ methods) = planned_route path method ++ planned_at path methods

  -- the routes of the known methods of all paths, in their order, with the operation that is made or the
  -- one of the handler
  unfoldable pub planned : Dict (List String) → List (Route Op)
  unfolding planned_at
  planned [] = []
  planned ((path, methods) ∷ paths) = planned_at path methods ++ planned paths

  abbrev step : (path method : String) → List (Route Op) → Result (List (Route Op))
  step path method routes =
      if mem method methods_known
      then add_attempt add_operation (some handler) path method (add_operation path method) routes
      else ok routes

  add_attempt-planned :
      (path method : String) (a : Attempt Op) (routes : List (Route Op))
      → IsTried a
      → add_attempt add_operation (some handler) path method a routes
        ≡ ok (routes ++ routes_at path method (operation_or a))
  unfolding add_attempt
  add_attempt-planned path method (made operation) routes h = refl
  add_attempt-planned path method (unresolved reason exc_info) routes h = refl
  add_attempt-planned path method (failed e) routes h = absurd h

  step-planned :
      (path method : String) (routes : List (Route Op))
      → (mem method methods_known ≡ true → IsTried (add_operation path method))
      → step path method routes ≡ ok (routes ++ planned_route path method)
  unfolding planned_route
  step-planned path method routes h = split (mem method methods_known) h
    where
      split :
          (b : Bool)
          → (b ≡ true → IsTried (add_operation path method))
          → (if b
              then add_attempt add_operation
                  (some handler)
                  path
                  method
                  (add_operation path method)
                  routes
              else ok routes)
            ≡ ok (
                routes
                ++ (if b
                    then routes_at path method (operation_or (add_operation path method))
                    else []))
      split true t = add_attempt-planned path method (add_operation path method) routes (t refl)
      split false t = ap ok (sym (append-nil routes))

  add_each-planned :
      (path : String) (methods : List String) (routes : List (Route Op))
      → AreTried path methods
      → add_each add_operation (some handler) path methods routes
        ≡ ok (routes ++ planned_at path methods)
  unfolding add_each planned_at
  add_each-planned path [] routes h = ap ok (sym (append-nil routes))
  add_each-planned path (method ∷ methods) routes (t, h) =
      ap (λ r. r >>= add_each add_operation (some handler) path methods)
        (step-planned path method routes t)
      ∙ (add_each-planned path methods (routes ++ planned_route path method) h
          ∙ ap ok (append_assoc routes (planned_route path method) (planned_at path methods)))

  add_all-planned :
      (paths : Dict (List String)) (routes : List (Route Op))
      → All (λ p. AreTried p.0 p.1) paths
      → add_all add_operation (some handler) paths routes ≡ ok (routes ++ planned paths)
  unfolding add_all planned
  add_all-planned [] routes h = ap ok (sym (append-nil routes))
  add_all-planned ((path, methods) ∷ paths) routes (t, h) =
      ap (λ r. r >>= add_all add_operation (some handler) paths)
        (add_each-planned path methods routes t)
      ∙ (add_all-planned paths (routes ++ planned_at path methods) h
          ∙ ap ok (append_assoc routes (planned_at path methods) (planned paths)))

  -- With a handler for operations that are not resolved the API is built: each known method of each path
  -- has its route, in the order of the specification, to the operation that is made for it or to the
  -- handler for the reason why its function is not found. Making an operation raises nothing but a
  -- `ResolverError`.
  pub add_routes-planned :
      (paths : Dict (List String)) (routes : List (Route Op))
      → All (λ p. AreTried p.0 p.1) paths
      → add_routes add_operation (some handler) none paths routes ≡ ok (routes ++ planned paths)
  unfolding add_routes
  add_routes-planned paths routes h = add_all-planned paths routes h

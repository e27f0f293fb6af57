-- ===== src/Resolvers/Tests.antt =====
-- The resolvers on concrete operations.
use connexion.Prelude.{
  ℕ, ◌≤◌, String, ◌≡◌, refl, false, Option, none, some, List, [], ◌∷◌, ◌==◌, eq_iff, All, arith,
}
use connexion.Prelude.Text.{◌<>◌}
use connexion.Errors.{import_error, type_error, Result, ok, err}
use connexion.Resolvers.{Operation, resolve_operation_id, resolve_operation_id_relative}
use connexion.Resolvers.Rest.{resolve_operation_id_resty}
use connexion.Resolvers.Views.{
  Classes, resolve_operation_id_view, resolve_method_from_class, views_after,
}
use connexion.Resolvers.Views.Once.{Lawful, OneEach, Extends}
use connexion.Resolvers.Views.Shared.{views_after-OneEach, resolve_method_from_class-Shared}
use connexion.Resolvers.Views.Named.{Named, resolve_function_view-Named}
use connexion.Resolvers.Mock.{mock_id, made_up, resolve_mock}
use connexion.Resolvers.Mock.Fresh.{Distinct, made_up-Distinct}
use connexion.Resolvers.Caught.{MockRaised, resolve_mock-Raises}

abbrev list_pets : Operation
list_pets = record { operation_id = none; router_controller = none; path = "/pets"; method = "GET" }

abbrev get_pet : Operation
get_pet = record {
  operation_id = none;
  router_controller = none;
  path = "/pets/{pet_id}";
  method = "GET";
}

abbrev named : Operation
named = record {
  operation_id = some "find";
  router_controller = some "app.pets";
  path = "/pets";
  method = "GET";
}

resolve_operation_id-controller : resolve_operation_id named ≡ some "app.pets.find"
unfolding resolve_operation_id
resolve_operation_id-controller = refl

resolve_operation_id_relative-root : resolve_operation_id_relative "root" list_pets ≡ "root.None"
unfolding resolve_operation_id_relative
resolve_operation_id_relative-root = refl

resolve_operation_id_resty-collection :
    resolve_operation_id_resty "api" "search" list_pets ≡ some "api.pets.search"
unfolding resolve_operation_id_resty
resolve_operation_id_resty-collection = refl

resolve_operation_id_resty-item :
    resolve_operation_id_resty "api" "search" get_pet ≡ some "api.pets.get"
unfolding resolve_operation_id_resty
resolve_operation_id_resty-item = refl

-- A class is its name, and so is its view.
abbrev classes : Classes String String String
classes = record {
  load = λ module_name view_name. ok view_name;
  instantiate = λ c view_name. ok c;
  class_of = λ v. v;
  same = λ c d. c == d;
  method_of = λ v meth_name. ok (v <> ("." <> meth_name));
}

lawful : Lawful classes
lawful = record { same_iff = eq_iff; class_of-instantiate = λ c name v e. same c v e }
  where
    same : (c v : String) → ok c ≡ ok v → v ≡ c
    same c v e = ground arith

abbrev missing : {F : Type 0} → String → Result F
missing id = err (import_error "no module")

abbrev method_ids : List (Option String)
method_ids =
    some "api.PetsView.get" ∷ some "api.OwnersView.get" ∷ some "api.PetsView.post" ∷ none ∷ []

views_after-method_ids :
    views_after classes missing (resolve_method_from_class classes) method_ids []
    ≡ "PetsView" ∷ "OwnersView" ∷ []
unfolding views_after resolve_method_from_class
views_after-method_ids = refl

views_after-OneEach_example :
    let views =
      views_after classes missing
        (resolve_method_from_class classes)
        method_ids
        ("PetsView" ∷ []) in
    OneEach classes views × Extends classes ("PetsView" ∷ []) views
views_after-OneEach_example =
    views_after-OneEach classes lawful missing method_ids ("PetsView" ∷ []) (tt, tt)

resolve_method_from_class-Shared_example :
    (v : String) × (v ≡ "PetsView")
    × (ok (v <> ("." <> "get")) ≡ ok "PetsView.get")
    × ((ids : List (Option String)) (later_name later_meth : String)
        → let views_later =
            views_after classes missing
              (resolve_method_from_class classes)
              ids
              ("OwnersView" ∷ "PetsView" ∷ []) in
          resolve_method_from_class classes later_name later_meth "PetsView" views_later
          ≡ (views_later, ok (v <> ("." <> later_meth))))
unfolding resolve_method_from_class
resolve_method_from_class-Shared_example =
    resolve_method_from_class-Shared classes lawful missing "PetsView" "PetsView" "get"
      ("OwnersView" ∷ []) ("OwnersView" ∷ "PetsView" ∷ []) "PetsView.get" refl

-- names in camel case already
abbrev camelize : String → String
camelize s = s

resolve_function_view-Named_example :
    Named camelize
      (λ s h. h)
      "api"
      "search"
      classes
      missing
      (resolve_method_from_class classes)
      list_pets
      "api.petsView.search"
      []
unfolding resolve_operation_id_view
resolve_function_view-Named_example =
    resolve_function_view-Named camelize (λ s h. h) "api" "search" classes missing
      (resolve_method_from_class classes) list_pets "api.petsView.search" [] refl refl

abbrev mock : Operation → String
mock operation = "mock"

made_up-Distinct_example :
    let ids = made_up (λ id. ok "function") false mock (list_pets ∷ named ∷ get_pet ∷ []) 1 in
    Distinct ids × All (λ s. (n : ℕ) × (1 ≤ n) × (s ≡ mock_id n)) ids
made_up-Distinct_example =
    made_up-Distinct (λ id. ok "function") false mock (list_pets ∷ named ∷ get_pet ∷ []) 1

made_up-two :
    made_up (λ id. ok "function") false mock (list_pets ∷ named ∷ get_pet ∷ []) 1
    ≡ "mock-1" ∷ "mock-2" ∷ []
unfolding made_up
made_up-two = refl

resolve_mock-Raises_example :
    MockRaised
      (λ id. err (type_error "not a module"))
      false
      mock
      (err (type_error "not a module"))
      (type_error "not a module")
unfolding resolve_mock
resolve_mock-Raises_example =
    resolve_mock-Raises (λ id. err (type_error "not a module")) false mock list_pets 1 2
      (type_error "not a module") refl

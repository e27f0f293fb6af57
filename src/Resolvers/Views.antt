-- ===== src/Resolvers/Views.antt =====
-- connexion/resolver.py: the `MethodResolver` and the `MethodViewResolver`. A view class is
-- instantiated once and the view is kept for the other operations of the class.
--
-- The import of a class, its instantiation and `as_view`, the class of a view, the test of classes for
-- equality, and `camelize` are parameters. What a resolution raises leaves the views as they are by
-- then.
pub mod Once
pub mod Shared
pub mod Named
use connexion.Prelude.{
  ℕ, String, Bool, not, ◌&&◌, Option, none, some, List, [], ◌∷◌, ◌++◌, ◌==◌, if◌then◌else◌,
}
use connexion.Prelude.Text.{◌<>◌, rcut, ends_with}
use connexion.Errors.{Exc, value_error, attribute_error, Result, ok, err, ◌>>=◌}
use connexion.Utils.Import.{dotted}
use connexion.Resolvers.{Operation, as_resolver_error, text_of}
use connexion.Resolvers.Rest.{
  given, resolve_operation_id_resty, resolve_operation_id_using_rest_semantics,
}

abbrev too_few : String → Exc
too_few got = value_error ("not enough values to unpack (expected 3, got " <> (got <> ")"))

abbrev pub no_rsplit : String
no_rsplit = "'NoneType' object has no attribute 'rsplit'"

abbrev pub three : String → Option (String × String) → Result (String × String × String)
three meth_name none = err (too_few "2")
three meth_name (some (module_name, view_name)) = ok (module_name, view_name, meth_name)

-- `module_name, view_name, meth_name = operation_id.rsplit(".", 2)`
unfoldable pub unpack : String → Result (String × String × String)
unfolding rcut
unpack operation_id = elim (rcut b'.' operation_id) [
  | none ↦ err (too_few "1")
  | some (rest, meth_name) ↦ three meth_name (rcut b'.' rest)
]

module _ (camelize : String → String) (default_module_name collection_endpoint_name : String) where
  abbrev pub view_id : String × String × String → Result (Option String)
  view_id (module_name, view_base, meth_name) =
      ok (some (dotted (dotted module_name (camelize view_base <> "View")) meth_name))

  -- `MethodResolverBase.resolve_operation_id`
  unfoldable pub resolve_operation_id_view : Operation → Result (Option String)
  unfolding unpack resolve_operation_id_resty resolve_operation_id_using_rest_semantics
  resolve_operation_id_view operation =
      if given operation.operation_id
      then ok (resolve_operation_id_resty default_module_name collection_endpoint_name operation)
      else unpack (
          resolve_operation_id_using_rest_semantics default_module_name collection_endpoint_name
            operation)
        >>= view_id

-- What Python and the framework give.
pub record Classes (Class View Obj : Type 0) : Type 0 where
  -- `getattr(__import__(module_name, fromlist=[view_name]), view_name)`
  pub load : (module_name view_name : String) → Result Class
  -- `view_cls(*args, **kwargs)` and `view_cls.as_view(view_name, *args, **kwargs)`, with the arguments
  -- that `class_arguments` has for the name
  pub instantiate : Class → (view_name : String) → Result View
  pub class_of : View → Class
  pub same : Class → Class → Bool
  -- `getattr(view, meth_name)`
  pub method_of : View → String → Result Obj

module _ {Class View Obj : Type 0} (classes : Classes Class View Obj) where
  -- the loop over `self.initialized_views`
  unfoldable pub find_view : Class → List View → Option View
  find_view view_cls [] = none
  find_view view_cls (v ∷ views) =
      if classes.same (classes.class_of v) view_cls then some v else find_view view_cls views

  abbrev pub add_view : List View → Result View → List View × Result View
  add_view views (err e) = (views, err e)
  add_view views (ok view) = (views ++ (view ∷ []), ok view)

  abbrev pub view_or : Class → String → List View → Option View → List View × Result View
  view_or view_cls view_name views none = add_view views (classes.instantiate view_cls view_name)
  view_or view_cls view_name views (some view) = (views, ok view)

  -- the view of a class, from those that are there or a new one
  unfoldable pub view_of : Class → String → List View → List View × Result View
  unfolding find_view
  view_of view_cls view_name views = view_or view_cls view_name views (find_view view_cls views)

  -- `MethodResolver.resolve_method_from_class`
  unfoldable pub resolve_method_from_class :
      String → String → Class → List View → List View × Result Obj
  unfolding view_of
  resolve_method_from_class view_name meth_name view_cls views =
      let (views', view) = view_of view_cls view_name views in
      (views', view >>= λ v. classes.method_of v meth_name)

  -- `MethodViewResolver.resolve_method_from_class`
  unfoldable pub resolve_view_from_class :
      String → String → Class → List View → List View × Result View
  unfolding view_of
  resolve_view_from_class view_name meth_name view_cls views = view_of view_cls view_name views

module _ {Class View Obj F : Type 0} (classes : Classes Class View Obj)
    (function_resolver : String → Result F)
    (from_class : String → String → Class → List View → List View × Result F) where
  abbrev pub with_class : String → String → Result Class → List View → List View × Result F
  with_class view_name meth_name (err e) views = (views, err e)
  with_class view_name meth_name (ok view_cls) views = from_class view_name meth_name view_cls views

  -- the block that the `except` clauses guard
  abbrev pub guarded : String → Result (String × String × String) → List View → List View × Result F
  guarded operation_id (err e) views = (views, err e)
  guarded operation_id (ok (module_name, view_name, meth_name)) views =
      if not (operation_id == "") && not (ends_with view_name "View")
      then (views, function_resolver operation_id)
      else with_class view_name meth_name (classes.load module_name view_name) views

  -- `MethodResolverBase.resolve_function_from_operation_id`: None has no `rsplit`
  unfoldable pub resolve_function_view : Option String → List View → List View × Result F
  unfolding unpack as_resolver_error ends_with
  resolve_function_view none views =
      (views, as_resolver_error none (err (attribute_error no_rsplit)))
  resolve_function_view (some operation_id) views =
      let (views', function) = guarded operation_id (unpack operation_id) views in
      (views', as_resolver_error (some operation_id) function)

  -- the views after operation ids are resolved in turn, whatever each gives
  unfoldable pub views_after : List (Option String) → List View → List View
  unfolding resolve_function_view
  views_after [] views = views
  views_after (id ∷ ids) views = views_after ids (resolve_function_view id views).0

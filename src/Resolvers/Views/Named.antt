-- ===== src/Resolvers/Views/Named.antt =====
-- The two halves of the `MethodResolver` fit: the operation id that it makes up names a view class.
use connexion.Prelude.{
  String, ◌≡◌, refl, sym, ap, ◌∙◌, subst, Bool, true, false, not, ◌&&◌, Option, none, some, List,
  ◌==◌, if◌then◌else◌, arith,
}
use connexion.Prelude.Text.{◌<>◌, rcut, has_char, ends_with}
use connexion.Prelude.Text.Split.{has_char-append}
use connexion.Prelude.Text.Laws.{rcut-eq}
use connexion.Prelude.Text.Right.{rcut-last, rcut-without_behind, ends_with-append}
use connexion.Errors.{Result, ok, err, bind-eq-ok}
use connexion.Utils.Import.{dot, dotted}
use connexion.Resolvers.{Operation, as_resolver_error}
use connexion.Resolvers.Rest.{given, resolve_operation_id_using_rest_semantics}
use connexion.Resolvers.Views.{
  Classes, too_few, three, view_id, unpack, resolve_operation_id_view, with_class, guarded,
  resolve_function_view,
}

-- Three parts, the last two without a dot, are what their text is unpacked to.
unpack-dotted :
    (module_name view_name meth_name : String)
    → has_char b'.' view_name ≡ false
    → has_char b'.' meth_name ≡ false
    → unpack (dotted (dotted module_name view_name) meth_name)
      ≡ ok (module_name, view_name, meth_name)
unfolding unpack
unpack-dotted m v f no_dot_v no_dot_f =
    rw (rcut-last dot (dotted m v) f no_dot_f, unpack) (ap (three f) (rcut-last dot m v no_dot_v))

-- The three parts are those of the text, and the last two have no dot.
abbrev Parts : String → Result (String × String × String) → Type 0
Parts id (err e) = Unit
Parts id (ok (m, v, f)) =
    (id ≡ dotted (dotted m v) f) × (has_char b'.' v ≡ false) × (has_char b'.' f ≡ false)

three-Parts :
    (id rest meth : String) (o : Option (String × String))
    → rcut b'.' id ≡ some (rest, meth)
    → rcut b'.' rest ≡ o
    → Parts id (three meth o)
three-Parts id rest meth none r q = tt
three-Parts id rest meth (some (a, b)) r q = (
  rcut-eq dot id rest meth r ∙ ap (λ t. dotted t meth) (rcut-eq dot rest a b q),
  rcut-without_behind b'.' rest a b q,
  rcut-without_behind b'.' id rest meth r,
)

unpack-Parts : (id : String) → Parts id (unpack id)
unfolding unpack
unpack-Parts id = go (rcut b'.' id) refl
  where
    go :
        (o : Option (String × String))
        → rcut b'.' id ≡ o
        → Parts id
            (elim o [ none ↦ err (too_few "1") | some (rest, meth) ↦ three meth (rcut b'.' rest) ])
    go none r = tt
    go (some (rest, meth)) r = three-Parts id rest meth (rcut b'.' rest) r refl

module _ (camelize : String → String)
    (camelize-dots : (s : String) → has_char b'.' s ≡ false → has_char b'.' (camelize s) ≡ false)
    (default_module_name collection_endpoint_name : String) where
  abbrev rest_id : Operation → String
  rest_id = resolve_operation_id_using_rest_semantics default_module_name collection_endpoint_name

  abbrev view_name : String → String
  view_name view_base = camelize view_base <> "View"

  view_name-dots : (b : String) → has_char b'.' b ≡ false → has_char b'.' (view_name b) ≡ false
  unfolding has_char
  view_name-dots b h = has_char-append b'.' (camelize b) "View" (camelize-dots b h) refl

  module _ {Class View Obj F : Type 0} (classes : Classes Class View Obj)
      (function_resolver : String → Result F)
      (from_class : String → String → Class → List View → List View × Result F) where
    guarded-class :
        (id m v f : String) (views : List View)
        → ends_with v "View" ≡ true
        → guarded classes function_resolver from_class id (ok (m, v, f)) views
          ≡ with_class classes function_resolver from_class v f (classes.load m v) views
    guarded-class id m v f views is_view = rw is_view (split (not (id == "")))
      where
        split :
            (b : Bool)
            → (if b && false
                then (views, function_resolver id)
                else with_class classes function_resolver from_class v f (classes.load m v) views)
              ≡ with_class classes function_resolver from_class v f (classes.load m v) views
        split true = refl
        split false = refl

    -- The id has the module, the class and the method that REST semantics give, and is resolved by
    -- the class, in the module.
    abbrev pub Named : Operation → String → List View → Type 0
    Named operation operation_id views =
        (module_name : String) × (view_base : String) × (meth_name : String) × (rest_id operation
          ≡ dotted (dotted module_name view_base) meth_name)
        × (operation_id ≡ dotted (dotted module_name (view_name view_base)) meth_name)
        × (let (views', function) =
              with_class classes function_resolver from_class (view_name view_base) meth_name
                (classes.load module_name (view_name view_base)) views in
            resolve_function_view classes function_resolver from_class (some operation_id) views
            ≡ (views', as_resolver_error (some operation_id) function))

    -- The operation id that a method resolver makes up for an operation that has none is resolved by
    -- the view class that it names, in the module that it names, and never by the function resolver: the
    -- class is the name of the resource in camel case with View behind it, and the method is the last
    -- part of the id that REST semantics give. The camel case of a text without a dot has none.
    pub resolve_function_view-Named :
        (operation : Operation) (operation_id : String) (views : List View)
        → given operation.operation_id ≡ false
        → resolve_operation_id_view camelize default_module_name collection_endpoint_name operation
          ≡ ok (some operation_id)
        → Named operation operation_id views
    unfolding resolve_function_view resolve_operation_id_view
    resolve_function_view-Named operation id views no_id e =
        let ((m, b, f), parts, named) =
          bind-eq-ok {y = some id} (unpack (rest_id operation))
            (view_id camelize default_module_name collection_endpoint_name)
            (sym (rw no_id refl) ∙ e) in
        let (is_id, no_dot_b, no_dot_f) =
          subst (Parts (rest_id operation)) parts (unpack-Parts (rest_id operation)) in
        let is_named : dotted (dotted m (view_name b)) f ≡ id = ground arith in
        let unpacked = unpack-dotted m (view_name b) f (view_name-dots b no_dot_b) no_dot_f in
        (
          m,
          b,
          f,
          is_id,
          sym is_named,
          ap (λ r. (r.0, as_resolver_error (some id) r.1))
              (ap (λ r. guarded classes function_resolver from_class id r views)
                  (ap unpack (sym is_named) ∙ unpacked)
                ∙ guarded-class id m (view_name b) f views (ends_with-append (camelize b) "View")),
        )

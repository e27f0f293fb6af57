-- ===== src/Resolvers/Views/Shared.antt =====
-- The view of a class over the resolutions of a `MethodResolver`: one for each class, and the same one
-- for all operations of the class.
use connexion.Prelude.{
  String, ◌≡◌, refl, sym, ap, ◌∙◌, inl, inr, Bool-cases, true, Option, none, some, List, [], ◌∷◌,
  ◌++◌, arith,
}
use connexion.Errors.{Result, ok, err, bind-eq-ok}
use connexion.Resolvers.Views.{
  Classes, find_view, add_view, view_or, view_of, resolve_method_from_class, views_after,
}
use connexion.Resolvers.Views.Once.{
  Lawful, OneEach, Extends, Kept, view_of-Kept, find_view-append, views_after-Kept,
}

module _ {Class View Obj : Type 0} (classes : Classes Class View Obj)
    (lawful : Lawful classes) where
  module _ (function_resolver : String → Result Obj) where
    from_method-Kept :
        (view_name meth_name : String) (c : Class) (views : List View)
        → Kept classes views (resolve_method_from_class classes view_name meth_name c views).0
    unfolding resolve_method_from_class
    from_method-Kept view_name meth_name c views = view_of-Kept classes lawful c view_name views

    -- Whatever operation ids a method resolver is asked to resolve, and whatever each gives, the views it
    -- had stay in their order, new ones come behind them, and no two views are of one class if none
    -- were. Classes are told apart by equality, and an instance is one of the class called.
    pub views_after-OneEach :
        (ids : List (Option String)) (views : List View)
        → OneEach classes views
        → let views' =
            views_after classes function_resolver (resolve_method_from_class classes) ids views in
          OneEach classes views' × Extends classes views views'
    views_after-OneEach ids views one =
        let (extends, kept) =
          views_after-Kept classes lawful function_resolver (resolve_method_from_class classes)
            from_method-Kept ids views in
        (kept one, extends)

  abbrev Found : Class → List View → View → Type 0
  Found c views v = (find_view classes c views ≡ some v) × (classes.class_of v ≡ c)

  find_view-Found :
      (c : Class) (views : List View) (v : View)
      → find_view classes c views ≡ some v
      → classes.class_of v ≡ c
  unfolding find_view
  find_view-Found c [] v e = cc
  find_view-Found c (w ∷ views) v e = elim (Bool-cases (classes.same (classes.class_of w) c)) [
    | inl same ↦
        let found : w ≡ v = injective (sym (rw (same, find_view) refl) ∙ e) in
        sym (ap (classes.class_of) found) ∙ (lawful.same_iff (classes.class_of w) c).0 same
    | inr other ↦ find_view-Found c views v (sym (rw (other, find_view) refl) ∙ e)
  ]
    where
      injective : {x y : View} → some x ≡ some y → x ≡ y
      injective e = ground arith

  find_view-new :
      (c : Class) (views : List View) (v : View)
      → find_view classes c views ≡ none
      → classes.same (classes.class_of v) c ≡ true
      → find_view classes c (views ++ (v ∷ [])) ≡ some v
  unfolding find_view
  find_view-new c [] v e same = ground arith
  find_view-new c (w ∷ views) v e same = let ih = find_view-new c views v in ground arith

  added-Found :
      (c : Class) (name : String) (views views' : List View) (v : View) (r : Result View)
      → find_view classes c views ≡ none
      → classes.instantiate c name ≡ r
      → add_view classes views r ≡ (views', ok v)
      → Found c views' v
  added-Found c name views views' v (err x) missing made e = cc
  added-Found c name views views' v (ok w) missing made e =
      let of_c = lawful.class_of-instantiate c name w made in
      let new = find_view-new c views w missing ((lawful.same_iff (classes.class_of w) c).1 of_c) in
      let is_v : w ≡ v = ground arith in
      let is_views : views ++ (w ∷ []) ≡ views' = ap (λ p. p.0) e in
      (
        sym (ap (find_view classes c) is_views) ∙ (new ∙ ap some is_v),
        sym (ap (classes.class_of) is_v) ∙ of_c,
      )

  view_or-Found :
      (c : Class) (name : String) (views views' : List View) (v : View) (found : Option View)
      → find_view classes c views ≡ found
      → view_or classes c name views found ≡ (views', ok v)
      → Found c views' v
  view_or-Found c name views views' v none h e =
      added-Found c name views views' v (classes.instantiate c name) h refl e
  view_or-Found c name views views' v (some w) h e =
      let is_v : w ≡ v = ground arith in
      let is_views : views ≡ views' = ap (λ p. p.0) e in
      let found = sym (ap (find_view classes c) is_views) ∙ (h ∙ ap some is_v) in
      (found, find_view-Found c views' v found)

  view_of-Found :
      (c : Class) (name : String) (views views' : List View) (v : View)
      → view_of classes c name views ≡ (views', ok v)
      → Found c views' v
  unfolding view_of
  view_of-Found c name views views' v e =
      view_or-Found c name views views' v (find_view classes c views) refl e

  -- A resolution with a view that is there.
  resolve-found :
      (c : Class) (name meth_name : String) (views : List View) (v : View)
      → find_view classes c views ≡ some v
      → resolve_method_from_class classes name meth_name c views
        ≡ (views, classes.method_of v meth_name)
  unfolding resolve_method_from_class view_of
  resolve-found c name meth_name views v e = rw (e, view_of) refl

  -- A method that the resolver gives is that of a view of the class, and whatever operation ids are
  -- resolved behind it, each later method of the class is one of that same view and leaves the views
  -- as they are. Classes are told apart by equality, and an instance is one of the class called.
  pub resolve_method_from_class-Shared :
      (function_resolver : String → Result Obj)
      → (c : Class) (view_name meth_name : String) (views views' : List View) (function : Obj)
      → resolve_method_from_class classes view_name meth_name c views ≡ (views', ok function)
      → (v : View) × (classes.class_of v ≡ c)
        × (classes.method_of v meth_name ≡ ok function)
        × ((ids : List (Option String)) (later_name later_meth : String)
            → let views_later =
                views_after classes function_resolver
                  (resolve_method_from_class classes)
                  ids
                  views' in
              resolve_method_from_class classes later_name later_meth c views_later
              ≡ (views_later, classes.method_of v later_meth))
  unfolding resolve_method_from_class
  resolve_method_from_class-Shared function_resolver c view_name meth_name views views' function e =
      let (views₁, r) = view_of classes c view_name views in
      let is_views : views₁ ≡ views' = ap (λ p. p.0) e in
      let (v, is_ok, method) =
        bind-eq-ok r (λ v. classes.method_of v meth_name) (ap (λ p. p.1) e) in
      let (found, of_c) = view_of-Found c view_name views views' v (λ i. (is_views i, is_ok i)) in
      (
        v,
        of_c,
        method,
        λ ids later_name later_meth.
            let ((more, grown), _) =
              views_after-Kept classes lawful function_resolver (resolve_method_from_class classes)
                (from_method-Kept function_resolver) ids views' in
            resolve-found c later_name later_meth
              (views_after classes function_resolver (resolve_method_from_class classes) ids views')
              v
              (ap (find_view classes c) grown
                ∙ find_view-append classes lawful c v views' more found),
      )

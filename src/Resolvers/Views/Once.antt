-- ===== src/Resolvers/Views/Once.antt =====
-- A view class has at most one view, which all operations of the class share.
use connexion.Prelude.{
  String, ◌≡◌, refl, sym, ap, ◌∙◌, ◌↔◌, inl, inr, Bool-cases, Bool, true, false, not, ◌&&◌, Option,
  none, some, List, [], ◌∷◌, ◌++◌, append-nil, append_assoc, ◌==◌, if◌then◌else◌, arith,
}
use connexion.Prelude.Text.{ends_with}
use connexion.Errors.{Result, ok, err}
use connexion.Resolvers.Views.{
  Classes, unpack, find_view, add_view, view_or, view_of, with_class, guarded,
  resolve_function_view, views_after,
}

module _ {Class View Obj : Type 0} (classes : Classes Class View Obj) where
  -- The test of classes is equality, and an instance is one of the class that is called.
  pub record Lawful : Type 0 where
    pub same_iff : (c d : Class) → (classes.same c d ≡ true) ↔ (c ≡ d)
    pub class_of-instantiate :
        (c : Class) (name : String) (v : View)
        → classes.instantiate c name ≡ ok v
        → classes.class_of v ≡ c

  -- No view of the list is of the class.
  abbrev pub Without : Class → List View → Type 0
  Without c [] = Unit
  Without c (v ∷ views) = (classes.class_of v ≡ c → ⊥) × Without c views

  -- No two views are of one class.
  abbrev pub OneEach : List View → Type 0
  OneEach [] = Unit
  OneEach (v ∷ views) = Without (classes.class_of v) views × OneEach views

  -- The views after are those before, and more.
  abbrev pub Extends : List View → List View → Type 0
  Extends views views' = (more : List View) × (views' ≡ views ++ more)

  abbrev pub Kept : List View → List View → Type 0
  Kept views views' = Extends views views' × (OneEach views → OneEach views')

  Kept-refl : (views : List View) → Kept views views
  Kept-refl views = (([], sym (append-nil views)), λ h. h)

  Kept-trans : (a b c : List View) → Kept a b → Kept b c → Kept a c
  Kept-trans a b c ((m, e), h) ((n, f), k) =
      ((m ++ n, f ∙ (ap (λ t. t ++ n) e ∙ append_assoc a m n)), λ x. k (h x))

  Without-append :
      (c : Class) (v : View) (views : List View)
      → Without c views
      → (classes.class_of v ≡ c → ⊥)
      → Without c (views ++ (v ∷ []))
  Without-append c v [] h k = (k, tt)
  Without-append c v (w ∷ views) (d, h) k = (d, Without-append c v views h k)

  OneEach-append :
      (v : View) (views : List View)
      → OneEach views
      → Without (classes.class_of v) views
      → OneEach (views ++ (v ∷ []))
  OneEach-append v [] h k = (tt, tt)
  OneEach-append v (w ∷ views) (k, h) (d, l) =
      (Without-append (classes.class_of w) v views k (λ e. d (sym e)), OneEach-append v views h l)

  module _ (lawful : Lawful) where
    find_view-Without :
        (c : Class) (views : List View) → find_view classes c views ≡ none → Without c views
    unfolding find_view
    find_view-Without c [] e = tt
    find_view-Without c (v ∷ views) e = elim (Bool-cases (classes.same (classes.class_of v) c)) [
      | inl same ↦ absurd (found (sym (rw (same, find_view) refl) ∙ e))
      | inr other ↦ (
        λ h. clash (sym ((lawful.same_iff (classes.class_of v) c).1 h) ∙ other),
        find_view-Without c views (sym (rw (other, find_view) refl) ∙ e),
      )
    ]
      where
        found : some v ≡ none → ⊥
        found e = cc

        clash : true ≡ false → ⊥
        clash e = cc

    view_or-Kept :
        (c : Class) (name : String) (views : List View) (found : Option View)
        → (found ≡ none → Without c views)
        → Kept views (view_or classes c name views found).0
    view_or-Kept c name views (some v) h = Kept-refl views
    view_or-Kept c name views none h = added (classes.instantiate c name) refl
      where
        added :
            (r : Result View)
            → classes.instantiate c name ≡ r
            → Kept views (add_view classes views r).0
        added (err e) eq = Kept-refl views
        added (ok v) eq = (
          (v ∷ [], refl),
          λ one. OneEach-append v views one (rw (lawful.class_of-instantiate c name v eq) (h refl)),
        )

    pub view_of-Kept :
        (c : Class) (name : String) (views : List View)
        → Kept views (view_of classes c name views).0
    unfolding view_of
    view_of-Kept c name views =
        view_or-Kept c name views (find_view classes c views) (find_view-Without c views)

    -- A view that is found stays the one found.
    pub find_view-append :
        (c : Class) (v : View) (views more : List View)
        → find_view classes c views ≡ some v
        → find_view classes c (views ++ more) ≡ some v
    unfolding find_view
    find_view-append c v [] more e = cc
    find_view-append c v (w ∷ views) more e =
        let ih = find_view-append c v views more in ground arith

    module _ {F : Type 0} (function_resolver : String → Result F)
        (from_class : String → String → Class → List View → List View × Result F)
        (from_class-Kept : (view_name meth_name : String) (c : Class) (views : List View)
          → Kept views (from_class view_name meth_name c views).0) where
      guarded-Kept :
          (id : String) (r : Result (String × String × String)) (views : List View)
          → Kept views (guarded classes function_resolver from_class id r views).0
      guarded-Kept id (err e) views = Kept-refl views
      guarded-Kept id (ok (m, view_name, meth_name)) views =
          split (not (id == "") && not (ends_with view_name "View"))
        where
          loaded :
              (r : Result Class)
              → Kept views
                  (with_class classes function_resolver from_class view_name meth_name r views).0
          loaded (err e) = Kept-refl views
          loaded (ok c) = from_class-Kept view_name meth_name c views

          split :
              (b : Bool)
              → Kept views
                  (if b
                    then (views, function_resolver id)
                    else with_class classes function_resolver from_class view_name meth_name
                        (classes.load m view_name)
                        views).0
          split true = Kept-refl views
          split false = loaded (classes.load m view_name)

      resolve-Kept :
          (id : Option String) (views : List View)
          → Kept views (resolve_function_view classes function_resolver from_class id views).0
      unfolding resolve_function_view
      resolve-Kept none views = Kept-refl views
      resolve-Kept (some id) views = guarded-Kept id (unpack id) views

      pub views_after-Kept :
          (ids : List (Option String)) (views : List View)
          → Kept views (views_after classes function_resolver from_class ids views)
      unfolding views_after
      views_after-Kept [] views = Kept-refl views
      views_after-Kept (id ∷ ids) views =
          let next = (resolve_function_view classes function_resolver from_class id views).0 in
          Kept-trans views next (views_after classes function_resolver from_class ids next)
            (resolve-Kept id views) (views_after-Kept ids next)

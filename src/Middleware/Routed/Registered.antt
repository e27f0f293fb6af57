-- ===== src/Middleware/Routed/Registered.antt =====
-- The operations that `add_paths` registers.
use connexion.Prelude.{
  String, ◌≡◌, refl, sym, ap, ◌∙◌, subst, inl, inr, Bool, true, Bool-cases, some, List, [], ◌∷◌,
  ◌==◌, eq_iff, if◌then◌else◌, Any, mem,
}
use connexion.Prelude.Dict
use connexion.Prelude.Dict.{Dict, get-set}
use connexion.Errors.{Exc, Result, ok, err, bind-eq-ok}
use connexion.Middleware.Routed.{methods_known, register, add_methods, add_paths}

-- The paths have that path, with that method.
abbrev pub Declares : Dict (List String) → (path method : String) → Type 0
Declares paths path method = Any (λ p. (p.0 ≡ path) × Any (λ m. m ≡ method) p.1) paths

module _ {Routed : Type 0} (make : (path method : String) → Result (String × Routed)) where
  -- The routed operation is made for some path and method, with that operation id.
  abbrev pub Made : String → Routed → Type 0
  Made operation_id routed =
      (path : String) × (method : String) × (make path method ≡ ok (operation_id, routed))

  abbrev pub Registered : String → Dict Routed → Type 0
  Registered operation_id operations =
      (routed : Routed) × (Dict.get operation_id operations ≡ some routed)
      × Made operation_id routed

  abbrev Keeps : Dict Routed → Dict Routed → Type 0
  Keeps before after = (id : String) → Registered id before → Registered id after

  Registered-set :
      (id j : String) (r : Routed) (operations : Dict Routed)
      → Made j r
      → Registered id operations
      → Registered id (Dict.set j r operations)
  Registered-set id j r operations made (s, has_id, made_s) = elim (Bool-cases (id == j)) [
    | inl same ↦ (
      r,
      get-set j id r operations ∙ rw same refl,
      subst (λ k. Made k r) (sym ((eq_iff id j).0 same)) made,
    )
    | inr other ↦ (s, get-set j id r operations ∙ rw other has_id, made_s)
  ]

  Registered-set_self :
      (id : String) (r : Routed) (operations : Dict Routed)
      → Made id r
      → Registered id (Dict.set id r operations)
  Registered-set_self id r operations made = (r, Dict.get-set_self id r operations, made)

  Dict-subst : (P : Dict Routed → Type 0) (d e : Dict Routed) → ok d ≡ ok e → P d → P e
  Dict-subst P d e h p =
      subst (λ (r : Result (Dict Routed)). elim r as (λ r. Type 0) [ ok x ↦ P x | err x ↦ ⊥ ]) h p

  register-Keeps :
      (path method : String) (r : Result (String × Routed)) (before after : Dict Routed)
      → make path method ≡ r
      → register make r before ≡ ok after
      → Keeps before after
  unfolding register
  register-Keeps path method (ok (j, routed)) before after made h =
      Dict-subst (Keeps before) (Dict.set j routed before) after h
        (λ id registered. Registered-set id j routed before (path, method, made) registered)
  register-Keeps path method (err (Exc.resolver_error m)) before after made h =
      Dict-subst (Keeps before) before after h (λ id registered. registered)
  register-Keeps path method (err e) before after made h = λ id registered. absurd (cc)

  one_method :
      (path method : String) (before after : Dict Routed)
      → (if mem method methods_known then register make (make path method) before else ok before)
        ≡ ok after
      → Keeps before after
  one_method path method before after h = elim (Bool-cases (mem method methods_known)) [
    | inl known ↦ register-Keeps path method (make path method) before after refl (
        sym (
          ap (λ (b : Bool). if b then register make (make path method) before else ok before) known)
        ∙ h)
    | inr unknown ↦
        Dict-subst (Keeps before) before after
          (sym (
              ap (λ (b : Bool). if b then register make (make path method) before else ok before)
                unknown)
            ∙ h)
          (λ id registered. registered)
  ]

  add_methods-Keeps :
      (path : String) (methods : List String) (before after : Dict Routed)
      → add_methods make path methods before ≡ ok after
      → Keeps before after
  unfolding add_methods
  add_methods-Keeps path [] before after h =
      Dict-subst (Keeps before) before after h (λ id registered. registered)
  add_methods-Keeps path (method ∷ methods) before after h =
      let (mid, first, rest) =
        bind-eq-ok
          (if mem method methods_known then register make (make path method) before else ok before)
          _ h in
      λ id registered.
        add_methods-Keeps path methods mid after rest id
          (one_method path method before mid first id registered)

  add_paths-Keeps :
      (paths : Dict (List String)) (before after : Dict Routed)
      → add_paths make paths before ≡ ok after
      → Keeps before after
  unfolding add_paths
  add_paths-Keeps [] before after h =
      Dict-subst (Keeps before) before after h (λ id registered. registered)
  add_paths-Keeps ((path, methods) ∷ paths) before after h =
      let (mid, first, rest) = bind-eq-ok (add_methods make path methods before) _ h in
      λ id registered.
        add_paths-Keeps paths mid after rest id
          (add_methods-Keeps path methods before mid first id registered)

  module _ (path method id : String) (routed : Routed) (made : make path method ≡ ok (id, routed))
      (known : mem method methods_known ≡ true) where
    registers :
        (before : Dict Routed)
        → (if mem method methods_known then register make (make path method) before else ok before)
          ≡ ok (Dict.set id routed before)
    unfolding register
    registers before =
        ap (λ (b : Bool). if b then register make (make path method) before else ok before) known
        ∙ ap (λ r. register make r before) made

    add_methods-first :
        (methods : List String) (before after : Dict Routed)
        → add_methods make path (method ∷ methods) before ≡ ok after
        → Registered id after
    unfolding add_methods
    add_methods-first methods before after h =
        let (mid, first, rest) =
          bind-eq-ok
            (if mem method methods_known
              then register make (make path method) before
              else ok before)
            _ h in
        add_methods-Keeps path methods mid after rest id (
          Dict-subst (Registered id) (Dict.set id routed before) mid
            (sym (registers before) ∙ first)
            (Registered-set_self id routed before (path, method, made)))

    add_methods-Registered :
        (methods : List String) (before after : Dict Routed)
        → Any (λ m. m ≡ method) methods
        → add_methods make path methods before ≡ ok after
        → Registered id after
    unfolding add_methods
    add_methods-Registered [] before after a h = absurd a
    add_methods-Registered (m ∷ methods) before after (inl same) h =
        add_methods-first methods before after
          (subst (λ k. add_methods make path (k ∷ methods) before ≡ ok after) same h)
    add_methods-Registered (m ∷ methods) before after (inr a) h =
        let (mid, first, rest) =
          bind-eq-ok (if mem m methods_known then register make (make path m) before else ok before)
            _ h in
        add_methods-Registered methods mid after a rest

    pub add_paths-Registered :
        (paths : Dict (List String)) (before after : Dict Routed)
        → Declares paths path method
        → add_paths make paths before ≡ ok after
        → Registered id after
    unfolding add_paths
    add_paths-Registered [] before after a h = absurd a
    add_paths-Registered ((p, methods) ∷ paths) before after (inl (same, a)) h =
        let (mid, first, rest) = bind-eq-ok (add_methods make p methods before) _ h in
        add_paths-Keeps paths mid after rest id (
          add_methods-Registered methods before mid a
            (subst (λ k. add_methods make k methods before ≡ ok mid) same first))
    add_paths-Registered ((p, methods) ∷ paths) before after (inr a) h =
        let (mid, first, rest) = bind-eq-ok (add_methods make p methods before) _ h in
        add_paths-Registered paths mid after a rest

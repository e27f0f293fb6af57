-- ===== src/Validators/Parameter/Located.antt =====
-- The parameters of a location, and their names.
use native.Mathlib.Omega.{arith}
use connexion.Prelude.{
  String, ◌≡◌, refl, sym, ap, subst, ◌∙◌, ◌↔◌, ◌⊎◌, inl, inr, Bool, true, ◌==◌, Bool-cases, Option,
  none, some, List, [], ◌∷◌, eq_iff, All, Any, mem,
}
use connexion.Prelude.Dict.{Dict}
use connexion.Value.{Value, null, bool, int, float, str, arr, obj, opaque}
use connexion.Value.Access.{lookup}
use connexion.Errors.{Result, ok, bind-eq-ok}
use connexion.Utils.Coerce.{Builtins}
use connexion.Validators.Parameter.{name_of, located, names_of}
use connexion.Validators.Parameter.Found.{IsIn, IsNamed, name_of_iff}

module _ (py : Builtins) (schema_error : (schema value : Value) → Option String)
    (resolve_query : Dict Value → Result (Dict Value)) (parameters : List Value)
    (strict_validation : Bool) where
  abbrev pub at_location : String → List Value → List Value
  at_location location ps =
      located py schema_error resolve_query parameters strict_validation location ps

  IsIn-cases :
      (location : String) (p : Value) (ps : List Value)
      → (IsIn location p × (at_location location (p ∷ ps) ≡ p ∷ at_location location ps))
        ⊎ ((IsIn location p → ⊥) × (at_location location (p ∷ ps) ≡ at_location location ps))
  unfolding located
  IsIn-cases location p ps = go (lookup "in" p) refl
    where
      go :
          (o : Option Value)
          → lookup "in" p ≡ o
          → (IsIn location p × (at_location location (p ∷ ps) ≡ p ∷ at_location location ps))
            ⊎ ((IsIn location p → ⊥) × (at_location location (p ∷ ps) ≡ at_location location ps))
      go none e = inr ((λ h. absurd (cc)), rw e refl)
      go (some (str s)) e = elim (Bool-cases (s == location)) [
        | inl same ↦
            inl (e ∙ ap (λ t. some (str t)) ((eq_iff s location).0 same), rw (e, same) refl)
        | inr other ↦
            inr ((λ h. absurd (ground (arith, e, h, other, eq_iff s location))), rw (e, other) refl)
      ]
      go (some null) e = inr ((λ h. absurd (cc)), rw e refl)
      go (some (bool b)) e = inr ((λ h. absurd (cc)), rw e refl)
      go (some (int b n)) e = inr ((λ h. absurd (cc)), rw e refl)
      go (some (float s)) e = inr ((λ h. absurd (cc)), rw e refl)
      go (some (arr xs)) e = inr ((λ h. absurd (cc)), rw e refl)
      go (some (obj fs)) e = inr ((λ h. absurd (cc)), rw e refl)
      go (some (opaque n)) e = inr ((λ h. absurd (cc)), rw e refl)

  module _ (location : String) (P : Value → Type 0) where
    -- of all parameters, those that stand there
    pub All-located :
        (ps : List Value) → All P (at_location location ps) ↔ All (λ p. IsIn location p → P p) ps
    unfolding located
    All-located [] = ((λ h. tt), (λ h. tt))
    All-located (p ∷ ps) = elim (IsIn-cases location p ps) [
      | inl (is_in, kept) ↦ (
        λ h. let (first, rest) = subst (All P) kept h in ((λ i. first), (All-located ps).0 rest),
        λ (first, rest). subst (All P) (sym kept) (first is_in, (All-located ps).1 rest),
      )
      | inr (not_in, dropped) ↦ (
        λ h. ((λ i. absurd (not_in i)), (All-located ps).0 (subst (All P) dropped h)),
        λ (first, rest). subst (All P) (sym dropped) ((All-located ps).1 rest),
      )
    ]

    pub Any-located :
        (ps : List Value) → Any P (at_location location ps) ↔ Any (λ p. IsIn location p × P p) ps
    unfolding located
    Any-located [] = ((λ h. h), (λ h. h))
    Any-located (p ∷ ps) = elim (IsIn-cases location p ps) [
      | inl (is_in, kept) ↦ (
        λ h. elim (subst (Any P) kept h) [
          | inl first ↦ inl (is_in, first)
          | inr rest ↦ inr ((Any-located ps).0 rest)
        ],
        λ h.
            subst (Any P) (sym kept)
              (elim h [ inl (i, first) ↦ inl first | inr rest ↦ inr ((Any-located ps).1 rest) ]),
      )
      | inr (not_in, dropped) ↦ (
        λ h. inr ((Any-located ps).0 (subst (Any P) dropped h)),
        λ h.
            subst (Any P) (sym dropped)
              (elim h [ inl (i, first) ↦ absurd (not_in i) | inr rest ↦ (Any-located ps).1 rest ]),
      )
    ]

  abbrev pub HasName : Value → Type 0
  HasName p = (name : String) × IsNamed name p

  abbrev all_names : List Value → Result (List String)
  all_names ps = names_of py schema_error resolve_query parameters strict_validation ps

  -- the names of parameters that have one
  pub names_of-HasName :
      (ps : List Value)
      → All HasName ps
      → (names : List String) × (all_names ps ≡ ok names)
        × ((k : String) → (mem k names ≡ true) ↔ Any (IsNamed k) ps)
  unfolding names_of
  names_of-HasName [] h = ([], refl, λ k. ((λ h. absurd (cc)), (λ h. absurd h)))
  names_of-HasName (p ∷ ps) ((name, named), h) =
      let (names, all_named, member) = names_of-HasName ps h in
      (
        name ∷ names,
        rw ((name_of_iff name p).1 named, all_named) refl,
        λ k. elim (Bool-cases (k == name)) [
          | inl same ↦ (
            (λ h. inl (named ∙ ap (λ s. some (str s)) (sym ((eq_iff k name).0 same)))),
            (λ h. rw same refl),
          )
          | inr other ↦ (
            (λ h. inr ((member k).0 (sym (rw other refl) ∙ h))),
            (λ h. elim h [
              | inl k_named ↦ absurd (ground (arith, k_named, named, other, eq_iff k name))
              | inr rest ↦ rw other ((member k).1 rest)
            ]),
          )
        ],
      )

  pub HasName-names_of :
      (ps : List Value) (names : List String) → all_names ps ≡ ok names → All HasName ps
  unfolding names_of
  HasName-names_of [] names h = tt
  HasName-names_of (p ∷ ps) names h =
      let (name, named, h₁) = bind-eq-ok (name_of p) _ h in
      let (rest, all_named, same) = bind-eq-ok (all_names ps) _ h₁ in
      ((name, (name_of_iff name p).0 named), HasName-names_of ps rest all_named)

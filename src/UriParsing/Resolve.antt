-- ===== src/UriParsing/Resolve.antt =====
-- What `resolve_params` does to each parameter.
use connexion.Prelude.{
  String, ◌≡◌, refl, sym, subst, inl, inr, Bool-cases, Option, none, some, [], ◌∷◌, ◌==◌, eq_iff,
}
use connexion.Prelude.Dict
use connexion.Prelude.Dict.{Dict}
use connexion.Value.{Value}
use connexion.Errors.{Result, ok, err, bind-eq-ok}
use connexion.Utils.Coerce.{Builtins}
use connexion.UriParsing.{UriParser, resolve_param, resolve_params}
use connexion.UriParsing.Becomes.{Becomes, Becomes-resolve_param}

module _ (py : Builtins) (parser : UriParser) (location : String) where
  -- What becomes of an entry: nothing of nothing.
  abbrev pub Resolved : String → Option Value → Option Value → Type 0
  Resolved k none result = result ≡ none
  Resolved k (some values) result =
      (v : Value) × (result ≡ some v) × Becomes py parser location k values v

  result_is :
      (p q : Dict Value) (o : Option Value) (k : String)
      → ok p ≡ ok q
      → Resolved k o (Dict.get k p)
      → Resolved k o (Dict.get k q)
  result_is p q o k e r =
      subst
        (λ (x : Result (Dict Value)). elim x as (λ x. Type 0) [
          | ok d ↦ Resolved k o (Dict.get k d)
          | err e ↦ ⊥
        ])
        e r

  Resolved-cons :
      (k j : String) (values v : Value) (params rest : Dict Value)
      → Becomes py parser location j values v
      → Resolved k (Dict.get k params) (Dict.get k rest)
      → Resolved k (Dict.get k ((j, values) ∷ params)) (Dict.get k ((j, v) ∷ rest))
  unfolding Dict.get
  Resolved-cons k j values v params rest resolved ih = elim (Bool-cases (k == j)) [
    | inl e ↦ rw e (
      v,
      refl,
      subst (λ i. Becomes py parser location i values v) (sym ((eq_iff k j).0 e)) resolved,
    )
    | inr e ↦ rw e ih
  ]

  -- Each parameter is resolved by itself, and none is lost or added. One that the operation does not
  -- define keeps its values. Of another, the values (in a path, the only one) are combined and split by the
  -- class of the parser if its schema is an array, and else the last counts. What comes of it is coerced
  -- to the type of the definition, but for an allowed null and for what cannot be coerced, which are kept.
  pub resolve_params-Resolved :
      (params result : Dict Value) (k : String)
      → resolve_params py parser params location ≡ ok result
      → Resolved k (Dict.get k params) (Dict.get k result)
  unfolding resolve_params Dict.get
  resolve_params-Resolved [] result k h = result_is [] result none k h refl
  resolve_params-Resolved ((j, values) ∷ params) result k h =
      let (v, resolved, h₁) = bind-eq-ok (resolve_param py parser j values location) _ h in
      let (rest, resolved_rest, same) =
        bind-eq-ok (resolve_params py parser params location) _ h₁ in
      result_is ((j, v) ∷ rest) result (Dict.get k ((j, values) ∷ params)) k same (
        Resolved-cons k j values v params rest
          (Becomes-resolve_param py parser location j values v resolved)
          (resolve_params-Resolved params rest k resolved_rest))

  -- A parameter that the operation does not define keeps its values.
  pub resolve_param-unknown :
      (k : String) (values : Value)
      → Dict.get k parser.param_defns ≡ none
      → Dict.get k parser.param_schemas ≡ none
      → resolve_param py parser k values location ≡ ok values
  unfolding resolve_param
  resolve_param-unknown k values h h₁ = rw (resolve_param, h, h₁) refl

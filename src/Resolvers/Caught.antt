-- ===== src/Resolvers/Caught.antt =====
-- What the resolvers let out of the exceptions that finding a function raises.
use connexion.Prelude.{
  ℕ, String, ◌≡◌, refl, ap, subst, ◌⊎◌, inl, inr, Bool, true, false, Option, none, some, List,
  if◌then◌else◌, arith,
}
use connexion.Errors.{Exc, attribute_error, Result, ok, err, ◌>>=◌}
use connexion.Resolvers.{
  Operation, Resolution, as_resolver_error, resolve_function_from_operation_id,
}
use connexion.Resolvers.Views.{Classes, unpack, no_rsplit, guarded, resolve_function_view}
use connexion.Resolvers.Mock.{next_id, or_mock, find_function, resolve_mock}

-- The exceptions that become a `ResolverError`.
abbrev pub IsCaught : Exc → Type 0
IsCaught (Exc.import_error m) = Unit
IsCaught (Exc.attribute_error m) = Unit
IsCaught (Exc.value_error m) = Unit
IsCaught e = ⊥

abbrev pub IsResolverError : Exc → Type 0
IsResolverError (Exc.resolver_error m) = Unit
IsResolverError e = ⊥

err-injective : {A : Type 0} {x y : Exc} → ◌≡◌ {A = Result A} (err x) (err y) → x ≡ y
err-injective h = ground arith

bind-eq-err :
    {A B : Type 0} {e : Exc} (f : A → B) (r : Result A) → (r >>= λ a. ok (f a)) ≡ err e → r ≡ err e
bind-eq-err f (ok a) h = cc
bind-eq-err f (err x) h = ground arith

-- An exception is let out as it is, or is a `ResolverError` in place of one that is caught.
abbrev LetOut {ℓ} : {A : Type ℓ} → Result A → Exc → Type ℓ
LetOut r e = (IsCaught e → ⊥) × ((r ≡ err e) ⊎ IsResolverError e)

abbrev LetOutIf {ℓ} : {A : Type ℓ} → Result A → Result A → Type ℓ
LetOutIf r (ok a) = Unit
LetOutIf r (err e) = LetOut r e

as_resolver_error-LetOutIf {ℓ} :
    {A : Type ℓ} (id : Option String) (r : Result A) → LetOutIf r (as_resolver_error id r)
unfolding as_resolver_error
as_resolver_error-LetOutIf id (ok a) = tt
as_resolver_error-LetOutIf id (err (Exc.import_error m)) = (λ h. h, inr tt)
as_resolver_error-LetOutIf id (err (Exc.attribute_error m)) = (λ h. h, inr tt)
as_resolver_error-LetOutIf id (err (Exc.value_error m)) = (λ h. h, inr tt)
as_resolver_error-LetOutIf id (err e) = (λ h. h, inl refl)

as_resolver_error-Caught {ℓ} :
    {A : Type ℓ} (id : Option String) (r : Result A) (e : Exc)
    → as_resolver_error id r ≡ err e
    → IsCaught e
    → ⊥
as_resolver_error-Caught id r e h = (subst (LetOutIf r) h (as_resolver_error-LetOutIf id r)).0

module _ {Class View Obj F : Type 0} (classes : Classes Class View Obj)
    (function_resolver : String → Result F)
    (from_class : String → String → Class → List View → List View × Result F) where
  -- A method resolver that looks up a function lets no error of import, attribute or value out: where
  -- it raises, the exception is a `ResolverError` or one that none of its clauses names.
  pub resolve_function_view-Caught :
      (operation_id : Option String) (views views' : List View) (e : Exc)
      → resolve_function_view classes function_resolver from_class operation_id views
        ≡ (views', err e)
      → IsCaught e
      → ⊥
  unfolding resolve_function_view
  resolve_function_view-Caught none views views' e h =
      as_resolver_error-Caught none (err (attribute_error no_rsplit)) e (ap (λ p. p.1) h)
  resolve_function_view-Caught (some id) views views' e h =
      as_resolver_error-Caught (some id)
        (guarded classes function_resolver from_class id (unpack id) views).1 e (ap (λ p. p.1) h)

module _ {Obj : Type 0} (function_resolver : Option String → Result Obj) (mock_all : Bool)
    (mock : Operation → Obj) where
  -- the exception of a resolution is that of finding the function
  abbrev pub MockRaised : Result Obj → Exc → Type 0
  MockRaised r e = (mock_all ≡ false) × (r ≡ err e) × (IsCaught e → ⊥) × (IsResolverError e → ⊥)

  abbrev MockRaisedIf : Result Obj → Result Obj → Type 0
  MockRaisedIf r (ok f) = Unit
  MockRaisedIf r (err e) = MockRaised r e

  only_first : {A : Type 0} → A ⊎ ⊥ → A
  only_first (inl a) = a
  only_first (inr x) = absurd x

  or_mock-MockRaisedIf :
      (operation : Operation) (r found : Result Obj)
      → mock_all ≡ false
      → LetOutIf r found
      → MockRaisedIf r (or_mock function_resolver mock_all mock operation found)
  or_mock-MockRaisedIf operation r (ok f) off let_out = tt
  or_mock-MockRaisedIf operation r (err (Exc.resolver_error m)) off let_out = tt
  or_mock-MockRaisedIf operation r (err e) off (free, origin) =
      (off, only_first origin, free, λ h. h)

  find_function-MockRaisedIf :
      (operation : Operation) (id : Option String)
      → MockRaisedIf
          (function_resolver id)
          (find_function function_resolver mock_all mock operation id)
  unfolding find_function resolve_function_from_operation_id
  find_function-MockRaisedIf operation id = split mock_all refl
    where
      split :
          (b : Bool)
          → mock_all ≡ b
          → MockRaisedIf (function_resolver id) (
              if b
              then ok (mock operation)
              else or_mock function_resolver mock_all mock operation
                  (resolve_function_from_operation_id function_resolver id))
      split true on = tt
      split false off =
          or_mock-MockRaisedIf operation (function_resolver id)
            (resolve_function_from_operation_id function_resolver id) off
            (as_resolver_error-LetOutIf id (function_resolver id))

  to_resolution : Option String → Obj → Resolution Obj
  to_resolution id function = record { function = function; operation_id = id }

  -- A mock resolver raises only where not all operations are mocked, and then what the function
  -- resolver raises on the id, which is no error of import, attribute or value and no `ResolverError`.
  pub resolve_mock-Raises :
      (operation : Operation) (counter counter' : ℕ) (e : Exc)
      → resolve_mock function_resolver mock_all mock operation counter ≡ (counter', err e)
      → MockRaised (function_resolver (next_id operation counter).1) e
  unfolding resolve_mock to_resolution
  resolve_mock-Raises operation counter counter' e h =
      let id = (next_id operation counter).1 in
      let found = find_function function_resolver mock_all mock operation id in
      subst (MockRaisedIf (function_resolver id))
        (bind-eq-err (λ function. to_resolution id function) found (ap (λ p. p.1) h))
        (find_function-MockRaisedIf operation id)

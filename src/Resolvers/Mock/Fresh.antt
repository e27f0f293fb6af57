-- ===== src/Resolvers/Mock/Fresh.antt =====
-- The ids that the `MockResolver` makes up are new.
use connexion.Prelude.{
  ℕ, suc, ◌≤◌, String, ◌≡◌, refl, sym, ap, ◌∙◌, Bool, true, false, Option, some, List, [], ◌∷◌, All,
  if◌then◌else◌, arith,
}
use connexion.Prelude.Text.{strip_prefix}
use connexion.Prelude.Text.Split.{strip_prefix-append}
use connexion.Prelude.Decimal.{decimal, decimal-injective}
use connexion.Errors.{Result, ok, err, ◌>>=◌}
use connexion.Resolvers.{Operation, resolve_operation_id}
use connexion.Resolvers.Rest.{given}
use connexion.Resolvers.Mock.{mock_id, next_id, find_function, resolve_mock, returned_id, made_up}

some-injective : {A : Type 0} {x y : A} → some x ≡ some y → x ≡ y
some-injective e = ground arith

mock_id-injective : (m n : ℕ) → mock_id m ≡ mock_id n → m ≡ n
mock_id-injective m n e = decimal-injective m n (
    some-injective (
      sym (strip_prefix-append "mock-" (decimal m))
      ∙ (ap (strip_prefix "mock-") e ∙ strip_prefix-append "mock-" (decimal n))))

-- No text stands twice in the list.
abbrev pub Distinct : List String → Type 0
Distinct [] = Unit
Distinct (s ∷ ss) = All (λ t. t ≡ s → ⊥) ss × Distinct ss

-- The id of a count that is not below the counter.
abbrev From : ℕ → String → Type 0
From counter s = (n : ℕ) × (counter ≤ n) × (s ≡ mock_id n)

All-map :
    {P Q : String → Type 0} (ss : List String) → ((s : String) → P s → Q s) → All P ss → All Q ss
All-map [] f h = tt
All-map (s ∷ ss) f (h, hs) = (f s h, All-map ss f hs)

From-later : (counter : ℕ) (s : String) → From (suc counter) s → From counter s
From-later counter s (n, le, e) = (n, omega (arith, le), e)

module _ {Obj : Type 0} (function_resolver : Option String → Result Obj) (mock_all : Bool)
    (mock_operation : Operation → Obj) where
  abbrev IsFresh : ℕ → List String → Type 0
  IsFresh counter ids = All (From counter) ids × Distinct ids

  -- One operation without an id takes the next count, whatever its resolution gives.
  returned_id-IsFresh :
      (counter : ℕ) (r : Result Obj) (ids : List String)
      → IsFresh (suc counter) ids
      → IsFresh counter (
          returned_id function_resolver mock_all mock_operation
            (r >>= λ function.
              ok (record { function = function; operation_id = some (mock_id counter) }))
            ids)
  returned_id-IsFresh counter (err e) ids (from, distinct) =
      (All-map ids (From-later counter) from, distinct)
  returned_id-IsFresh counter (ok f) ids (from, distinct) = (
    ((counter, omega arith, refl), All-map ids (From-later counter) from),
    (
      All-map ids
          (λ s (n, le, e) same. omega (arith, le, mock_id-injective n counter (sym e ∙ same))) from,
      distinct,
    ),
  )

  made_up-IsFresh :
      (operations : List Operation) (counter : ℕ)
      → IsFresh counter (made_up function_resolver mock_all mock_operation operations counter)
  unfolding made_up resolve_mock next_id
  made_up-IsFresh [] counter = (tt, tt)
  made_up-IsFresh (operation ∷ operations) counter =
      step (given (resolve_operation_id operation)) (made_up-IsFresh operations)
    where
      step :
          (b : Bool)
          → ((c : ℕ) → IsFresh c (made_up function_resolver mock_all mock_operation operations c))
          → let taken : ℕ × Option String =
              if b
              then (counter, resolve_operation_id operation)
              else (suc counter, some (mock_id counter)) in
            let ids = made_up function_resolver mock_all mock_operation operations taken.0 in
            IsFresh counter (
              if b
              then ids
              else returned_id function_resolver mock_all mock_operation
                  (find_function function_resolver mock_all mock_operation operation taken.1
                    >>= λ function. ok (record { function = function; operation_id = taken.1 }))
                  ids)
      step true ih = ih counter
      step false ih =
          returned_id-IsFresh counter
            (find_function function_resolver mock_all mock_operation operation
              (some (mock_id counter)))
            (made_up function_resolver mock_all mock_operation operations (suc counter))
            (ih (suc counter))

  -- No two of the ids that a mock resolver makes up, for operations that have none, are the same,
  -- whatever operations it resolves in turn and whatever is raised on the way; each is mock- with
  -- a count that is not below the counter before.
  pub made_up-Distinct :
      (operations : List Operation) (counter : ℕ)
      → let ids = made_up function_resolver mock_all mock_operation operations counter in
        Distinct ids × All (λ s. (n : ℕ) × (counter ≤ n) × (s ≡ mock_id n)) ids
  made_up-Distinct operations counter =
      let (from, distinct) = made_up-IsFresh operations counter in (distinct, from)

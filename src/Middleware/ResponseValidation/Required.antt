-- ===== src/Middleware/ResponseValidation/Required.antt =====
-- When `validate_required_headers` returns.
use connexion.Prelude.{
  String, ◌≡◌, refl, ap, ◌∙◌, inl, inr, Bool-cases, Bool, true, false, not, ◌&&◌, List, [], ◌∷◌,
  mem, All, if◌then◌else◌, arith,
}
use connexion.Prelude.Text.{lower}
use connexion.Prelude.Dict.{Dict}
use connexion.Value.{Value, bool, truthy}
use connexion.Errors.{done, ok}
use connexion.Operations.OpenApi.{entries, empty_dict, get_or}
use connexion.Middleware.ResponseValidation.{
  header_keys, missing_keys, none_missing, validate_required_headers,
}

-- The key is among those of the headers if its header is required.
abbrev pub IsPresent : List String → String × Value → Type 0
IsPresent keys (k, v) = truthy (get_or "required" v (bool false)) ≡ true → mem (lower k) keys ≡ true

with_key : (required present : Bool) (key : String) (rest : List String) → List String
with_key required present key rest =
    if required && not present && not (mem key rest) then key ∷ rest else rest

with_key-empty :
    (required present : Bool) (key : String) (rest : List String)
    → with_key required present key rest ≡ []
    → (required ≡ true → present ≡ true) × (rest ≡ [])
unfolding with_key
with_key-empty false m key rest h = (λ e. absurd (cc), h)
with_key-empty true true key rest h = (λ e. refl, h)
with_key-empty true false key [] h = absurd (cc)
with_key-empty true false key (k ∷ rest) h = elim (Bool-cases (mem key (k ∷ rest))) [
  | inl same ↦ ground arith
  | inr other ↦ ground arith
]

empty-with_key :
    (required present : Bool) (key : String)
    → (required ≡ true → present ≡ true)
    → with_key required present key [] ≡ []
unfolding with_key
empty-with_key false m key p = refl
empty-with_key true true key p = refl
empty-with_key true false key p = absurd (clash (p refl))
  where
    clash : false ≡ true → ⊥
    clash e = cc

missing_keys-IsPresent :
    (keys : List String) (headers : Dict Value)
    → missing_keys keys headers ≡ []
    → All (IsPresent keys) headers
unfolding missing_keys with_key
missing_keys-IsPresent keys [] h = tt
missing_keys-IsPresent keys ((k, v) ∷ headers) h =
    let (present, rest) =
      with_key-empty (truthy (get_or "required" v (bool false))) (mem (lower k) keys) (lower k)
        (missing_keys keys headers) h in
    (present, missing_keys-IsPresent keys headers rest)

IsPresent-missing_keys :
    (keys : List String) (headers : Dict Value)
    → All (IsPresent keys) headers
    → missing_keys keys headers ≡ []
unfolding missing_keys with_key
IsPresent-missing_keys keys [] h = refl
IsPresent-missing_keys keys ((k, v) ∷ headers) (p, h) =
    let required = truthy (get_or "required" v (bool false)) in
    let present = mem (lower k) keys in
    ap (with_key required present (lower k)) (IsPresent-missing_keys keys headers h)
    ∙ empty-with_key required present (lower k) p

-- Every header that the definition of the response requires is among the headers.
abbrev pub HasRequired : List (String × String) → Value → Type 0
HasRequired headers response_definition =
    All (IsPresent (header_keys headers))
      (entries (get_or "headers" response_definition empty_dict))

none_missing-done : (keys : List String) → none_missing keys ≡ ok done → keys ≡ []
unfolding none_missing
none_missing-done [] h = refl
none_missing-done (k ∷ ks) h = cc

pub validate_required_headers-HasRequired :
    (headers : List (String × String)) (definition : Value)
    → validate_required_headers headers definition ≡ ok done
    → HasRequired headers definition
unfolding validate_required_headers
validate_required_headers-HasRequired headers definition h =
    let defined = entries (get_or "headers" definition empty_dict) in
    missing_keys-IsPresent (header_keys headers) defined
      (none_missing-done (missing_keys (header_keys headers) defined) h)

pub HasRequired-validate_required_headers :
    (headers : List (String × String)) (definition : Value)
    → HasRequired headers definition
    → validate_required_headers headers definition ≡ ok done
unfolding validate_required_headers none_missing
HasRequired-validate_required_headers headers definition h =
    let defined = entries (get_or "headers" definition empty_dict) in
    ap none_missing (IsPresent-missing_keys (header_keys headers) defined h)

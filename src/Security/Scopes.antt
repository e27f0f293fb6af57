-- ===== src/Security/Scopes.antt =====
-- What `validate_scope` and the OAuth2 check establish.
use connexion.Prelude.{
  String, ◌≡◌, refl, sym, ap, subst, ◌∙◌, ◌↔◌, Bool, true, false, List, [], ◌∷◌, map, arith, eq_iff,
  All, Any, any, all, some, ◌⊎◌, inl, inr, Bool-cases,
}
use connexion.Prelude.Text.{words}
use connexion.Value.{
  Value, null, bool, int, float, str, arr, obj, opaque, items, of_items, items-of_items, truthy,
}
use connexion.Errors.{Exc, type_error, attribute_error, Result, ok, err, bind-eq-ok}
use connexion.Security.{AuthResult, Function, Request, is_truthy, settle}
use connexion.Security.Checks.{
  scope_set, is_hashable, is_str, includes, validate_scope, check_oauth_func, generic_check,
  token_scopes_of, scopes_value, require_scope,
}
use connexion.Security.Lookup.{texts, validate_scope_call, validate_scope_function}

-- Every required scope is one of the values.
abbrev pub Covers : List Value → List String → Type 0
Covers scopes = All (λ s. Any (λ v. v ≡ str s) scopes)

is_str_iff : (s : String) (v : Value) → (is_str s v ≡ true) ↔ (v ≡ str s)
is_str_iff s (str t) = ground (arith, eq_iff s t)
is_str_iff s null = ground arith
is_str_iff s (bool b) = ground arith
is_str_iff s (int b n) = ground arith
is_str_iff s (float t) = ground arith
is_str_iff s (arr xs) = ground arith
is_str_iff s (obj fs) = ground arith
is_str_iff s (opaque n) = ground arith

any-is_str : (s : String) (vs : List Value) → (any (is_str s) vs ≡ true) ↔ Any (λ v. v ≡ str s) vs
any-is_str s [] = ((λ h. cc), (λ h. absurd h))
any-is_str s (v ∷ vs) = ground (arith, is_str_iff s v, any-is_str s vs)

includes_iff :
    (required : List String) (vs : List Value) → (includes required vs ≡ true) ↔ Covers vs required
includes_iff [] vs = ((λ h. tt), (λ h. refl))
includes_iff (s ∷ required) vs = ground (arith, any-is_str s vs, includes_iff required vs)

validate_scope_iff :
    (required_scopes : List String) (token_scopes : Value)
    → (validate_scope required_scopes token_scopes ≡ ok true)
      ↔ ((vs : List Value) × (scope_set token_scopes ≡ ok vs) × Covers vs required_scopes)
unfolding validate_scope
validate_scope_iff required_scopes token_scopes = (
  λ h.
      let (vs, set, valid) = bind-eq-ok (scope_set token_scopes) _ h in
      (vs, set, (includes_iff required_scopes vs).0 (cc)),
  λ (vs, set, covered). rw set (ap ok ((includes_iff required_scopes vs).1 covered)),
)

-- no list and no dict
abbrev pub IsHashable : Value → Type 0
IsHashable (arr xs) = ⊥
IsHashable (obj fs) = ⊥
IsHashable v = Unit

is_hashable_iff : (v : Value) → (is_hashable v ≡ true) ↔ IsHashable v
is_hashable_iff (arr xs) = ((λ h. absurd (cc)), (λ h. absurd h))
is_hashable_iff (obj fs) = ((λ h. absurd (cc)), (λ h. absurd h))
is_hashable_iff null = ((λ h. tt), (λ h. refl))
is_hashable_iff (bool b) = ((λ h. tt), (λ h. refl))
is_hashable_iff (int b n) = ((λ h. tt), (λ h. refl))
is_hashable_iff (float t) = ((λ h. tt), (λ h. refl))
is_hashable_iff (str t) = ((λ h. tt), (λ h. refl))
is_hashable_iff (opaque n) = ((λ h. tt), (λ h. refl))

all-is_hashable : (vs : List Value) → (all is_hashable vs ≡ true) ↔ All IsHashable vs
all-is_hashable [] = ((λ h. tt), (λ h. refl))
all-is_hashable (v ∷ vs) = ground (arith, is_hashable_iff v, all-is_hashable vs)

-- The scopes of a token: the elements of a list that a set may hold, or the words of a text.
abbrev pub ScopesAre : Value → List Value → Type 0
ScopesAre (arr xs) vs = All IsHashable (items xs) × (vs ≡ items xs)
ScopesAre (str s) vs = vs ≡ map str (words s)
ScopesAre token_scopes vs = ⊥

-- A list with an element that a set may not hold, or a value of another type.
abbrev pub HasNoScopes : Value → Type 0
HasNoScopes (arr xs) = All IsHashable (items xs) → ⊥
HasNoScopes (str s) = ⊥
HasNoScopes token_scopes = Unit

scope_set-cases :
    (token_scopes : Value)
    → ((vs : List Value) × ScopesAre token_scopes vs × (scope_set token_scopes ≡ ok vs))
      ⊎ (HasNoScopes token_scopes × ((e : Exc) × (scope_set token_scopes ≡ err e)))
unfolding scope_set
scope_set-cases (arr xs) = elim (Bool-cases (all is_hashable (items xs))) [
  | inl held ↦ inl (items xs, ((all-is_hashable (items xs)).0 held, refl), rw held refl)
  | inr unheld ↦ inr (
    (λ h. absurd (ground (arith, (all-is_hashable (items xs)).1 h))),
    (type_error "unhashable", rw unheld refl),
  )
]
scope_set-cases (str s) = inl (map str (words s), refl, refl)
scope_set-cases null = inr (tt, (attribute_error "split", refl))
scope_set-cases (bool b) = inr (tt, (attribute_error "split", refl))
scope_set-cases (int b n) = inr (tt, (attribute_error "split", refl))
scope_set-cases (float t) = inr (tt, (attribute_error "split", refl))
scope_set-cases (obj fs) = inr (tt, (attribute_error "split", refl))
scope_set-cases (opaque n) = inr (tt, (attribute_error "split", refl))

includes-cases :
    (required : List String) (vs : List Value)
    → (Covers vs required × (includes required vs ≡ true))
      ⊎ ((Covers vs required → ⊥) × (includes required vs ≡ false))
includes-cases required vs = elim (Bool-cases (includes required vs)) [
  | inl covered ↦ inl ((includes_iff required vs).0 covered, covered)
  | inr missing ↦ inr ((λ c. absurd (ground (arith, (includes_iff required vs).1 c))), missing)
]

-- How the validation of scopes ends.
abbrev pub Decides : List String → Value → Result Bool → Type 0
Decides required_scopes token_scopes result =
    ((vs : List Value) × ScopesAre token_scopes vs
      × ((Covers vs required_scopes × (result ≡ ok true))
          ⊎ ((Covers vs required_scopes → ⊥) × (result ≡ ok false))))
    ⊎ (HasNoScopes token_scopes × ((e : Exc) × (result ≡ err e)))

-- The scope validation returns true where every required scope is one of the token's scopes, which are
-- the elements of a list or the words of a text, and false where one is not. It raises where these are
-- of another type, or a list with an element that no set may hold.
pub validate_scope-Decides :
    (required_scopes : List String) (token_scopes : Value)
    → Decides required_scopes token_scopes (validate_scope required_scopes token_scopes)
unfolding validate_scope
validate_scope-Decides required_scopes token_scopes = elim (scope_set-cases token_scopes) [
  | inl (vs, are, set) ↦ elim (includes-cases required_scopes vs) [
    | inl (covered, is) ↦ inl (vs, are, inl (covered, rw set (ap ok is)))
    | inr (uncovered, is) ↦ inl (vs, are, inr (uncovered, rw set (ap ok is)))
  ]
  | inr (none_held, (e, raises)) ↦ inr (none_held, (e, rw raises refl))
]

texts-map_str : (ss : List String) → texts (map str ss) ≡ ss
texts-map_str [] = refl
texts-map_str (s ∷ ss) = λ i. s ∷ texts-map_str ss i

texts-items : (ss : List String) → texts (items (of_items (map str ss))) ≡ ss
texts-items ss = ap texts (items-of_items (map str ss)) ∙ texts-map_str ss

-- the default function, called as `check_oauth_func` calls it
validate_scope_function-truthy :
    (ss : List String) (token_scopes : Value) (validation : AuthResult)
    → settle (validate_scope_call (scopes_value (some ss) ∷ token_scopes ∷ [])) ≡ ok validation
    → is_truthy validation ≡ true
    → validate_scope ss token_scopes ≡ ok true
unfolding settle is_truthy truthy
validate_scope_function-truthy ss token_scopes validation h t =
    let (b, valid, same) =
      bind-eq-ok (validate_scope (texts (items (of_items (map str ss)))) token_scopes) _ h in
    let is_true : b ≡ true = ground arith in
    subst (λ l. validate_scope l token_scopes ≡ ok true) (texts-items ss) (valid ∙ ap ok is_true)

-- What the OAuth2 check of a token has established when it returns: the token information function
-- answered `token_info` for the token, and the scopes that this lists include every required scope.
abbrev pub OauthChecked : Function → Request → String → List String → AuthResult → Type 0
OauthChecked f r token required_scopes token_info =
    (generic_check f "Provided token is not valid" r (str token ∷ []) (some required_scopes)
      ≡ ok token_info)
    × ((token_scopes : Value) × (vs : List Value) × (token_scopes_of token_info ≡ ok token_scopes)
        × (scope_set token_scopes ≡ ok vs)
        × Covers vs required_scopes)

require_scope-ok :
    (b : Bool) (ss : List String) (ts : Value) (i j : AuthResult)
    → require_scope b ss ts i ≡ ok j
    → (b ≡ true) × (i ≡ j)
require_scope-ok true ss ts i j h = ground arith
require_scope-ok false ss ts i j h = cc

-- With the default scope validation, the OAuth2 check answers token information only if the token
-- information function answered it and its scopes cover the required ones.
pub check_oauth_func-OauthChecked :
    (f : Function) (r : Request) (token : String) (required_scopes : List String)
    (token_info : AuthResult)
    → check_oauth_func f validate_scope_function r token required_scopes ≡ ok token_info
    → OauthChecked f r token required_scopes token_info
unfolding check_oauth_func validate_scope_function generic_check
check_oauth_func-OauthChecked f r token required_scopes token_info h =
    let (i, checked, h₁) =
      bind-eq-ok
        (generic_check f "Provided token is not valid" r (str token ∷ []) (some required_scopes)) _
        h in
    let (ts, scopes, h₂) = bind-eq-ok (token_scopes_of i) _ h₁ in
    let (validation, validated, h₃) =
      bind-eq-ok (settle (validate_scope_call (scopes_value (some required_scopes) ∷ ts ∷ []))) _
        h₂ in
    let (valid, same) =
      require_scope-ok (is_truthy validation) required_scopes ts i token_info h₃ in
    let (vs, set, covered) =
      (validate_scope_iff required_scopes ts).0
        (validate_scope_function-truthy required_scopes ts validation validated valid) in
    (checked ∙ ap ok same, (ts, vs, sym (ap token_scopes_of same) ∙ scopes, set, covered))

-- ===== src/Middleware/Security/Tried.antt =====
-- How the security requirements of an operation are tried in order.
use connexion.Prelude.{
  String, ◌≡◌, refl, sym, ap, subst, ◌≢◌, ◌⊎◌, inl, inr, Bool, true, false, Option, none, some,
  List, [], ◌∷◌, ◌++◌, arith, All, if◌then◌else◌,
}
use connexion.Prelude.Dict
use connexion.Prelude.Dict.{Dict, get-set, get-set_self}
use connexion.Value.{Value, null, obj, end, fields, of_fields}
use connexion.Errors.{Result, ok, err, bind-eq-ok}
use connexion.Security.{AuthResult, no_value, info, Request, AuthFunc, Platform}
use connexion.Security.Lookup.{Scheme}
use connexion.Security.Verify.{verify_multiple_schemes, update_context}
use connexion.Security.Schemes.{verify_none}
use connexion.Security.Multiple.{
  Answers, IsRefusal, Refuses, verify_multiple_schemes-Answers_iff, verify_multiple_schemes-Refuses,
}
use connexion.Security.Accepts.{Accepts}
use connexion.Middleware.Security.{
  Requirement, scheme_func, requirement_funcs, combined, entry_funcs, auth_funcs, is_oauth2,
  scheme_type,
}

pub ok-injective {ℓ} : {A : Type ℓ} {a b : A} → ok a ≡ ok b → a ≡ b
ok-injective e = cc

module _ (platform : Platform) (schemes : Dict Scheme) where
  abbrev HasAll : Requirement → Dict AuthFunc → Type 0
  HasAll req funcs = All (λ scheme. Dict.get scheme.0 funcs ≢ none) req

  -- The token information of a requirement whose schemes answered `d`: that of its only scheme, or the
  -- dict of them all by scheme name.
  abbrev pub IsInfo : Dict AuthFunc → Dict Value → Value → Type 0
  IsInfo ((name, f) ∷ []) d v = d ≡ (name, v) ∷ []
  IsInfo funcs d v = v ≡ obj (of_fields (Dict.update [] d))

  -- `funcs` are the functions of the requirement, one for each of its schemes; each of them, called
  -- in order from the request `r`, answers token information, and the last leaves the request `s`.
  abbrev pub IsMet : Requirement → Request → Value → Request → Type 0
  IsMet req r v s =
      (funcs : Dict AuthFunc) × (requirement_funcs platform schemes false [] req ≡ ok (some funcs))
      × HasAll req funcs
      × ((d : Dict Value) × Answers funcs r d s × IsInfo funcs d v)

  abbrev Continues : String → Dict AuthFunc → Requirement → Dict AuthFunc → Type 0
  Continues name acc req funcs =
      (f : AuthFunc) × (oauth : Bool) × (requirement_funcs platform schemes oauth
          (Dict.set name f acc) req
        ≡ ok (some funcs))

  Continues-requirement_funcs :
      (oauth : Bool) (acc : Dict AuthFunc) (name : String) (scopes : List String)
      (req : Requirement) (funcs : Dict AuthFunc)
      → requirement_funcs platform schemes oauth acc ((name, scopes) ∷ req) ≡ ok (some funcs)
      → Continues name acc req funcs
  unfolding requirement_funcs
  Continues-requirement_funcs oauth acc name scopes req funcs h =
      let (o, made, next) = bind-eq-ok (scheme_func platform schemes oauth name scopes) _ h in
      elim o as (λ o. next_funcs o ≡ ok (some funcs) → Continues name acc req funcs) [
        | none ↦ λ e. cc
        | some f ↦ λ e. (f, (if is_oauth2 (scheme_type schemes name) then true else oauth), e)
      ]
        next
    where
      next_funcs : Option AuthFunc → Result (Option (Dict AuthFunc))
      next_funcs none = ok none
      next_funcs (some f) =
          requirement_funcs platform schemes
            (if is_oauth2 (scheme_type schemes name) then true else oauth) (Dict.set name f acc) req

  -- what `sec_req_funcs` holds stays in it
  requirement_funcs-keeps :
      (oauth : Bool) (acc : Dict AuthFunc) (req : Requirement) {funcs : Dict AuthFunc} (k : String)
      → requirement_funcs platform schemes oauth acc req ≡ ok (some funcs)
      → Dict.get k acc ≢ none
      → Dict.get k funcs ≢ none
  unfolding requirement_funcs
  requirement_funcs-keeps oauth acc [] k h there = ground arith
  requirement_funcs-keeps oauth acc ((name, scopes) ∷ req) {funcs} k h there =
      let (f, oauth', next) = Continues-requirement_funcs oauth acc name scopes req funcs h in
      requirement_funcs-keeps oauth' (Dict.set name f acc) req k next
        (ground (arith, get-set name k f acc))

  requirement_funcs-HasAll :
      (oauth : Bool) (acc : Dict AuthFunc) (req : Requirement) (funcs : Dict AuthFunc)
      → requirement_funcs platform schemes oauth acc req ≡ ok (some funcs)
      → HasAll req funcs
  requirement_funcs-HasAll oauth acc [] funcs h = tt
  requirement_funcs-HasAll oauth acc ((name, scopes) ∷ req) funcs h =
      let (f, oauth', next) = Continues-requirement_funcs oauth acc name scopes req funcs h in
      (
        requirement_funcs-keeps oauth' (Dict.set name f acc) req name next
            (ground (arith, get-set_self name f acc)),
        requirement_funcs-HasAll oauth' (Dict.set name f acc) req funcs next,
      )

  -- `LetsThrough security r v t`: from the request `r`, the requirements are tried in order. One that is
  -- `{}` or is met ends it, with the token information `v` and the request `t`; those before it refused
  -- the request, or have a scheme that cannot be checked.
  pub data LetsThrough : List Requirement → Request → Value → Request → Type 0 where
    unsecured :
        {security : List Requirement} {r : Request} → LetsThrough ([] ∷ security) r (obj end) r
    met :
        {req : Requirement} {security : List Requirement} {r t : Request} {v : Value}
        → IsMet req r v t
        → LetsThrough (req ∷ security) r v t
    refused :
        {req : Requirement} {security : List Requirement} {r s t : Request} {v : Value}
        (funcs : Dict AuthFunc)
        → requirement_funcs platform schemes false [] req ≡ ok (some funcs)
        → Refuses funcs r s
        → LetsThrough security s v t
        → LetsThrough (req ∷ security) r v t
    unusable :
        {req : Requirement} {security : List Requirement} {r t : Request} {v : Value}
        → requirement_funcs platform schemes false [] req ≡ ok none
        → LetsThrough security r v t
        → LetsThrough (req ∷ security) r v t

  -- How the first function of a list comes to an answer of the list.
  abbrev First : AuthFunc → List AuthFunc → Request → Value → Request → Type 0
  First f fs r v t =
      (f r ≡ (ok (info v), t))
      ⊎ ((o : Result AuthResult) × (s : Request) × IsRefusal o × (f r ≡ (o, s)) × Accepts fs s v t)

  Accepts-First :
      {f : AuthFunc} {fs : List AuthFunc} {r t : Request} {v : Value}
      → Accepts (f ∷ fs) r v t
      → First f fs r v t
  Accepts-First (Accepts.here e) = inl e
  Accepts-First (Accepts.passed {s = s} e a) = inr (ok no_value, s, tt, e, a)
  Accepts-First (Accepts.failed {s = s} {e = x} e a) = inr (err x, s, tt, e, a)

  -- the one function that is added for a requirement
  combined_func : Dict AuthFunc → AuthFunc
  combined_func ((name, f) ∷ []) = f
  combined_func funcs = verify_multiple_schemes funcs

  combined-one : (funcs : Dict AuthFunc) → combined (some funcs) ≡ combined_func funcs ∷ []
  unfolding combined_func
  combined-one [] = refl
  combined-one ((n, f) ∷ []) = refl
  combined-one ((n, f) ∷ g ∷ fs) = refl

  combined_func-Answers :
      (funcs : Dict AuthFunc) (r s : Request) (v : Value)
      → combined_func funcs r ≡ (ok (info v), s)
      → (d : Dict Value) × Answers funcs r d s × IsInfo funcs d v
  unfolding combined_func
  combined_func-Answers [] r s v e = (verify_multiple_schemes-Answers_iff [] r s v).0 e
  combined_func-Answers ((n, f) ∷ []) r s v e = ((n, v) ∷ [], Answers.answer e Answers.end, refl)
  combined_func-Answers ((n, f) ∷ g ∷ fs) r s v e =
      (verify_multiple_schemes-Answers_iff ((n, f) ∷ g ∷ fs) r s v).0 e

  combined_func-Refuses :
      (funcs : Dict AuthFunc) (r s : Request) (o : Result AuthResult)
      → IsRefusal o
      → combined_func funcs r ≡ (o, s)
      → Refuses funcs r s
  unfolding combined_func
  combined_func-Refuses [] r s o refusal e = verify_multiple_schemes-Refuses [] r s o refusal e
  combined_func-Refuses ((n, f) ∷ []) r s o refusal e = Refuses.stops refusal e
  combined_func-Refuses ((n, f) ∷ g ∷ fs) r s o refusal e =
      verify_multiple_schemes-Refuses ((n, f) ∷ g ∷ fs) r s o refusal e

  verify_none-unsecured :
      {security : List Requirement} {r t : Request} {v : Value}
      → verify_none r ≡ (ok (info v), t)
      → LetsThrough ([] ∷ security) r v t
  unfolding verify_none
  verify_none-unsecured {security} {r} {t} {v} e =
      subst (λ p. LetsThrough ([] ∷ security) r p.0 p.1) (info_of e) LetsThrough.unsecured
    where
      answer : Value → Request → Result AuthResult × Request
      answer w q = (ok (info w), q)

      pair : Value → Request → Value × Request
      pair w q = (w, q)

      info_of : {w v : Value} {r t : Request} → answer w r ≡ answer v t → pair w r ≡ pair v t
      info_of e = cc

  verify_none-answers :
      (r s : Request) (o : Result AuthResult) → IsRefusal o → verify_none r ≡ (o, s) → ⊥
  unfolding verify_none
  verify_none-answers r s o refusal e =
      subst IsRefusal (sym (ap (λ (p : Result AuthResult × Request). p.0) e)) refusal

  module _ (req : Requirement) (security : List Requirement) (hs : List AuthFunc)
      (later : (r t : Request) (v : Value) → Accepts hs r v t → LetsThrough security r v t) where
    funcs-LetsThrough :
        (funcs : Dict AuthFunc) {r t : Request} {v : Value}
        → requirement_funcs platform schemes false [] req ≡ ok (some funcs)
        → First (combined_func funcs) hs r v t
        → LetsThrough (req ∷ security) r v t
    funcs-LetsThrough funcs {r} {t} {v} made (inl e) = LetsThrough.met (
      funcs,
      made,
      requirement_funcs-HasAll false [] req funcs made,
      combined_func-Answers funcs r t v e,
    )
    funcs-LetsThrough funcs {r} {t} {v} made (inr (o, s, refusal, e, a)) =
        LetsThrough.refused funcs made (combined_func-Refuses funcs r s o refusal e) (later s t v a)

    combined-LetsThrough :
        (o : Option (Dict AuthFunc)) {r t : Request} {v : Value}
        → requirement_funcs platform schemes false [] req ≡ ok o
        → Accepts (combined o ++ hs) r v t
        → LetsThrough (req ∷ security) r v t
    combined-LetsThrough none {r} {t} {v} made a = LetsThrough.unusable made (later r t v a)
    combined-LetsThrough (some funcs) {r} {t} {v} made a =
        funcs-LetsThrough funcs made
          (Accepts-First (subst (λ l. Accepts (l ++ hs) r v t) (combined-one funcs) a))

  entry-LetsThrough :
      (req : Requirement) (security : List Requirement) (gs hs : List AuthFunc) {r t : Request}
      {v : Value}
      → entry_funcs platform schemes req ≡ ok gs
      → ((r t : Request) (v : Value) → Accepts hs r v t → LetsThrough security r v t)
      → Accepts (gs ++ hs) r v t
      → LetsThrough (req ∷ security) r v t
  unfolding entry_funcs
  entry-LetsThrough [] security gs hs {r} {t} {v} h later a =
      elim (Accepts-First (subst (λ l. Accepts (l ++ hs) r v t) (sym (ok-injective h)) a)) [
        | inl e ↦ verify_none-unsecured e
        | inr (o, s, refusal, e, b) ↦ absurd (verify_none-answers r s o refusal e)
      ]
  entry-LetsThrough (scheme ∷ req) security gs hs {r} {t} {v} h later a =
      let (o, made, same) =
        bind-eq-ok (requirement_funcs platform schemes false [] (scheme ∷ req)) _ h in
      combined-LetsThrough (scheme ∷ req) security hs later o made
        (subst (λ l. Accepts (l ++ hs) r v t) (sym (ok-injective same)) a)

  pub auth_funcs-LetsThrough :
      (security : List Requirement) (fs : List AuthFunc) {r t : Request} {v : Value}
      → auth_funcs platform schemes security ≡ ok fs
      → Accepts fs r v t
      → LetsThrough security r v t
  unfolding auth_funcs
  auth_funcs-LetsThrough [] fs {r} {t} {v} h a =
      elim (subst (λ l. Accepts l r v t) (sym (ok-injective h)) a) [ ]
  auth_funcs-LetsThrough (req ∷ security) fs {r} {t} {v} h a =
      let (gs, entry, h₁) = bind-eq-ok (entry_funcs platform schemes req) _ h in
      let (hs, rest, same) = bind-eq-ok (auth_funcs platform schemes security) _ h₁ in
      entry-LetsThrough req security gs hs entry
        (λ r t v b. auth_funcs-LetsThrough security hs rest b)
        (subst (λ l. Accepts l r v t) (sym (ok-injective same)) a)

  pub update_context-token_info :
      (v : Value) (before context : Dict Value)
      → update_context v before ≡ ok context
      → Dict.get "token_info" context ≡ some v
  unfolding update_context Dict.update
  update_context-token_info (obj fs) before context e =
      subst (λ c. Dict.get "token_info" c ≡ some (obj fs)) (ok-injective e)
        (get-set_self "token_info" (obj fs) (
          Dict.set "user" (Dict.get_or "sub" (fields fs) (Dict.get_or "uid" (fields fs) null))
            before))
  update_context-token_info v before context e = cc

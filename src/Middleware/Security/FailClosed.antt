-- ===== src/Middleware/Security/FailClosed.antt =====
-- A secured operation is reached only through a security requirement that is met.
use connexion.Prelude.{◌≡◌, refl, sym, ap, ◌∙◌, subst, ◌≢◌, false, none, some, List, [], ◌∷◌, All}
use connexion.Prelude.Dict
use connexion.Prelude.Dict.{Dict, get-set, get-set_self}
use connexion.Value.{Value}
use connexion.Errors.{Result, ok, err, bind-eq-ok}
use connexion.Security.{Request, AuthFunc, Platform}
use connexion.Security.Lookup.{Scheme}
use connexion.Security.Verify.{verify_security, no_authorization}
use connexion.Security.Accepts.{verify_security-ok_iff}
use connexion.Middleware.Security.{
  Requirement, requirement_funcs, entry_funcs, auth_funcs, get_verification_fn, call,
  after_verification,
}
use connexion.Middleware.Security.Tried.{
  ok-injective, LetsThrough, auth_funcs-LetsThrough, update_context-token_info,
}

module _ (platform : Platform) (schemes : Dict Scheme) where
  -- If an operation with a non-empty `security` list is called and the next app answers, then the
  -- requirements of the list were tried in order on the request that came in, up to one that is `{}` or
  -- is met: each of its schemes has a function, and these functions, called in order, answered token
  -- information. The next app was given the request with no change but its context, which holds this
  -- token information.
  pub call-LetsThrough {ℓ} :
      {A : Type ℓ} (security : List Requirement) {fn : Request → Result (Unit {0}) × Request}
      (next_app : Request → Result A) (r : Request) {a : A}
      → security ≢ []
      → get_verification_fn platform schemes (some security) ≡ ok fn
      → call fn next_app r ≡ ok a
      → (v : Value) × (t : Request) × (context : Dict Value) × LetsThrough platform schemes security
          r v t
        × (Dict.get "token_info" context ≡ some v)
        × (next_app (record r { context = context }) ≡ ok a)
  unfolding get_verification_fn call
  call-LetsThrough [] next_app r ne h k = absurd (ne refl)
  call-LetsThrough {A = A} (req ∷ security) {fn} next_app r {a} ne h k =
      let (fs, built, same) = bind-eq-ok (auth_funcs platform schemes (req ∷ security)) _ h in
      go fs built (verify_security fs r) refl
        (subst (λ f. after_verification next_app r (f r) ≡ ok a) (sym (ok-injective same)) k)
    where
      go :
          (fs : List AuthFunc)
          → auth_funcs platform schemes (req ∷ security) ≡ ok fs
          → (o : Result (Unit {0}) × Request) → verify_security fs r ≡ o
          → after_verification next_app r o ≡ ok a
          → (v : Value) × (t : Request) × (context : Dict Value) × LetsThrough platform schemes
              (req ∷ security)
              r
              v
              t
            × (Dict.get "token_info" context ≡ some v)
            × (next_app (record r { context = context }) ≡ ok a)
      go fs built (ok u, s) e m =
          let (v, t, context, accepted, set, same_request) = (verify_security-ok_iff fs r s).0 e in
          (
            v,
            t,
            s.context,
            auth_funcs-LetsThrough platform schemes (req ∷ security) fs built accepted,
            ap (λ (q : Request). Dict.get "token_info" q.context) same_request
                ∙ update_context-token_info platform schemes v t.context context set,
            m,
          )
      go fs built (err x, s) e m = cc

  -- no scheme of the requirement chain can be checked: a function is missing, a type is unknown
  abbrev pub IsUnusable : Requirement → Type 0
  IsUnusable req = (req ≢ []) × (requirement_funcs platform schemes false [] req ≡ ok none)

  entry_funcs-IsUnusable :
      (req : Requirement) → IsUnusable req → entry_funcs platform schemes req ≡ ok []
  unfolding entry_funcs
  entry_funcs-IsUnusable [] (ne, broken) = absurd (ne refl)
  entry_funcs-IsUnusable (scheme ∷ req) (ne, broken) = rw broken

  auth_funcs-IsUnusable :
      (security : List Requirement)
      → All IsUnusable security
      → auth_funcs platform schemes security ≡ ok []
  unfolding auth_funcs
  auth_funcs-IsUnusable [] h = refl
  auth_funcs-IsUnusable (req ∷ security) (u, h) =
      rw (entry_funcs-IsUnusable req u, auth_funcs-IsUnusable security h)

  -- If no requirement of a non-empty `security` list can be checked, as where the security functions
  -- are missing, every request is denied with a 401, and left as it was.
  pub get_verification_fn-IsUnusable :
      (security : List Requirement)
      → security ≢ []
      → All IsUnusable security
      → (fn : Request → Result (Unit {0}) × Request) × (get_verification_fn platform schemes
            (some security)
          ≡ ok fn)
        × ((r : Request) → fn r ≡ (err no_authorization, r))
  unfolding get_verification_fn verify_security
  get_verification_fn-IsUnusable [] ne h = absurd (ne refl)
  get_verification_fn-IsUnusable (req ∷ security) ne h =
      (verify_security [], rw (auth_funcs-IsUnusable (req ∷ security) h), λ r. refl)

-- ===== src/Security/Accepts.antt =====
-- When `verify_security` lets a request through, and what it raises otherwise.
use connexion.Prelude.{
  ◌≡◌, refl, sym, ap, ◌∙◌, ◌≢◌, ◌↔◌, ◌⊎◌, inl, inr, List, [], ◌∷◌, ◌++◌, append_assoc, append-nil,
  arith,
}
use connexion.Prelude.Dict.{Dict}
use connexion.Value.{Value}
use connexion.Errors.{Exc, Result, ok, err}
use connexion.Security.{AuthResult, no_value, info, Request, AuthFunc}
use connexion.Security.Verify.{
  Search, found, exhausted, try_funcs, raise_most_specific, update_context, no_authorization,
  raised, conclude, set_context, verify_security,
}

-- `Accepts fs r v s`: from request `r` a function of `fs` answers token information `v` and leaves
-- the request `s`, and every function before it, called in order, has answered the sentinel or
-- raised.
pub data Accepts : List AuthFunc → Request → Value → Request → Type 0 where
  here :
      {f : AuthFunc} {fs : List AuthFunc} {r s : Request} {v : Value}
      → f r ≡ (ok (info v), s)
      → Accepts (f ∷ fs) r v s
  passed :
      {f : AuthFunc} {fs : List AuthFunc} {r s t : Request} {v : Value}
      → f r ≡ (ok no_value, s)
      → Accepts fs s v t
      → Accepts (f ∷ fs) r v t
  failed :
      {f : AuthFunc} {fs : List AuthFunc} {r s t : Request} {e : Exc} {v : Value}
      → f r ≡ (err e, s)
      → Accepts fs s v t
      → Accepts (f ∷ fs) r v t

-- `Rejects fs r es s`: no function of `fs` accepts; `es` are the exceptions raised, in order.
pub data Rejects : List AuthFunc → Request → List Exc → Request → Type 0 where
  none_left : {r : Request} → Rejects [] r [] r
  passed :
      {f : AuthFunc} {fs : List AuthFunc} {r s t : Request} {es : List Exc}
      → f r ≡ (ok no_value, s)
      → Rejects fs s es t
      → Rejects (f ∷ fs) r es t
  failed :
      {f : AuthFunc} {fs : List AuthFunc} {r s t : Request} {e : Exc} {es : List Exc}
      → f r ≡ (err e, s)
      → Rejects fs s es t
      → Rejects (f ∷ fs) r (e ∷ es) t

-- The three ways in which a call ends, with the equation.
pub Call-cases :
    (o : Result AuthResult × Request)
    → ((s : Request) × (o ≡ (ok no_value, s)))
      ⊎ ((v : Value) × (s : Request) × (o ≡ (ok (info v), s)))
      ⊎ ((e : Exc) × (s : Request) × (o ≡ (err e, s)))
Call-cases (ok no_value, s) = inl (s, refl)
Call-cases (ok (info v), s) = inr (inl (v, s, refl))
Call-cases (err e, s) = inr (inr (e, s, refl))

abbrev Outcome : List AuthFunc → List Exc → Request → Search × Request → Type 0
Outcome fs errors r o =
    ((v : Value) × (s : Request) × Accepts fs r v s × (o ≡ (found v, s)))
    ⊎ ((es : List Exc) × (s : Request) × Rejects fs r es s × (o ≡ (exhausted (errors ++ es), s)))

module _ (f : AuthFunc) (fs : List AuthFunc) (errors : List Exc) {r s : Request} where
  try_funcs-passed : f r ≡ (ok no_value, s) → try_funcs (f ∷ fs) errors r ≡ try_funcs fs errors s
  unfolding try_funcs
  try_funcs-passed e = ground arith

  try_funcs-failed :
      (x : Exc) → f r ≡ (err x, s) → try_funcs (f ∷ fs) errors r ≡ try_funcs fs (errors ++ x ∷ []) s
  unfolding try_funcs
  try_funcs-failed x e = ground arith

  try_funcs-here : (v : Value) → f r ≡ (ok (info v), s) → try_funcs (f ∷ fs) errors r ≡ (found v, s)
  unfolding try_funcs
  try_funcs-here v e = ground arith

  Outcome-passed :
      f r ≡ (ok no_value, s)
      → Outcome fs errors s (try_funcs fs errors s)
      → Outcome (f ∷ fs) errors r (try_funcs (f ∷ fs) errors r)
  Outcome-passed e (inl (v, t, a, h)) = inl (v, t, Accepts.passed e a, try_funcs-passed e ∙ h)
  Outcome-passed e (inr (es, t, a, h)) = inr (es, t, Rejects.passed e a, try_funcs-passed e ∙ h)

  Outcome-failed :
      (x : Exc)
      → f r ≡ (err x, s)
      → Outcome fs (errors ++ x ∷ []) s (try_funcs fs (errors ++ x ∷ []) s)
      → Outcome (f ∷ fs) errors r (try_funcs (f ∷ fs) errors r)
  Outcome-failed x e (inl (v, t, a, h)) = inl (v, t, Accepts.failed e a, try_funcs-failed x e ∙ h)
  Outcome-failed x e (inr (es, t, a, h)) = inr (
    x ∷ es,
    t,
    Rejects.failed e a,
    try_funcs-failed x e ∙ (h ∙ ap (λ l. (exhausted l, t)) (append_assoc errors (x ∷ []) es)),
  )

try_funcs-Outcome :
    (fs : List AuthFunc) (errors : List Exc) (r : Request)
    → Outcome fs errors r (try_funcs fs errors r)
unfolding try_funcs
try_funcs-Outcome [] errors r =
    inr ([], r, Rejects.none_left, ap (λ l. (exhausted l, r)) (sym (append-nil errors)))
try_funcs-Outcome (f ∷ fs) errors r = elim (Call-cases (f r)) [
  | inl (s, e) ↦ Outcome-passed f fs errors e (try_funcs-Outcome fs errors s)
  | inr (inl (v, s, e)) ↦ inl (v, s, Accepts.here e, try_funcs-here f fs errors v e)
  | inr (inr (x, s, e)) ↦ Outcome-failed f fs errors x e (try_funcs-Outcome fs (errors ++ x ∷ []) s)
]

try_funcs-found :
    {fs : List AuthFunc} {r t : Request} {v : Value} (errors : List Exc)
    → Accepts fs r v t
    → try_funcs fs errors r ≡ (found v, t)
try_funcs-found errors (Accepts.here {f = f} {fs = fs} {v = v} e) = try_funcs-here f fs errors v e
try_funcs-found errors (Accepts.passed {f = f} {fs = fs} e a) =
    try_funcs-passed f fs errors e ∙ try_funcs-found errors a
try_funcs-found errors (Accepts.failed {f = f} {fs = fs} {e = x} e a) =
    try_funcs-failed f fs errors x e ∙ try_funcs-found (errors ++ x ∷ []) a

try_funcs-exhausted :
    {fs : List AuthFunc} {r t : Request} {es : List Exc} (errors : List Exc)
    → Rejects fs r es t
    → try_funcs fs errors r ≡ (exhausted (errors ++ es), t)
unfolding try_funcs
try_funcs-exhausted errors (Rejects.none_left {r = r}) =
    ap (λ l. (exhausted l, r)) (sym (append-nil errors))
try_funcs-exhausted errors (Rejects.passed {f = f} {fs = fs} e a) =
    try_funcs-passed f fs errors e ∙ try_funcs-exhausted errors a
try_funcs-exhausted errors (Rejects.failed {f = f} {fs = fs} {t = t} {e = x} {es = es} e a) =
    try_funcs-failed f fs errors x e
    ∙ (try_funcs-exhausted (errors ++ x ∷ []) a
        ∙ ap (λ l. (exhausted l, t)) (append_assoc errors (x ∷ []) es))

-- The request goes through with the token information `v`, found at the request `t`.
abbrev pub Grants : List AuthFunc → Request → Request → Type 0
Grants fs r s =
    (v : Value) × (t : Request) × (context : Dict Value) × Accepts fs r v t
    × (update_context v t.context ≡ ok context)
    × (s ≡ record t { context = context })

conclude-ok :
    (v : Value) (t : Request) {s : Request}
    → conclude (found v, t) ≡ (ok tt, s)
    → (context : Dict Value) × (update_context v t.context ≡ ok context)
      × (s ≡ record t { context = context })
conclude-ok v t {s} h = go (update_context v t.context) refl (ground arith)
  where
    go :
        (o : Result (Dict Value))
        → update_context v t.context ≡ o
        → set_context t o ≡ (ok tt, s)
        → (context : Dict Value) × (update_context v t.context ≡ ok context)
          × (s ≡ record t { context = context })
    go (ok c) e k = (c, e, sym (ap (λ o. o.1) k))
    go (err x) e k = cc

conclude-exhausted : (es : List Exc) (t s : Request) → conclude (exhausted es, t) ≢ (ok tt, s)
conclude-exhausted [] t s h = cc
conclude-exhausted (e ∷ es) t s h = cc

-- `verify_security` returns exactly if some security function of the list answers token
-- information, each one before it having answered the sentinel or raised, and that information is
-- a dict; then the request has the context updated and is otherwise as that function left it.
pub verify_security-ok_iff :
    (fs : List AuthFunc) (r s : Request) → (verify_security fs r ≡ (ok tt, s)) ↔ Grants fs r s
unfolding verify_security
verify_security-ok_iff fs r s = (to (try_funcs-Outcome fs [] r), from)
  where
    to :
        Outcome fs [] r (try_funcs fs [] r)
        → conclude (try_funcs fs [] r) ≡ (ok tt, s)
        → Grants fs r s
    to (inl (v, t, a, e)) h =
        let (context, set, same) = conclude-ok v t (sym (ap conclude e) ∙ h) in
        (v, t, context, a, set, same)
    to (inr (es, t, a, e)) h = absurd (conclude-exhausted es t s (sym (ap conclude e) ∙ h))

    from : Grants fs r s → conclude (try_funcs fs [] r) ≡ (ok tt, s)
    from (v, t, context, a, set, same) =
        ap conclude (try_funcs-found [] a)
        ∙ (ap (set_context t) set ∙ ap (λ q. (ok tt, q)) (sym same))

abbrev pub if_none : List Exc → Exc → Exc → Exc
if_none [] x y = x
if_none (e ∷ es) x y = y

-- If no security function of the list answers token information, `verify_security` raises: a 401
-- where none of them raised, else what `_raise_most_specific` chooses among their exceptions.
pub verify_security-Rejects :
    (fs : List AuthFunc) (r s : Request) (es : List Exc)
    → Rejects fs r es s
    → verify_security fs r
      ≡ (err (if_none es no_authorization (raised (raise_most_specific es))), s)
unfolding verify_security
verify_security-Rejects fs r s [] h = ap conclude (try_funcs-exhausted [] h)
verify_security-Rejects fs r s (e ∷ es) h = ap conclude (try_funcs-exhausted [] h)

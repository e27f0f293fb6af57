-- ===== src/Security/Multiple.antt =====
-- `verify_multiple_schemes` takes its schemes in AND fashion.
use connexion.Prelude.{String, ◌≡◌, refl, sym, ap, subst, ◌∙◌, ◌↔◌, inl, inr, [], ◌∷◌, arith}
use connexion.Prelude.Dict
use connexion.Prelude.Dict.{Dict}
use connexion.Value.{Value, obj, of_fields}
use connexion.Errors.{Exc, Result, ok, err}
use connexion.Security.{AuthResult, no_value, info, Request, AuthFunc}
use connexion.Security.Verify.{verify_schemes, verify_multiple_schemes}
use connexion.Security.Accepts.{Call-cases}

-- `Answers schemes r d s`: called in order from request `r`, each scheme's function answers token
-- information; `d` holds it by scheme, and `s` is the request left by the last.
pub data Answers : Dict AuthFunc → Request → Dict Value → Request → Type 0 where
  end : {r : Request} → Answers [] r [] r
  answer :
      {name : String} {f : AuthFunc} {schemes : Dict AuthFunc} {r s t : Request} {v : Value}
      {d : Dict Value}
      → f r ≡ (ok (info v), s)
      → Answers schemes s d t
      → Answers ((name, f) ∷ schemes) r ((name, v) ∷ d) t

module _ (name : String) (f : AuthFunc) (schemes : Dict AuthFunc) (acc : Dict Value)
    {r s : Request} where
  verify_schemes-answer :
      (v : Value)
      → f r ≡ (ok (info v), s)
      → verify_schemes ((name, f) ∷ schemes) acc r ≡ verify_schemes schemes (Dict.set name v acc) s
  unfolding verify_schemes
  verify_schemes-answer v e = ground arith

verify_schemes-Answers :
    {schemes : Dict AuthFunc} {r s : Request} {d : Dict Value} (acc : Dict Value)
    → Answers schemes r d s
    → verify_schemes schemes acc r ≡ (ok (info (obj (of_fields (Dict.update acc d)))), s)
unfolding verify_schemes Dict.update
verify_schemes-Answers acc Answers.end = refl
verify_schemes-Answers acc (Answers.answer {name = name} {f = f} {schemes = rest} {v = v} e a) =
    verify_schemes-answer name f rest acc v e ∙ verify_schemes-Answers (Dict.set name v acc) a

abbrev Answered : Dict AuthFunc → Dict Value → Request → Value → Request → Type 0
Answered schemes acc r v s =
    (d : Dict Value) × Answers schemes r d s × (v ≡ obj (of_fields (Dict.update acc d)))

module _ (name : String) (f : AuthFunc) (schemes : Dict AuthFunc) (acc : Dict Value) {r s : Request}
    {v : Value} (h : verify_schemes ((name, f) ∷ schemes) acc r ≡ (ok (info v), s)) where
  not_passed : {t : Request} → f r ≡ (ok no_value, t) → ⊥
  unfolding verify_schemes
  not_passed e = ground arith

  not_failed : {t : Request} (x : Exc) → f r ≡ (err x, t) → ⊥
  unfolding verify_schemes
  not_failed x e = ground arith

Answered-verify_schemes :
    (schemes : Dict AuthFunc) (acc : Dict Value) (r s : Request) (v : Value)
    → verify_schemes schemes acc r ≡ (ok (info v), s)
    → Answered schemes acc r v s
unfolding verify_schemes Dict.update
Answered-verify_schemes [] acc r s v h = (
  [],
  subst (λ q. Answers [] r [] q) (ap (λ (o : Result AuthResult × Request). o.1) h) Answers.end,
  ground arith,
)
Answered-verify_schemes ((name, f) ∷ rest) acc r s v h = elim (Call-cases (f r)) [
  | inl (t, e) ↦ absurd (not_passed name f rest acc h e)
  | inr (inl (w, t, e)) ↦
      let (d, a, same) =
        Answered-verify_schemes rest (Dict.set name w acc) t s v
          (sym (verify_schemes-answer name f rest acc w e) ∙ h) in
      ((name, w) ∷ d, Answers.answer e a, same)
  | inr (inr (x, t, e)) ↦ absurd (not_failed name f rest acc h x e)
]

-- The combined function answers exactly if every scheme's function answers token information,
-- called in order on the request that the one before left; its answer is then the dict of them all
-- by scheme name.
pub verify_multiple_schemes-Answers_iff :
    (schemes : Dict AuthFunc) (r s : Request) (v : Value)
    → (verify_multiple_schemes schemes r ≡ (ok (info v), s))
      ↔ ((d : Dict Value) × Answers schemes r d s × (v ≡ obj (of_fields (Dict.update [] d))))
unfolding verify_multiple_schemes
verify_multiple_schemes-Answers_iff schemes r s v = (
  Answered-verify_schemes schemes [] r s v,
  λ (d, a, same). verify_schemes-Answers [] a ∙ ap (λ w. (ok (info w), s)) (sym same),
)

-- The sentinel or an exception.
abbrev pub IsRefusal : Result AuthResult → Type 0
IsRefusal (ok no_value) = Unit
IsRefusal (ok (info v)) = ⊥
IsRefusal (err e) = Unit

-- `Refuses schemes r s`: called in order from request `r`, each scheme's function answers token
-- information up to one that answers the sentinel or raises, and leaves the request `s`.
pub data Refuses : Dict AuthFunc → Request → Request → Type 0 where
  stops :
      {name : String} {f : AuthFunc} {schemes : Dict AuthFunc} {r s : Request}
      {o : Result AuthResult}
      → IsRefusal o
      → f r ≡ (o, s)
      → Refuses ((name, f) ∷ schemes) r s
  answers :
      {name : String} {f : AuthFunc} {schemes : Dict AuthFunc} {r s t : Request} {v : Value}
      → f r ≡ (ok (info v), s)
      → Refuses schemes s t
      → Refuses ((name, f) ∷ schemes) r t

module _ (name : String) (f : AuthFunc) (schemes : Dict AuthFunc) (acc : Dict Value)
    {r s : Request} where
  verify_schemes-no_value :
      f r ≡ (ok no_value, s) → verify_schemes ((name, f) ∷ schemes) acc r ≡ (ok no_value, s)
  unfolding verify_schemes
  verify_schemes-no_value e = ground arith

  verify_schemes-raises :
      (x : Exc) → f r ≡ (err x, s) → verify_schemes ((name, f) ∷ schemes) acc r ≡ (err x, s)
  unfolding verify_schemes
  verify_schemes-raises x e = ground arith

Refuses-verify_schemes :
    (schemes : Dict AuthFunc) (acc : Dict Value) (r s : Request) (o : Result AuthResult)
    → IsRefusal o
    → verify_schemes schemes acc r ≡ (o, s)
    → Refuses schemes r s
unfolding verify_schemes
Refuses-verify_schemes [] acc r s o refusal h =
    absurd (subst IsRefusal (sym (ap (λ (p : Result AuthResult × Request). p.0) h)) refusal)
Refuses-verify_schemes ((name, f) ∷ rest) acc r s o refusal h = elim (Call-cases (f r)) [
  | inl (t, e) ↦ Refuses.stops refusal (e ∙ sym (verify_schemes-no_value name f rest acc e) ∙ h)
  | inr (inl (w, t, e)) ↦ Refuses.answers e (
      Refuses-verify_schemes rest (Dict.set name w acc) t s o refusal
        (sym (verify_schemes-answer name f rest acc w e) ∙ h))
  | inr (inr (x, t, e)) ↦
      Refuses.stops refusal (e ∙ sym (verify_schemes-raises name f rest acc x e) ∙ h)
]

-- A combined function that answers the sentinel or raises was stopped by the function of a scheme.
pub verify_multiple_schemes-Refuses :
    (schemes : Dict AuthFunc) (r s : Request) (o : Result AuthResult)
    → IsRefusal o
    → verify_multiple_schemes schemes r ≡ (o, s)
    → Refuses schemes r s
unfolding verify_multiple_schemes
verify_multiple_schemes-Refuses schemes r s o = Refuses-verify_schemes schemes [] r s o

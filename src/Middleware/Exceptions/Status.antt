-- ===== src/Middleware/Exceptions/Status.antt =====
-- The status of the response to an exception.
use connexion.Prelude.{
  ℕ, String, ◌≡◌, refl, sym, ◌∙◌, inl, inr, Bool-cases, Bool, true, false, Option, none, some, [],
  ◌∷◌, ◌==◌, if◌then◌else◌,
}
use connexion.Prelude.Dict
use connexion.Prelude.Dict.{Dict, get-set}
use connexion.Value.{Value, int, str, truthy}
use connexion.Errors.{Exc, Problem, problem, status_of}
use connexion.Middleware.Exceptions.{Response, problem_handler, http_handler, handle}

get-update :
    (k : String) (d e : Dict Value)
    → Dict.get k e ≡ none
    → Dict.get k (Dict.update d e) ≡ Dict.get k d
unfolding Dict.get Dict.update
get-update k d [] h = refl
get-update k d ((j, v) ∷ e) h = elim (Bool-cases (k == j)) [
  | inl same ↦ absurd (found v (sym (rw same refl) ∙ h))
  | inr other ↦
      get-update k (Dict.set j v d) e (sym (rw other refl) ∙ h) ∙ get-set j k v d ∙ rw other refl
]
  where
    found : (v : Value) → some v ≡ none → ⊥
    found v e = cc

-- The members that a problem adds do not replace its status.
abbrev pub OwnStatus : Exc → Type 0
OwnStatus (Exc.problem_exception p) = Dict.get "status" p.ext ≡ none
OwnStatus e = Unit

abbrev pub HasStatus : ℕ → Response → Type 0
HasStatus status r =
    (r.status_code ≡ status)
    × (r.media_type ≡ "application/problem+json")
    × (Dict.get "status" r.content ≡ some (int false status))

status-if :
    (b : Bool) (v : Value) (d : Dict Value)
    → Dict.get "status" (if b then Dict.set "instance" v d else d) ≡ Dict.get "status" d
status-if true v d = get-set "instance" "status" v d
status-if false v d = refl

-- the members that every problem has
base : Problem → Dict Value
base p =
    ("type", if truthy p.kind then p.kind else str "about:blank")
    ∷ ("title", p.title)
    ∷ ("detail", p.detail)
    ∷ ("status", int false p.status)
    ∷ []

problem-status :
    (p : Problem)
    → Dict.get "status" p.ext ≡ none
    → Dict.get "status" (problem p).body ≡ some (int false p.status)
unfolding problem Dict.get base
problem-status p h =
    get-update "status"
      (if truthy p.instance_ then Dict.set "instance" p.instance_ (base p) else base p) p.ext h
    ∙ status-if (truthy p.instance_) p.instance_ (base p)

problem_handler-HasStatus :
    (p : Problem) → Dict.get "status" p.ext ≡ none → HasStatus p.status (problem_handler p)
unfolding problem_handler
problem_handler-HasStatus p h = (refl, refl, problem-status p h)

http_handler-HasStatus :
    (status : ℕ) (detail : String) → HasStatus status (http_handler status detail)
unfolding http_handler Dict.get
http_handler-HasStatus status detail = (refl, refl, refl)

abbrev pub HasStatusIf : ℕ → Option Response → Type 0
HasStatusIf status none = Unit
HasStatusIf status (some r) = HasStatus status r

-- The response to an exception has the status by which the security handlers rank it, in its code and in
-- its body, and the media type of problems. The exception adds no status of its own to the body.
pub handle-HasStatus :
    (exception : Exc) → OwnStatus exception → HasStatusIf (status_of exception) (handle exception)
unfolding handle status_of
handle-HasStatus (Exc.problem_exception p) own = problem_handler-HasStatus p own
handle-HasStatus (Exc.http_exception n d) own = http_handler-HasStatus n d
handle-HasStatus (Exc.oauth_problem d) own = http_handler-HasStatus 401 d
handle-HasStatus (Exc.oauth_response_problem d) own = http_handler-HasStatus 401 d
handle-HasStatus (Exc.oauth_scope_problem d r t) own = http_handler-HasStatus 403 d
handle-HasStatus e own = tt

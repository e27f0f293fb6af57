-- ===== src/Security/Specific.antt =====
-- Which of several errors `_raise_most_specific` raises.
use connexion.Prelude.{
  ℕ, ◌+◌, ◌≤◌, ◌≡◌, refl, ◌≢◌, Option, none, some, List, [], ◌∷◌, arith, leb, eqb, if◌then◌else◌,
  All, inl, inr, Option-cases, ap, sym, subst, ◌∙◌,
}
use connexion.Errors.{Exc, status_of}
use connexion.Security.Verify.{
  ByStatus, put, find, status_to_exc, lowest, raise_most_specific, otherwise, lowest_in,
}

-- 403 before 401 before every other status, and those in their order
abbrev pub rank : ℕ → ℕ
rank n = if eqb n 403 then 0 else if eqb n 401 then 1 else n + 2

abbrev or_later : Option Exc → Exc → Option Exc
or_later none e = some e
or_later (some f) e = some f

-- the last exception of a list that has the status
pub last_with : ℕ → List Exc → Option Exc
last_with n [] = none
last_with n (e ∷ es) = if eqb n (status_of e) then or_later (last_with n es) e else last_with n es

abbrev later : Option Exc → Option Exc → Option Exc
later none o = o
later (some e) o = some e

find-put :
    (n m : ℕ) (e : Exc) (d : ByStatus) → find n (put m e d) ≡ (if eqb n m then some e else find n d)
unfolding find put
find-put n m e [] = refl
find-put n m e ((k, f) ∷ d) = ground (arith, find-put n m e d)

find-status_to_exc :
    (n : ℕ) (es : List Exc) (d : ByStatus)
    → find n (status_to_exc d es) ≡ later (last_with n es) (find n d)
unfolding status_to_exc last_with
find-status_to_exc n [] d = refl
find-status_to_exc n (e ∷ es) d =
    ground (arith, find-status_to_exc n es (put (status_of e) e d), find-put n (status_of e) e d)

-- a status of the dict is not below `lowest`
lowest-le : (k : ℕ) (d : ByStatus) → lowest k d ≤ k
unfolding lowest
lowest-le k [] = omega arith
lowest-le k ((m, e) ∷ d) = ground (arith, lowest-le (if leb k m then k else m) d)

lowest-le_of_find : (n k : ℕ) (d : ByStatus) → find n d ≢ none → lowest k d ≤ n
unfolding lowest find
lowest-le_of_find n k [] h = absurd (h refl)
lowest-le_of_find n k ((m, e) ∷ d) h = ground (
  arith,
  lowest-le (if leb k m then k else m) d,
  lowest-le_of_find n (if leb k m then k else m) d,
)

-- and `lowest` is a status of the dict
find-lowest : (k : ℕ) (d : ByStatus) → lowest k d ≢ k → find (lowest k d) d ≢ none
unfolding lowest find
find-lowest k [] h = absurd (h refl)
find-lowest k ((m, e) ∷ d) h = ground (arith, find-lowest (if leb k m then k else m) d)

abbrev Chosen : ByStatus → Option Exc → Type 0
Chosen d o =
    (e : Exc) × (n : ℕ) × (o ≡ some e)
    × (find n d ≡ some e)
    × ((m : ℕ) → find m d ≢ none → rank n ≤ rank m)

lowest-is_found : (n : ℕ) (e : Exc) (d : ByStatus) → find (lowest n d) ((n, e) ∷ d) ≢ none
unfolding find
lowest-is_found n e d = ground (arith, find-lowest n d)

lowest-le_keys : (n m : ℕ) (e : Exc) (d : ByStatus) → find m ((n, e) ∷ d) ≢ none → lowest n d ≤ m
unfolding find
lowest-le_keys n m e d h = ground (arith, lowest-le n d, lowest-le_of_find m n d)

lowest_in-Chosen :
    (d : ByStatus) → d ≢ [] → find 403 d ≡ none → find 401 d ≡ none → Chosen d (lowest_in d)
lowest_in-Chosen [] h p q = absurd (h refl)
lowest_in-Chosen ((n, e) ∷ d) h p q = elim (Option-cases (find (lowest n d) ((n, e) ∷ d))) [
  | inl gone ↦ absurd (lowest-is_found n e d gone)
  | inr (f, is_f) ↦
      (f, lowest n d, is_f, is_f, λ m there. ground (arith, lowest-le_keys n m e d there))
]

select-Chosen :
    (d : ByStatus)
    → d ≢ []
    → Chosen d (otherwise (find 403 d) (otherwise (find 401 d) (lowest_in d)))
select-Chosen d h = elim (Option-cases (find 403 d)) [
  | inr (e, is_e) ↦ (e, 403, rw is_e refl, is_e, λ m there. ground arith)
  | inl no_403 ↦ elim (Option-cases (find 401 d)) [
    | inr (e, is_e) ↦ (e, 401, rw (no_403, is_e) refl, is_e, λ m there. ground arith)
    | inl no_401 ↦ rw (no_403, no_401) (lowest_in-Chosen d h no_403 no_401)
  ]
]

last_with-status : (n : ℕ) (es : List Exc) {e : Exc} → last_with n es ≡ some e → n ≡ status_of e
unfolding last_with
last_with-status n [] h = cc
last_with-status n (f ∷ es) {e} h = elim (Option-cases (last_with n es)) [
  | inl gone ↦ ground arith
  | inr (g, is_g) ↦ last_with-status n es (ground arith)
]

find-by_status : (n : ℕ) (es : List Exc) → find n (status_to_exc [] es) ≡ last_with n es
unfolding find
find-by_status n es = ground (arith, find-status_to_exc n es [])

rank-le-All :
    (k : ℕ) (es : List Exc)
    → ((m : ℕ) → last_with m es ≢ none → k ≤ rank m)
    → All (λ f. k ≤ rank (status_of f)) es
unfolding last_with
rank-le-All k [] h = tt
rank-le-All k (e ∷ es) h =
    (h (status_of e) (ground arith), rank-le-All k es (λ m there. h m (ground arith)))

status_to_exc-ne-nil : (e : Exc) (es : List Exc) → status_to_exc [] (e ∷ es) ≢ []
unfolding find last_with
status_to_exc-ne-nil e es h =
    ground (arith, find-by_status (status_of e) (e ∷ es), ap (find (status_of e)) h)

-- For a non-empty list of errors an exception is raised: the last one that has its status, and no
-- error of the list has a status that comes before its own in the order 403, 401, then the others
-- by number.
pub raise_most_specific_lem :
    (es : List Exc)
    → es ≢ []
    → (e : Exc) × (raise_most_specific es ≡ some e)
      × (last_with (status_of e) es ≡ some e)
      × All (λ f. rank (status_of e) ≤ rank (status_of f)) es
unfolding raise_most_specific
raise_most_specific_lem [] h = absurd (h refl)
raise_most_specific_lem (x ∷ xs) h =
    let es = x ∷ xs in
    let (e, n, is_e, at, least) = select-Chosen (status_to_exc [] es) (status_to_exc-ne-nil x xs) in
    let here : last_with n es ≡ some e = sym (find-by_status n es) ∙ at in
    let same = last_with-status n es here in
    (
      e,
      is_e,
      subst (λ k. last_with k es ≡ some e) same here,
      subst (λ k. All (λ f. rank k ≤ rank (status_of f)) es) same
          (rank-le-All (rank n) es
            (λ m there. least m (λ gone. there (sym (find-by_status m es) ∙ gone)))),
    )

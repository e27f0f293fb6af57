-- ===== src/Validators/Parameter/Requests.antt =====
-- The requests that pass `validate_request`.
use connexion.Prelude.{
  String, ◌≡◌, refl, ap, ◌∙◌, ◌↔◌, ◌⊎◌, inl, inr, Bool, true, false, Bool-cases, Option, List, [],
  ◌∷◌, if◌then◌else◌, All, mem,
}
use connexion.Prelude.Dict
use connexion.Prelude.Dict.{Dict}
use connexion.Value.{Value}
use connexion.Errors.{Done, done, Result, ok, ◌>>=◌, bind-eq-ok}
use connexion.Utils.Coerce.{Builtins}
use connexion.Validators.Parameter.{
  HttpRequest, located, names_of, validate_parameter_list, extra_or, validate_strict, validate_all,
  validate_query_parameter, validate_path_parameter, validate_header_parameter,
  validate_cookie_parameter, validate_request,
}
use connexion.Validators.Parameter.Accepted.{Done-path, Passes, NoExtra, validate_all-Passes}

-- Two steps return exactly if both do.
both-done :
    (r next : Result Done) → ((r >>= λ _. next) ≡ ok done) ↔ ((r ≡ ok done) × (next ≡ ok done))
both-done r next = (
  λ h. let (d, first, rest) = bind-eq-ok r (λ _. next) h in (first ∙ ap ok (Done-path d), rest),
  λ (h, k). ap (λ (q : Result Done). q >>= λ _. next) h ∙ k,
)

module _ (a b c d e : Result Done) where
  from_d : Result Done
  from_d = d >>= λ _. e

  from_c : Result Done
  from_c = c >>= λ _. from_d

  from_b : Result Done
  from_b = b >>= λ _. from_c

  all-done :
      ((a >>= λ _. b >>= λ _. c >>= λ _. d >>= λ _. e) ≡ ok done)
      ↔ ((a ≡ ok done) × (b ≡ ok done) × (c ≡ ok done) × (d ≡ ok done) × (e ≡ ok done))
  unfolding from_b from_c from_d
  all-done = (
    λ h.
        let (a_done, h₁) = (both-done a from_b).0 h in
        let (b_done, h₂) = (both-done b from_c).0 h₁ in
        let (c_done, h₃) = (both-done c from_d).0 h₂ in
        let (d_done, e_done) = (both-done d e).0 h₃ in (a_done, b_done, c_done, d_done, e_done),
    λ (a_done, b_done, c_done, d_done, e_done). (both-done a from_b).1 (
      a_done,
      (both-done b from_c).1
          (b_done, (both-done c from_d).1 (c_done, (both-done d e).1 (d_done, e_done))),
    ),
  )

module _ (py : Builtins) (schema_error : (schema value : Value) → Option String)
    (resolve_query : Dict Value → Result (Dict Value)) (parameters : List Value)
    (strict_validation : Bool) where
  abbrev extra : List String → List String → List String
  unfolding validate_parameter_list
  extra ks names =
      validate_parameter_list py schema_error resolve_query parameters strict_validation ks names

  abbrev extra_problem : List String → Result Done
  extra_problem ks = extra_or py schema_error resolve_query parameters strict_validation ks

  abbrev query_names : Result (List String)
  unfolding names_of located
  query_names =
      names_of py schema_error resolve_query parameters strict_validation
        (located py schema_error resolve_query parameters strict_validation "query" parameters)

  extra_problem_iff :
      (ks names : List String)
      → (extra_problem (extra ks names) ≡ ok done) ↔ All (λ k. mem k names ≡ true) ks
  unfolding extra validate_parameter_list
  extra_problem_iff [] names = ((λ h. tt), (λ h. refl))
  extra_problem_iff (k ∷ ks) names = elim (Bool-cases (mem k names)) [
    | inl known ↦
        rw known (
          (λ h. (refl, (extra_problem_iff ks names).0 h)),
          (λ h. (extra_problem_iff ks names).1 h.1),
        )
    | inr unknown ↦ rw unknown ((λ h. absurd (cc)), (λ h. absurd (cc)))
  ]

  by_strict :
      (strict : Bool) (request : HttpRequest)
      → ((if strict
            then (query_names >>= λ names.
                extra_problem (extra (Dict.keys request.query_params) names))
            else ok done)
          ≡ ok done)
        ↔ ((strict ≡ false)
            ⊎ ((strict ≡ true)
                × ((names : List String) × (query_names ≡ ok names)
                    × All (λ k. mem k names ≡ true) (Dict.keys request.query_params))))
  by_strict false request = ((λ h. inl refl), (λ h. refl))
  by_strict true request = (
    λ h.
        let (names, named, h₁) = bind-eq-ok query_names _ h in
        inr (refl, (names, named, (extra_problem_iff (Dict.keys request.query_params) names).0 h₁)),
    λ h. elim h [
      | inl no_strict ↦ absurd (cc)
      | inr (strict, (names, named, known)) ↦
          ap (λ r. r >>= λ names. extra_problem (extra (Dict.keys request.query_params) names))
            named
          ∙ (extra_problem_iff (Dict.keys request.query_params) names).1 known
    ],
  )

  validate_strict-NoExtra :
      (request : HttpRequest)
      → (validate_strict py schema_error resolve_query parameters strict_validation request
          ≡ ok done)
        ↔ NoExtra py schema_error resolve_query parameters strict_validation request
  unfolding validate_strict extra query_names
  validate_strict-NoExtra request = by_strict strict_validation request

  loop : (Value → HttpRequest → Result (Option String)) → String → HttpRequest → Result Done
  loop validate location request =
      validate_all py schema_error resolve_query parameters strict_validation validate
        (located py schema_error resolve_query parameters strict_validation location parameters)
        request

  abbrev pub AllPass :
      (Value → HttpRequest → Result (Option String)) → String → HttpRequest → Type 0
  AllPass validate location request =
      All (Passes validate request)
        (located py schema_error resolve_query parameters strict_validation location parameters)

  loop-AllPass :
      (validate : Value → HttpRequest → Result (Option String)) (location : String)
      (request : HttpRequest)
      → (loop validate location request ≡ ok done) ↔ AllPass validate location request
  unfolding loop
  loop-AllPass validate location request =
      validate_all-Passes py schema_error resolve_query parameters strict_validation validate
        (located py schema_error resolve_query parameters strict_validation location parameters)
        request

  -- A request passes exactly if it has no extra query parameter, where validation is strict, and
  -- every parameter of the operation in the query, the path, the headers and the cookies has no error.
  pub validate_request-AllPass_iff :
      (request : HttpRequest)
      → (validate_request py schema_error resolve_query parameters strict_validation request
          ≡ ok done)
        ↔ (NoExtra py schema_error resolve_query parameters strict_validation request
            × AllPass
                (validate_query_parameter py schema_error resolve_query parameters
                  strict_validation)
                "query"
                request
            × AllPass
                (validate_path_parameter py schema_error resolve_query parameters strict_validation)
                "path"
                request
            × AllPass
                (validate_header_parameter py schema_error resolve_query parameters
                  strict_validation)
                "header"
                request
            × AllPass
                (validate_cookie_parameter py schema_error resolve_query parameters
                  strict_validation)
                "cookie"
                request)
  unfolding validate_request loop
  validate_request-AllPass_iff request =
      let query_fn =
        validate_query_parameter py schema_error resolve_query parameters strict_validation in
      let path_fn =
        validate_path_parameter py schema_error resolve_query parameters strict_validation in
      let header_fn =
        validate_header_parameter py schema_error resolve_query parameters strict_validation in
      let cookie_fn =
        validate_cookie_parameter py schema_error resolve_query parameters strict_validation in
      let chain =
        all-done
          (validate_strict py schema_error resolve_query parameters strict_validation request)
          (loop query_fn "query" request) (loop path_fn "path" request)
          (loop header_fn "header" request) (loop cookie_fn "cookie" request) in
      let strict = validate_strict-NoExtra request in
      let query = loop-AllPass query_fn "query" request in
      let path = loop-AllPass path_fn "path" request in
      let header = loop-AllPass header_fn "header" request in
      let cookie = loop-AllPass cookie_fn "cookie" request in
      (
        λ h.
            let (s, q, p, hd, c) = chain.0 h in
            (strict.0 s, query.0 q, path.0 p, header.0 hd, cookie.0 c),
        λ (s, q, p, hd, c). chain.1 (strict.1 s, query.1 q, path.1 p, header.1 hd, cookie.1 c),
      )

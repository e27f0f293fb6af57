-- ===== src/Validators/Parameter/Declared.antt =====
-- The requests that pass `validate_request`, by the parameters that the operation declares.
use connexion.Prelude.{
  String, ◌≡◌, sym, subst, ◌∙◌, ◌↔◌, ◌⊎◌, inl, inr, Bool, true, false, Option, List, [], ◌∷◌, All,
  Any, mem,
}
use Prim.Native.Char.{char}
use connexion.Prelude.Text.{lower, replace}
use connexion.Prelude.Dict
use connexion.Prelude.Dict.{Dict}
use connexion.Value.{Value}
use connexion.Errors.{done, Result, ok, bind-eq-ok}
use connexion.Utils.Coerce.{Builtins}
use connexion.Validators.Parameter.{
  HttpRequest, or_none, validate_query_parameter, validate_path_parameter,
  validate_header_parameter, validate_cookie_parameter, validate_request,
}
use connexion.Validators.Parameter.Accepted.{Passes, NoExtra}
use connexion.Validators.Parameter.Requests.{AllPass, validate_request-AllPass_iff}
use connexion.Validators.Parameter.Found.{IsIn, IsNamed, IsFound, IsFound-named}
use connexion.Validators.Parameter.Located.{
  at_location, All-located, Any-located, HasName, names_of-HasName, HasName-names_of,
}

module _ (py : Builtins) (schema_error : (schema value : Value) → Option String)
    (resolve_query : Dict Value → Result (Dict Value)) (parameters : List Value)
    (strict_validation : Bool) where
  -- Where validation is strict, the parameters of the query have names, and each name of the query that
  -- came is that of one of them.
  abbrev pub IsDeclared : HttpRequest → Type 0
  IsDeclared request =
      (strict_validation ≡ false)
      ⊎ ((strict_validation ≡ true)
          × All (λ p. IsIn "query" p → (name : String) × IsNamed name p) parameters
          × All (λ k. Any (λ p. IsIn "query" p × IsNamed k p) parameters)
              (Dict.keys request.query_params))

  All-map :
      {P Q : String → Type 0}
      → ((k : String) → P k → Q k)
      → (ks : List String) → All P ks
      → All Q ks
  All-map f [] h = tt
  All-map f (k ∷ ks) (first, rest) = (f k first, All-map f ks rest)

  NoExtra-IsDeclared :
      (request : HttpRequest)
      → NoExtra py schema_error resolve_query parameters strict_validation request
        ↔ IsDeclared request
  NoExtra-IsDeclared request = (
    λ h. elim h [
      | inl lax ↦ inl lax
      | inr (strict, (names, named, known)) ↦
          let has_names =
            HasName-names_of py schema_error resolve_query parameters strict_validation
              (at_location py schema_error resolve_query parameters strict_validation "query"
                parameters)
              names named in
          let (names', named', member) =
            names_of-HasName py schema_error resolve_query parameters strict_validation
              (at_location py schema_error resolve_query parameters strict_validation "query"
                parameters)
              has_names in
          inr (
            strict,
            (All-located py schema_error resolve_query parameters strict_validation "query"
                  (HasName py schema_error resolve_query parameters strict_validation) parameters).0
                has_names,
            All-map
                (λ k is_member.
                  (Any-located py schema_error resolve_query parameters strict_validation "query"
                      (IsNamed k) parameters).0
                    ((member k).0
                      (subst (λ l. mem k l ≡ true) (same_names (sym named ∙ named')) is_member)))
                (Dict.keys request.query_params) known,
          )
    ],
    λ h. elim h [
      | inl lax ↦ inl lax
      | inr (strict, named, known) ↦
          let (names, all_named, member) =
            names_of-HasName py schema_error resolve_query parameters strict_validation
              (at_location py schema_error resolve_query parameters strict_validation "query"
                parameters)
              ((All-located py schema_error resolve_query parameters strict_validation "query"
                  (HasName py schema_error resolve_query parameters strict_validation) parameters).1
                named) in
          inr (
            strict,
            (
              names,
              all_named,
              All-map
                  (λ k declared. (member k).1 (
                    (Any-located py schema_error resolve_query parameters strict_validation "query"
                        (IsNamed k) parameters).1
                      declared))
                  (Dict.keys request.query_params) known,
            ),
          )
    ],
  )
    where
      same_names : {a b : List String} → ok a ≡ ok b → a ≡ b
      same_names e = cc

  All-iff :
      {P Q : Value → Type 0} → ((p : Value) → P p ↔ Q p) → (ps : List Value) → All P ps ↔ All Q ps
  All-iff f [] = ((λ h. tt), (λ h. tt))
  All-iff f (p ∷ ps) = (
    λ (first, rest). ((f p).0 first, (All-iff f ps).0 rest),
    λ (first, rest). ((f p).1 first, (All-iff f ps).1 rest),
  )

  -- every parameter of the operation that stands there has P
  abbrev pub AllIn : String → (Value → Type 0) → Type 0
  AllIn location P = All (λ p. IsIn location p → P p) parameters

  -- A parameter of the query is found in what the parser resolves.
  abbrev pub IsResolved : HttpRequest → Value → Type 0
  IsResolved request param =
      (d : Dict Value) × (resolve_query request.query_params ≡ ok d)
      × IsFound py schema_error "query" (λ name. or_none (Dict.get name d)) param

  AllPass-AllIn :
      (validate : Value → HttpRequest → Result (Option String)) (location : String)
      (request : HttpRequest) (P : Value → Type 0)
      → ((p : Value) → Passes validate request p ↔ P p)
      → AllPass py schema_error resolve_query parameters strict_validation validate location request
        ↔ AllIn location P
  AllPass-AllIn validate location request P passes =
      let moved = All-iff passes (
        at_location py schema_error resolve_query parameters strict_validation location
          parameters) in
      let there =
        All-located py schema_error resolve_query parameters strict_validation location P
          parameters in
      ((λ h. there.0 (moved.0 h)), (λ h. moved.1 (there.1 h)))

  Passes-IsResolved :
      (request : HttpRequest) (p : Value)
      → Passes
          (validate_query_parameter py schema_error resolve_query parameters strict_validation)
          request
          p
        ↔ IsResolved request p
  unfolding validate_query_parameter
  Passes-IsResolved request p = (
    λ (e, h, no_error).
        let (d, resolved, h₁) = bind-eq-ok (resolve_query request.query_params) _ h in
        (
          d,
          resolved,
          (IsFound-named py schema_error "query" (λ name. or_none (Dict.get name d)) p).0
              (e, h₁, no_error),
        ),
    λ (d, resolved, is_found).
        let (e, h, no_error) =
          (IsFound-named py schema_error "query" (λ name. or_none (Dict.get name d)) p).1
            is_found in
        (e, rw resolved h, no_error),
  )

  Passes-path :
      (request : HttpRequest) (p : Value)
      → Passes
          (validate_path_parameter py schema_error resolve_query parameters strict_validation)
          request
          p
        ↔ IsFound py schema_error "path"
            (λ name. or_none (Dict.get (replace b'-' (char b'_' tt) name) request.path_params))
            p
  unfolding validate_path_parameter
  Passes-path request p =
      IsFound-named py schema_error "path"
        (λ name. or_none (Dict.get (replace b'-' (char b'_' tt) name) request.path_params)) p

  Passes-header :
      (request : HttpRequest) (p : Value)
      → Passes
          (validate_header_parameter py schema_error resolve_query parameters strict_validation)
          request
          p
        ↔ IsFound py schema_error "header"
            (λ name. or_none (Dict.get (lower name) request.headers))
            p
  unfolding validate_header_parameter
  Passes-header request p =
      IsFound-named py schema_error "header"
        (λ name. or_none (Dict.get (lower name) request.headers)) p

  Passes-cookie :
      (request : HttpRequest) (p : Value)
      → Passes
          (validate_cookie_parameter py schema_error resolve_query parameters strict_validation)
          request
          p
        ↔ IsFound py schema_error "cookie" (λ name. or_none (Dict.get name request.cookies)) p
  unfolding validate_cookie_parameter
  Passes-cookie request p =
      IsFound-named py schema_error "cookie" (λ name. or_none (Dict.get name request.cookies)) p

  -- A request is accepted exactly if, where validation is strict, each name in its query is one of a query
  -- parameter of the operation, and every parameter of the operation has a name and an accepted value:
  -- in the query as the parser resolves it, in the path under its name with underscores for dashes, in
  -- the headers under its name in lower case, and in the cookies. A value is accepted if it is missing and
  -- not required, or an allowed null, or if it is coerced to one for which the schema has no message.
  pub validate_request-IsDeclared_iff :
      (request : HttpRequest)
      → (validate_request py schema_error resolve_query parameters strict_validation request
          ≡ ok done)
        ↔ (IsDeclared request
            × AllIn "query" (IsResolved request)
            × AllIn "path" (
                IsFound py schema_error "path" (λ name.
                  or_none (Dict.get (replace b'-' (char b'_' tt) name) request.path_params)))
            × AllIn "header" (
                IsFound py schema_error "header"
                  (λ name. or_none (Dict.get (lower name) request.headers)))
            × AllIn "cookie" (
                IsFound py schema_error "cookie" (λ name. or_none (Dict.get name request.cookies))))
  validate_request-IsDeclared_iff request =
      let passes =
        validate_request-AllPass_iff py schema_error resolve_query parameters strict_validation
          request in
      let extra = NoExtra-IsDeclared request in
      let query =
        AllPass-AllIn
          (validate_query_parameter py schema_error resolve_query parameters strict_validation)
          "query" request _ (Passes-IsResolved request) in
      let path =
        AllPass-AllIn
          (validate_path_parameter py schema_error resolve_query parameters strict_validation)
          "path" request _ (Passes-path request) in
      let header =
        AllPass-AllIn
          (validate_header_parameter py schema_error resolve_query parameters strict_validation)
          "header" request _ (Passes-header request) in
      let cookie =
        AllPass-AllIn
          (validate_cookie_parameter py schema_error resolve_query parameters strict_validation)
          "cookie" request _ (Passes-cookie request) in
      (
        λ h.
            let (s, q, p, hd, c) = passes.0 h in
            (extra.0 s, query.0 q, path.0 p, header.0 hd, cookie.0 c),
        λ (s, q, p, hd, c). passes.1 (extra.1 s, query.1 q, path.1 p, header.1 hd, cookie.1 c),
      )

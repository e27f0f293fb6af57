-- ===== src/Validators/Json/Replay.antt =====
-- What `JSONRequestBodyValidator.wrapped_receive` hands on.
use connexion.Prelude.{
  ℕ, subst, ◌≡◌, refl, sym, ap, ◌∙◌, ◌↔◌, true, false, Bool-cases, inl, inr, Option, none, some,
  List, [], ◌∷◌, ◌++◌, arith,
}
use connexion.Value.{Value, str}
use connexion.Errors.{Exc, done, Done, Result, ok, ◌>>=◌, bind-eq-ok, bad_request_problem}
use connexion.Asgi.{Message, Receive, queue, received, received-kept, has_more}
use connexion.Validators.Json.{
  ValidationError, valid_or, Tools, validate, parse, check_messages, full_message,
}
use connexion.Validators.Json.Conforms.{Conforms, check_messages-Conforms, Conforms-check_messages}
use connexion.Validators.Json.Request.{
  and_read, read_messages, checked, checked_or_waits, wrapped_receive,
}

-- The messages of one body: each but the last says that there are more.
abbrev pub IsBody : List Message → Type 0
IsBody [] = ⊥
IsBody (m ∷ []) = has_more m.more_body ≡ false
IsBody (m ∷ n ∷ ms) = (has_more m.more_body ≡ true) × IsBody (n ∷ ms)

IsBody-cons :
    (m : Message) (ms : List Message) → has_more m.more_body ≡ true → IsBody ms → IsBody (m ∷ ms)
IsBody-cons m [] more body = absurd body
IsBody-cons m (n ∷ ms) more body = (more, body)

read_messages-more :
    (m : Message) (ms : List Message)
    → has_more m.more_body ≡ true
    → read_messages (m ∷ ms) ≡ and_read m (read_messages ms)
unfolding read_messages
read_messages-more m ms h = rw (read_messages, h) refl

read_messages-last :
    (m : Message) (ms : List Message)
    → has_more m.more_body ≡ false
    → read_messages (m ∷ ms) ≡ some (m ∷ [], ms)
unfolding read_messages
read_messages-last m ms h = rw (read_messages, h) refl

abbrev Read : List Message → List Message × List Message → Type 0
Read coming (body, rest) = IsBody body × (coming ≡ body ++ rest)

Read-subst :
    (coming : List Message) (p q : List Message × List Message)
    → some p ≡ some q
    → Read coming p
    → Read coming q
Read-subst coming p q e =
    subst
      (λ (o : Option (List Message × List Message)). elim o as (λ o. Type 0) [
        | none ↦ ⊥
        | some r ↦ Read coming r
      ])
      e

and_read-Read :
    (m : Message) (ms : List Message) (o : Option (List Message × List Message))
    (p : List Message × List Message)
    → has_more m.more_body ≡ true
    → and_read m o ≡ some p
    → ((q : List Message × List Message) → o ≡ some q → Read ms q)
    → Read (m ∷ ms) p
and_read-Read m ms none p more e ih = cc
and_read-Read m ms (some (body, rest)) p more e ih =
    let (is_body, is_ms) = ih (body, rest) refl in
    Read-subst (m ∷ ms) (m ∷ body, rest) p e
      (IsBody-cons m body more is_body, ap (λ l. m ∷ l) is_ms)

read_messages-Read :
    (coming : List Message) (p : List Message × List Message)
    → read_messages coming ≡ some p
    → Read coming p
unfolding read_messages
read_messages-Read [] p e = cc
read_messages-Read (m ∷ ms) p e = elim (Bool-cases (has_more m.more_body)) [
  | inl more ↦
      and_read-Read m ms (read_messages ms) p more (sym (read_messages-more m ms more) ∙ e)
        (λ q h. read_messages-Read ms q h)
  | inr last ↦
      Read-subst (m ∷ ms) (m ∷ [], ms) p (sym (read_messages-last m ms last) ∙ e) (last, refl)
]

Read-read_messages :
    (body rest : List Message) → IsBody body → read_messages (body ++ rest) ≡ some (body, rest)
Read-read_messages [] rest body = absurd body
Read-read_messages (m ∷ []) rest last = read_messages-last m rest last
Read-read_messages (m ∷ n ∷ ms) rest (more, body) =
    read_messages-more m (n ∷ ms ++ rest) more
    ∙ ap (and_read m) (Read-read_messages (n ∷ ms) rest body)

module _ (tools : Tools) where
  checked_or_waits-some :
      (o : Option (List Message × List Message)) (r : Receive)
      → checked_or_waits tools o ≡ some (ok r)
      → (p : List Message × List Message) × (o ≡ some p) × (checked tools p ≡ ok r)
  unfolding checked_or_waits
  checked_or_waits-some none r h = cc
  checked_or_waits-some (some p) r h = (p, refl, ground arith)

  raise : ValidationError → Exc
  raise e = bad_request_problem (str (full_message e))

  is_validate : (v : Value) → validate tools v ≡ valid_or raise (tools.schema_error v)
  unfolding validate raise
  is_validate v = refl

  Done-path : (d : Done) → d ≡ done
  Done-path done = refl

  checked-Conforms :
      (body rest : List Message) (r : Receive)
      → checked tools (body, rest) ≡ ok r
      → Conforms tools (parse tools) body × (r ≡ queue body rest)
  unfolding checked
  checked-Conforms body rest r h =
      let (d, passed, same) =
        bind-eq-ok (check_messages tools (parse tools) (validate tools) body) _ h in
      (
        check_messages-Conforms tools (parse tools) raise (validate tools) is_validate body
            (passed ∙ ap ok (Done-path d)),
        ground arith,
      )

  Conforms-checked :
      (body rest : List Message)
      → Conforms tools (parse tools) body
      → checked tools (body, rest) ≡ ok (queue body rest)
  unfolding checked
  Conforms-checked body rest c =
      ap (λ (r : Result Done). r >>= λ _. ok (queue body rest))
        (Conforms-check_messages tools (parse tools) raise (validate tools) is_validate body c)

  -- The validator returns exactly if the messages of one body come whose body conforms: it is empty, an
  -- allowed null, or parses to a value that the schema accepts. It hands on what it has read, and then
  -- what is still to come.
  pub wrapped_receive-Conforms_iff :
      (coming : List Message) (r : Receive)
      → (wrapped_receive tools coming ≡ some (ok r)) ↔ (
          (body : List Message) × (rest : List Message) × (coming ≡ body ++ rest)
          × IsBody body
          × Conforms tools (parse tools) body
          × (r ≡ queue body rest))
  unfolding wrapped_receive checked_or_waits
  wrapped_receive-Conforms_iff coming r = (
    λ h.
        let ((body, rest), read, h₁) = checked_or_waits-some (read_messages coming) r h in
        let (is_body, is_coming) = read_messages-Read coming (body, rest) read in
        let (c, same) = checked-Conforms body rest r h₁ in
        (body, rest, is_coming, is_body, c, same),
    λ (body, rest, is_coming, is_body, c, same).
        ap (λ ms. checked_or_waits tools (read_messages ms)) is_coming
        ∙ ap (checked_or_waits tools) (Read-read_messages body rest is_body)
        ∙ ap some (Conforms-checked body rest c ∙ ap ok (sym same)),
  )

  -- The `receive` that the validator hands on gives the same messages in the same order as the one that
  -- it wraps would have given, however often it is called.
  pub received-wrapped_receive :
      (coming : List Message) (r : Receive) (n : ℕ)
      → wrapped_receive tools coming ≡ some (ok r)
      → received n r ≡ received n (queue [] coming)
  received-wrapped_receive coming r n h =
      let (body, rest, is_coming, is_body, c, same) = (wrapped_receive-Conforms_iff coming r).0 h in
      ap (received n) same
      ∙ received-kept n body rest
      ∙ ap (λ ms. received n (queue [] ms)) (sym is_coming)

-- ===== src/Validators/Json/Held.antt =====
-- What `JSONResponseBodyValidator.send` lets out of a sequence of messages.
use connexion.Prelude.{
  ◌≡◌, refl, sym, ap, ◌∙◌, String, Bool, true, false, ◌||◌, ◌==◌, if◌then◌else◌, List, [], ◌∷◌,
  ◌++◌, append-nil, append_assoc, All,
}
use connexion.Value.{Value}
use connexion.Errors.{Exc, Done, done, Result, ok, err, non_conforming_response_body}
use connexion.Asgi.{Message, has_more}
use connexion.Validators.Json.{
  ValidationError, Tools, valid_or, validate_response, full_message, check_messages,
}
use connexion.Validators.Json.Conforms.{Conforms, check_messages-Conforms}
use connexion.Validators.Json.Response.{Sender, flush, send}

-- the start of a response, or a part of its body that is not the last
abbrev pub is_kept : Message → Bool
is_kept m = m.kind == "http.response.start" || has_more m.more_body

-- The messages of one response: only the last ends it.
abbrev pub IsResponse : List Message → Type 0
IsResponse [] = ⊥
IsResponse (m ∷ []) = is_kept m ≡ false
IsResponse (m ∷ n ∷ ms) = (is_kept m ≡ true) × IsResponse (n ∷ ms)

abbrev AreKept : List Message → Type 0
AreKept = All (λ m. is_kept m ≡ true)

AreKept-snoc :
    (ms : List Message) (m : Message) → AreKept ms → is_kept m ≡ true → AreKept (ms ++ m ∷ [])
AreKept-snoc [] m kept keep = (keep, tt)
AreKept-snoc (n ∷ ms) m (first, kept) keep = (first, AreKept-snoc ms m kept keep)

IsResponse-cons :
    (m : Message) (ms : List Message) → is_kept m ≡ true → IsResponse ms → IsResponse (m ∷ ms)
IsResponse-cons m [] keep is_response = absurd is_response
IsResponse-cons m (n ∷ ms) keep is_response = (keep, is_response)

IsResponse-snoc :
    (ms : List Message) (m : Message) → AreKept ms → is_kept m ≡ false → IsResponse (ms ++ m ∷ [])
IsResponse-snoc [] m kept last = last
IsResponse-snoc (n ∷ ms) m (first, kept) last =
    IsResponse-cons n (ms ++ m ∷ []) first (IsResponse-snoc ms m kept last)

abbrev pub empty : Sender
empty = record { messages = []; sent = [] }

module _ (tools : Tools) (parse : String → Result Value) where
  abbrev pub and_run : Result Done × Sender → (Sender → Result Done × Sender) → Result Done × Sender
  and_run (ok u, s) next = next s
  and_run (err e, s) next = (err e, s)

  -- The messages one by one, up to the first that raises.
  unfoldable pub send_all : List Message → Sender → Result Done × Sender
  unfolding send
  send_all [] s = (ok done, s)
  send_all (m ∷ ms) s = and_run (send tools parse m s) (send_all ms)

  -- Whole responses whose bodies conform, one after another.
  pub data Released : List Message → Type 0 where
    nothing : Released []
    and_body :
        {ms : List Message} (body : List Message)
        → Released ms
        → IsResponse body
        → Conforms tools parse body
        → Released (ms ++ body)

  unfoldable pub raise : ValidationError → Exc
  raise e = non_conforming_response_body (full_message e)

  pub is_validate : (v : Value) → validate_response tools v ≡ valid_or raise (tools.schema_error v)
  unfolding validate_response raise
  is_validate v = refl

  unfoldable pub checks : List Message → Result Done
  checks ms = check_messages tools parse (validate_response tools) ms

  -- What one message does: it is kept, or what is kept is let out, or the check raises.
  abbrev Step : Message → Sender → Result Done × Sender → Type 0
  Step m s (r, t) =
      Released t.sent
      × ((rest : List Message) × (t.sent ++ rest ≡ s.sent ++ (s.messages ++ m ∷ []))
          × ((r ≡ ok done) → (rest ≡ t.messages) × AreKept t.messages))

  flush-Step :
      (m : Message) (s : Sender) (r : Result Done)
      → Released s.sent
      → AreKept s.messages
      → is_kept m ≡ false
      → checks (s.messages ++ m ∷ []) ≡ r
      → Step m s (flush tools parse r (s.messages ++ m ∷ []) s.sent)
  unfolding checks
  flush-Step m s (ok done) released kept last checked = (
    Released.and_body (s.messages ++ m ∷ []) released (IsResponse-snoc s.messages m kept last)
        (check_messages-Conforms tools parse raise (validate_response tools) is_validate _ checked),
    ([], append-nil _, λ h. (refl, tt)),
  )
  flush-Step m s (err e) released kept last checked =
      (released, (s.messages ++ m ∷ [], refl, λ h. absurd (cc)))

  Step-if :
      (m : Message) (s : Sender) (b : Bool) (p q : Result Done × Sender)
      → (b ≡ true → Step m s p)
      → (b ≡ false → Step m s q)
      → Step m s (if b then p else q)
  Step-if m s true p q h k = h refl
  Step-if m s false p q h k = k refl

  send-Step :
      (m : Message) (s : Sender)
      → Released s.sent
      → AreKept s.messages
      → Step m s (send tools parse m s)
  unfolding send checks
  send-Step m s released kept =
      let messages = s.messages ++ m ∷ [] in
      Step-if m s (m.kind == "http.response.start" || has_more m.more_body)
        (ok done, record { messages = messages; sent = s.sent })
        (flush tools parse (checks messages) messages s.sent)
        (λ keep. (released, (messages, refl, λ h. (refl, AreKept-snoc s.messages m kept keep))))
        (λ last. flush-Step m s (checks messages) released kept last refl)

  -- what a sequence of messages does
  abbrev pub Held : List Message → List Message → Result Done × Sender → Type 0
  Held before ms (r, t) =
      Released t.sent
      × ((rest : List Message) × (t.sent ++ rest ≡ before ++ ms)
          × ((r ≡ ok done) → (rest ≡ t.messages) × AreKept rest))

  shift :
      (m : Message) (xs ys zs : List Message) → (xs ++ (ys ++ m ∷ [])) ++ zs ≡ (xs ++ ys) ++ m ∷ zs
  shift m xs ys zs = simp append_assoc

  Held-and_run :
      (m : Message) (ms : List Message) (s : Sender) (p : Result Done × Sender)
      → Step m s p
      → ((t : Sender)
          → Released t.sent
          → AreKept t.messages
          → Held (t.sent ++ t.messages) ms (send_all ms t))
      → Held (s.sent ++ s.messages) (m ∷ ms) (and_run p (send_all ms))
  Held-and_run m ms s (err e, t) (released, (rest, kept, h)) ih = (
    released,
    (
      rest ++ ms,
      sym (append_assoc t.sent rest ms) ∙ ap (λ l. l ++ ms) kept ∙ shift m s.sent s.messages ms,
      λ k. absurd (cc),
    ),
  )
  Held-and_run m ms s (ok done, t) (released, (rest, kept, h)) ih =
      let (released_all, (left, all, k)) = ih t released (h refl).1 in
      (
        released_all,
        (
          left,
          all
              ∙ ap (λ l. (t.sent ++ l) ++ ms) (sym (h refl).0)
              ∙ ap (λ l. l ++ ms) kept
              ∙ shift m s.sent s.messages ms,
          k,
        ),
      )

  Held-send_all :
      (ms : List Message) (s : Sender)
      → Released s.sent
      → AreKept s.messages
      → Held (s.sent ++ s.messages) ms (send_all ms s)
  unfolding send_all
  Held-send_all [] s released kept =
      (released, (s.messages, sym (append-nil (s.sent ++ s.messages)), λ h. (refl, kept)))
  Held-send_all (m ∷ ms) s released kept =
      Held-and_run m ms s (send tools parse m s) (send-Step m s released kept)
        (λ t h k. Held-send_all ms t h k)

  -- Whatever messages the application sends, what is let out are whole responses, one after another: in
  -- each only the last message ends a response, and the body conforms. It is a first part of the messages
  -- in their order; the rest is what the validator still keeps where no message raised, and then no
  -- message of it ends a response.
  pub send_all-Held : (ms : List Message) → Held [] ms (send_all ms empty)
  send_all-Held ms = Held-send_all ms empty Released.nothing tt

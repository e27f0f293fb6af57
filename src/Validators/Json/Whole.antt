-- ===== src/Validators/Json/Whole.antt =====
-- What `JSONResponseBodyValidator.send` does with the messages of one response.
use connexion.Prelude.{
  ◌≡◌, refl, sym, ap, ◌∙◌, subst, inl, inr, ◌⊎◌, String, Bool, true, false, if◌then◌else◌, List, [],
  ◌∷◌, ◌++◌, append_assoc,
}
use connexion.Value.{Value}
use connexion.Errors.{Exc, Done, done, Result, ok, err}
use connexion.Asgi.{Message}
use connexion.Validators.Json.{Tools, validate_response, check_messages}
use connexion.Validators.Json.Conforms.{Conforms, check_messages-Conforms, Conforms-check_messages}
use connexion.Validators.Json.Response.{Sender, flush, send}
use connexion.Validators.Json.Held.{
  is_kept, IsResponse, empty, and_run, send_all, raise, is_validate, checks,
}

module _ (tools : Tools) (parse : String → Result Value) where
  send-kept :
      (m : Message) (kept sent : List Message)
      → is_kept m ≡ true
      → send tools parse m (record { messages = kept; sent = sent })
        ≡ (ok done, record { messages = kept ++ m ∷ []; sent = sent })
  unfolding send
  send-kept m kept sent h =
      ap
        (λ (b : Bool).
          if b
          then (ok done, record { messages = kept ++ m ∷ []; sent = sent })
          else flush tools parse
              (check_messages tools parse (validate_response tools) (kept ++ m ∷ []))
              (kept ++ m ∷ []) sent)
        h

  send-last :
      (m : Message) (kept sent : List Message)
      → is_kept m ≡ false
      → send tools parse m (record { messages = kept; sent = sent })
        ≡ flush tools parse (checks tools parse (kept ++ m ∷ [])) (kept ++ m ∷ []) sent
  unfolding send checks
  send-last m kept sent h =
      ap
        (λ (b : Bool).
          if b
          then (ok done, record { messages = kept ++ m ∷ []; sent = sent })
          else flush tools parse
              (check_messages tools parse (validate_response tools) (kept ++ m ∷ []))
              (kept ++ m ∷ []) sent)
        h

  and_run_end :
      (r : Result Done) (ms sent : List Message)
      → and_run tools parse (flush tools parse r ms sent) (send_all tools parse [])
        ≡ flush tools parse r ms sent
  unfolding send_all
  and_run_end (ok done) ms sent = refl
  and_run_end (err e) ms sent = refl

  send_all-flush :
      (kept ms sent : List Message)
      → IsResponse ms
      → send_all tools parse ms (record { messages = kept; sent = sent })
        ≡ flush tools parse (checks tools parse (kept ++ ms)) (kept ++ ms) sent
  unfolding send_all
  send_all-flush kept [] sent is_response = absurd is_response
  send_all-flush kept (m ∷ []) sent last =
      ap (λ p. and_run tools parse p (send_all tools parse [])) (send-last m kept sent last)
      ∙ and_run_end (checks tools parse (kept ++ m ∷ [])) (kept ++ m ∷ []) sent
  send_all-flush kept (m ∷ n ∷ ms) sent (keep, is_response) =
      ap (λ p. and_run tools parse p (send_all tools parse (n ∷ ms))) (send-kept m kept sent keep)
      ∙ send_all-flush (kept ++ m ∷ []) (n ∷ ms) sent is_response
      ∙ ap (λ l. flush tools parse (checks tools parse l) l sent)
          (append_assoc kept (m ∷ []) (n ∷ ms))

  abbrev pub Outcome : List Message → Result Done × Sender → Type 0
  Outcome ms p =
      (Conforms tools parse ms × (p ≡ (ok done, record { messages = []; sent = ms })))
      ⊎ ((Conforms tools parse ms → ⊥)
          × (e : Exc) × (p ≡ (err e, record { messages = ms; sent = [] })))

  not_ok : (e : Exc) (r : Result Done) → r ≡ err e → r ≡ ok done → ⊥
  not_ok e r h k = cc

  flush-Outcome :
      (ms : List Message) (r : Result Done)
      → checks tools parse ms ≡ r
      → Outcome ms (flush tools parse r ms [])
  unfolding checks
  flush-Outcome ms (ok done) checked = inl (
    check_messages-Conforms tools parse (raise tools parse) (validate_response tools)
        (is_validate tools parse) ms checked,
    refl,
  )
  flush-Outcome ms (err e) checked = inr (
    (λ c. not_ok e (checks tools parse ms) checked (
        Conforms-check_messages tools parse (raise tools parse) (validate_response tools)
          (is_validate tools parse) ms c)),
    e,
    refl,
  )

  -- The messages of a whole response are let out, all of them, exactly if its body conforms. If it does
  -- not, the last message raises and none is let out.
  pub send_all-Outcome :
      (ms : List Message) → IsResponse ms → Outcome ms (send_all tools parse ms empty)
  send_all-Outcome ms is_response =
      subst (Outcome ms) (sym (send_all-flush [] ms [] is_response))
        (flush-Outcome ms (checks tools parse ms) refl)

-- ===== src/Middleware/ResponseValidation/Whole.antt =====
-- A whole response that passes the response validation with a validator of connexion.Validators.Json.
use connexion.Prelude.{
  String, ◌≡◌, refl, sym, ap, ◌∙◌, subst, ◌⊎◌, inl, inr, Bool, true, false, List, [], ◌∷◌, ◌==◌,
  All, if◌then◌else◌,
}
use connexion.Prelude.Decimal.{decimal}
use connexion.Prelude.Dict.{Dict}
use connexion.Value.{Value}
use connexion.Errors.{Exc, Done, done, Result, ok, err, ◌>>=◌}
use connexion.Asgi.{Message}
use connexion.Datastructures
use connexion.Operations.{AbstractOperation}
use connexion.Validators.Json.{Tools}
use connexion.Validators.Json.Conforms.{Conforms}
use connexion.Validators.Json.Response.{Sender, send}
use connexion.Validators.Json.Held.{IsResponse, empty, and_run, send_all}
use connexion.Validators.Json.Whole.{Outcome, send_all-Outcome}
use connexion.Middleware.ResponseValidation.{
  ResponseArguments, ResponseValidator, server_send, validator_send, State, response_content_type,
  arguments, registered, start, kept, deliver, and_deliver, wrapped_send, and_respond, respond,
  validate_required_headers,
}
use connexion.Middleware.ResponseValidation.Required.{
  HasRequired, validate_required_headers-HasRequired, HasRequired-validate_required_headers,
}

-- no message yet
abbrev pub initial : State
initial = record { send_fn = server_send; sender = empty }

abbrev pub IsStart : Message → Type 0
IsStart m = (m.kind == "http.response.start") ≡ true

abbrev pub IsBody : Message → Type 0
IsBody m = (m.kind == "http.response.start") ≡ false

module _ (tools_of : ResponseArguments → Tools)
    (parse_of : ResponseArguments → String → Result Value) where
  -- the validator of the JSON and text responses, by its arguments
  abbrev pub json_validator : ResponseValidator
  json_validator args = send (tools_of args) (parse_of args)

  module _ (op : AbstractOperation) (validators : Dict ResponseValidator) where
    module _ (args : ResponseArguments) where
      abbrev validating : Sender → State
      validating s = record { send_fn = validator_send (json_validator args); sender = s }

      abbrev kept_by : Result Done × Sender → Result Done × State
      kept_by = kept op validators (validator_send (json_validator args))

      and_respond-kept :
          (ms : List Message) (p : Result Done × Sender)
          → ((s : Sender)
              → respond op validators ms (validating s)
                ≡ kept_by (send_all (tools_of args) (parse_of args) ms s))
          → and_respond op validators (kept_by p) (respond op validators ms)
            ≡ kept_by (
                and_run
                  (tools_of args)
                  (parse_of args)
                  p
                  (send_all (tools_of args) (parse_of args) ms))
      and_respond-kept ms (ok u, s) next = next s
      and_respond-kept ms (err e, s) next = refl

      wrapped_send-body :
          (m : Message) (s : Sender)
          → IsBody m
          → wrapped_send op validators m (validating s)
            ≡ kept_by (send (tools_of args) (parse_of args) m s)
      unfolding wrapped_send
      wrapped_send-body m s body =
          ap
            (λ (b : Bool).
              if b
              then and_deliver op validators m (validating s) (start op validators m (validating s))
              else kept_by (send (tools_of args) (parse_of args) m s))
            body

      respond-body :
          (ms : List Message) (s : Sender)
          → All IsBody ms
          → respond op validators ms (validating s)
            ≡ kept_by (send_all (tools_of args) (parse_of args) ms s)
      unfolding respond send_all
      respond-body [] s h = refl
      respond-body (m ∷ ms) s (body, h) =
          ap (λ p. and_respond op validators p (respond op validators ms))
            (wrapped_send-body m s body)
          ∙ and_respond-kept ms (send (tools_of args) (parse_of args) m s)
              (λ s'. respond-body ms s' h)

    module _ (m : Message) (ms : List Message) where
      -- how the response is read: its status and its media type
      unfoldable pub status_of : String
      unfolding decimal
      status_of = decimal m.status

      unfoldable pub media_type_of : String
      unfolding response_content_type
      media_type_of = (response_content_type op m.headers).0

      abbrev pub definition_of : Value
      definition_of = op.response_definition status_of media_type_of

      unfoldable pub args_of : ResponseArguments
      unfolding response_content_type
      args_of =
          arguments op validators status_of media_type_of (response_content_type op m.headers).1

      start-step :
          (r : Result Done) (q : Result ResponseValidator)
          → validate_required_headers m.headers definition_of ≡ r
          → Datastructures.get_item validators media_type_of ≡ q
          → start op validators m initial ≡ (r >>= λ _. registered op validators q args_of initial)
      unfolding start args_of status_of media_type_of
      start-step r q validated found =
          λ i. validated i >>= λ _. registered op validators (found i) args_of initial

      wrapped_send-start :
          IsStart m
          → wrapped_send op validators m initial
            ≡ and_deliver op validators m initial (start op validators m initial)
      unfolding wrapped_send
      wrapped_send-start is_start =
          ap
            (λ (b : Bool).
              if b
              then and_deliver op validators m initial (start op validators m initial)
              else deliver op validators server_send m empty)
            is_start

      -- The required headers are there, and the body satisfies the schema that the operation has for the
      -- status and the media type.
      abbrev pub Passes : Type 0
      Passes =
          HasRequired m.headers definition_of
          × Conforms (tools_of args_of) (parse_of args_of) (m ∷ ms)

      -- All of the response is sent, exactly if it passes; else an exception is raised and the server
      -- is sent nothing.
      abbrev pub AllOrNothing : Result Done × State → Type 0
      AllOrNothing (r, s) =
          (Passes × (r ≡ ok done) × (s.sender.sent ≡ m ∷ ms))
          ⊎ ((Passes → ⊥) × ((e : Exc) × (r ≡ err e)) × (s.sender.sent ≡ []))

      module _ (is_start : IsStart m) (bodies : All IsBody ms) (whole : IsResponse (m ∷ ms))
          (found : Datastructures.get_item validators media_type_of ≡ ok json_validator) where
        failed-AllOrNothing :
            (e : Exc)
            → validate_required_headers m.headers definition_of ≡ err e
            → AllOrNothing (respond op validators (m ∷ ms) initial)
        unfolding respond
        failed-AllOrNothing e failed =
            let stopped : respond op validators (m ∷ ms) initial ≡ (err e, initial) =
              ap (λ p. and_respond op validators p (respond op validators ms))
                (wrapped_send-start is_start
                  ∙ ap (and_deliver op validators m initial) (start-step (err e) _ failed found)) in
            subst AllOrNothing (sym stopped) (
              inr (
                (λ (required, _). clash (
                    sym failed
                    ∙ HasRequired-validate_required_headers m.headers definition_of required)),
                (e, refl),
                refl,
              ))
          where
            clash : err e ≡ ok done → ⊥
            clash h = cc

        passed-AllOrNothing :
            validate_required_headers m.headers definition_of ≡ ok done
            → AllOrNothing (respond op validators (m ∷ ms) initial)
        unfolding respond send_all
        passed-AllOrNothing passed =
            let sent_by = send_all (tools_of args_of) (parse_of args_of) (m ∷ ms) empty in
            let run : respond op validators (m ∷ ms) initial ≡ kept_by args_of sent_by =
              ap (λ p. and_respond op validators p (respond op validators ms))
                (wrapped_send-start is_start
                  ∙ ap (and_deliver op validators m initial) (start-step (ok done) _ passed found))
              ∙ and_respond-kept args_of ms (send (tools_of args_of) (parse_of args_of) m empty)
                  (λ s. respond-body args_of ms s bodies) in
            subst AllOrNothing (sym run) (
              outcome sent_by
                (send_all-Outcome (tools_of args_of) (parse_of args_of) (m ∷ ms) whole))
          where
            outcome :
                (p : Result Done × Sender)
                → Outcome (tools_of args_of) (parse_of args_of) (m ∷ ms) p
                → AllOrNothing (kept_by args_of p)
            outcome p (inl (conforms, e)) = inl (
              (validate_required_headers-HasRequired m.headers definition_of passed, conforms),
              ap (λ q. q.0) e,
              ap (λ q. q.1.sent) e,
            )
            outcome p (inr (fails, x, e)) =
                inr ((λ (_, c). fails c), (x, ap (λ q. q.0) e), ap (λ q. q.1.sent) e)

        -- A whole response of a media type that a JSON or text validator is registered for is sent to
        -- the server, all of its messages in order, exactly if the headers that the operation requires
        -- for its status are there and its body conforms to the schema for its status and media type.
        -- Else an exception is raised and the server is sent nothing.
        pub respond-AllOrNothing : AllOrNothing (respond op validators (m ∷ ms) initial)
        respond-AllOrNothing = go (validate_required_headers m.headers definition_of) refl
          where
            go :
                (r : Result Done)
                → validate_required_headers m.headers definition_of ≡ r
                → AllOrNothing (respond op validators (m ∷ ms) initial)
            go (err e) failed = failed-AllOrNothing e failed
            go (ok done) passed = passed-AllOrNothing passed

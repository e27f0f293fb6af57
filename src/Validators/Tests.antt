-- ===== src/Validators/Tests.antt =====
-- The JSON validators on concrete messages: a body is one byte per character of a text of digits.
use connexion.Prelude.{
  ℕ, String, ◌≡◌, refl, true, false, none, some, List, [], ◌∷◌, ◌++◌, ◌==◌, if◌then◌else◌, inr,
}
use connexion.Prelude.{eqb}
use connexion.Prelude.Text.{◌<>◌}
use connexion.Value.{int}
use connexion.Errors.{ok, done}
use connexion.Asgi.{Message, Receive, queue, receive, received}
use connexion.Validators.Json.{Tools, loaded, json_decode_error, parse}
use connexion.Validators.Json.Conforms.{Conforms}
use connexion.Validators.Json.Request.{wrapped_receive}
use connexion.Validators.Json.Replay.{wrapped_receive-Conforms_iff, received-wrapped_receive}
use connexion.Validators.Json.Held.{Held, empty, send_all, send_all-Held}
use connexion.Validators.Json.Whole.{Outcome, send_all-Outcome}

abbrev part : String → List ℕ → Message
part kind bytes = record {
  kind = kind;
  status = 200;
  headers = [];
  body = some bytes;
  more_body = some true;
}

abbrev last_part : String → List ℕ → Message
last_part kind bytes = record {
  kind = kind;
  status = 200;
  headers = [];
  body = some bytes;
  more_body = none;
}

abbrev text : List ℕ → String
text [] = ""
text (b ∷ bytes) = (if eqb b 49 then "1" else "2") <> text bytes

-- The schema takes any number.
abbrev tools : Tools
tools = record {
  loads = λ s. if s == "12" then loaded (int false 12) else json_decode_error "Expecting value";
  schema_error = λ v. none;
  decode = λ bytes. ok (text bytes);
  nullable = false;
}

abbrev in_two_parts : List Message
in_two_parts = part "http.request" (49 ∷ []) ∷ last_part "http.request" (50 ∷ []) ∷ []

abbrev disconnect : List Message
disconnect = last_part "http.disconnect" [] ∷ []

twelve-Conforms : Conforms tools (parse tools) in_two_parts
unfolding connexion.Asgi.join_bodies parse
twelve-Conforms = ("12", refl, inr (inr (int false 12, refl, refl)))

wrapped_receive-two :
    wrapped_receive tools (in_two_parts ++ disconnect) ≡ some (ok (queue in_two_parts disconnect))
unfolding wrapped_receive
wrapped_receive-two = refl

wrapped_receive-Conforms_iff_example :
    wrapped_receive tools (in_two_parts ++ disconnect) ≡ some (ok (queue in_two_parts disconnect))
wrapped_receive-Conforms_iff_example =
    (wrapped_receive-Conforms_iff tools (in_two_parts ++ disconnect)
        (queue in_two_parts disconnect)).1
      (in_two_parts, disconnect, refl, (refl, refl), twelve-Conforms, refl)

received-wrapped_receive_example :
    received 2 (queue in_two_parts disconnect) ≡ received 2 (queue [] (in_two_parts ++ disconnect))
received-wrapped_receive_example =
    received-wrapped_receive tools (in_two_parts ++ disconnect) (queue in_two_parts disconnect) 2
      wrapped_receive-two

abbrev response : List Message
response =
    part "http.response.start" []
    ∷ part "http.response.body" (49 ∷ [])
    ∷ last_part "http.response.body" (50 ∷ [])
    ∷ []

send_all-Held_example :
    Held tools (parse tools) [] response (send_all tools (parse tools) response empty)
send_all-Held_example = send_all-Held tools (parse tools) response

send_all-Outcome_example :
    Outcome tools (parse tools) response (send_all tools (parse tools) response empty)
send_all-Outcome_example = send_all-Outcome tools (parse tools) response (refl, (refl, refl))

-- Nothing is let out before the last part.
send_all-two :
    send_all tools
      (parse tools)
      (part "http.response.start" [] ∷ part "http.response.body" (49 ∷ []) ∷ [])
      empty
    ≡ (
      ok done,
      record {
        messages = part "http.response.start" [] ∷ part "http.response.body" (49 ∷ []) ∷ [];
        sent = [];
      },
    )
unfolding send_all
send_all-two = refl

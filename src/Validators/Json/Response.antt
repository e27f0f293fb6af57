-- ===== src/Validators/Json/Response.antt =====
-- `JSONResponseBodyValidator.send`, also of `TextResponseBodyValidator`.
use connexion.Prelude.{◌||◌, String, List, [], ◌∷◌, ◌++◌, ◌==◌, if◌then◌else◌}
use connexion.Value.{Value}
use connexion.Errors.{Done, done, Result, ok, err}
use connexion.Asgi.{Message, has_more}
use connexion.Validators.Json.{Tools, validate_response, check_messages}

-- The messages of the validator, and those that the `send` it wraps has been given.
pub record Sender : Type 0 where
  pub messages : List Message
  pub sent : List Message

module _ (tools : Tools) (parse : String → Result Value) where
  abbrev pub flush : Result Done → List Message → List Message → Result Done × Sender
  flush (ok done) messages sent = (ok done, record { messages = []; sent = sent ++ messages })
  flush (err e) messages sent = (err e, record { messages = messages; sent = sent })

  -- The state is kept where it raises.
  unfoldable pub send : Message → Sender → Result Done × Sender
  unfolding check_messages validate_response
  send message s =
      let messages = s.messages ++ message ∷ [] in
      if message.kind == "http.response.start" || has_more message.more_body
      then (ok done, record { messages = messages; sent = s.sent })
      else flush (check_messages tools parse (validate_response tools) messages) messages s.sent

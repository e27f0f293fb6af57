-- ===== src/Validators/Json/Request.antt =====
-- `JSONRequestBodyValidator.wrapped_receive`.
use connexion.Prelude.{true, false, Option, none, some, List, [], ◌∷◌}
use connexion.Errors.{Result, ok, ◌>>=◌}
use connexion.Asgi.{Message, Receive, queue, has_more}
use connexion.Validators.Json.{Tools, validate, parse, check_messages}

abbrev pub and_read :
    Message → Option (List Message × List Message) → Option (List Message × List Message)
and_read m none = none
and_read m (some (read, rest)) = some (m ∷ read, rest)

-- The loop over the messages of the body: those read, and those still to come. none is a caller that
-- waits for a message that the server does not give.
unfoldable pub read_messages : List Message → Option (List Message × List Message)
read_messages [] = none
read_messages (m ∷ ms) = elim (has_more m.more_body) [
  | true ↦ and_read m (read_messages ms)
  | false ↦ some (m ∷ [], ms)
]

module _ (tools : Tools) where
  unfoldable pub checked : List Message × List Message → Result Receive
  unfolding check_messages validate parse
  checked (messages, rest) =
      check_messages tools (parse tools) (validate tools) messages >>= λ _. ok (queue messages rest)

  unfoldable pub checked_or_waits : Option (List Message × List Message) → Option (Result Receive)
  unfolding checked
  checked_or_waits none = none
  checked_or_waits (some read) = some (checked read)

  -- The messages that come give the `receive` to hand on.
  unfoldable pub wrapped_receive : List Message → Option (Result Receive)
  unfolding read_messages checked_or_waits
  wrapped_receive coming = checked_or_waits (read_messages coming)

-- ===== src/Asgi.antt =====
-- What the program sees of an ASGI server: messages, and the stream of those that `receive` gives.
-- Bytes are numbers, and headers are decoded from latin-1.
use connexion.Prelude.{
  ℕ, String, Bool, false, Option, none, some, List, [], ◌∷◌, ◌++◌, ◌≡◌, refl, ap,
}
use Prim.Native.Nat

pub record Message : Type 0 where
  pub kind : String
  pub status : ℕ
  pub headers : List (String × String)
  pub body : Option (List ℕ)
  pub more_body : Option Bool

-- `message.get("more_body", False)`
abbrev pub has_more : Option Bool → Bool
has_more none = false
has_more (some more) = more

-- `message.get("body", b"")`
abbrev pub body_or_empty : Option (List ℕ) → List ℕ
body_or_empty none = []
body_or_empty (some body) = body

-- `b"".join([message.get("body", b"") for message in messages])`
unfoldable pub join_bodies : List Message → List ℕ
join_bodies [] = []
join_bodies (m ∷ ms) = body_or_empty m.body ++ join_bodies ms

-- The messages kept back, which `receive` gives first, and those that the server is still to give. A
-- server that gives no more keeps its caller waiting.
pub data Receive : Type 0 where
  queue : (kept coming : List Message) → Receive

unfoldable pub receive : Receive → Option (Message × Receive)
receive (queue (m ∷ kept) coming) = some (m, queue kept coming)
receive (queue [] (m ∷ coming)) = some (m, queue [] coming)
receive (queue [] []) = none

abbrev pub and_then : Option (Message × Receive) → (Receive → List Message) → List Message
and_then none next = []
and_then (some (m, r)) next = m ∷ next r

-- The messages that the first `n` calls give.
unfoldable pub received : ℕ → Receive → List Message
unfolding receive
received Nat.ℕ.zero r = []
received (Nat.ℕ.suc n) r = and_then (receive r) (received n)

-- Messages kept back are as if they were still to come.
pub received-kept :
    (n : ℕ) (kept coming : List Message)
    → received n (queue kept coming) ≡ received n (queue [] (kept ++ coming))
unfolding received receive
received-kept Nat.ℕ.zero kept coming = refl
received-kept (Nat.ℕ.suc n) [] coming = refl
received-kept (Nat.ℕ.suc n) (m ∷ kept) coming = ap (λ ms. m ∷ ms) (received-kept n kept coming)

-- ===== src/Prelude/Text.antt =====
-- Methods of Python's `str`. A text is walked by its characters. `lower` and `upper` change the
-- letters of ASCII only, and white space is that of ASCII: the texts that the program changes so
-- (authorization types, header names, media types, methods) are ASCII by their grammars.
pub mod Laws
pub mod Split
pub mod Right
use Prim.Native.Nat.{ℕ, ◌-◌}
use Prim.Native.Char.{Char, code}
use Prim.Native.String
use Prim.Native.String.{String, char_at}
use mathlib.Core.Bool.{Bool, false, ◌&&◌, ◌||◌}
use mathlib.Core.Option.{Option, none, some}
use mathlib.Core.List.{List, [], ◌∷◌, ◌++◌}
use text.Mathlib.Text.{◌==◌}
use connexion.Prelude.Tests.{leb, eqb, if◌then◌else◌}

infixl 65 ◌<>◌
abbrev pub ◌<>◌ : String → String → String
s <> t = String.◌++◌ s t

-- one more character at the end
abbrev pub push : String → Char → String
push s c = s <> String.◌∷◌ c ""

abbrev pub is_char : ℕ → Char → Bool
is_char n c = eqb (code c) n

module _ (sep : ℕ) where
  split_from : String → String → List String
  split_from cur String.[] = cur ∷ []
  split_from cur (String.◌∷◌ c s) =
      let closed = cur ∷ split_from String.[] s in
      let longer = split_from (push cur c) s in if is_char sep c then closed else longer

-- `s.split(sep)` for a separator of one character
unfoldable pub split : ℕ → String → List String
unfolding split_from
split sep s = split_from sep String.[] s

-- `s.split(sep, 1)`: none where the separator does not occur, and one part is all
module _ (sep : ℕ) where
  cut_from : String → String → Option (String × String)
  cut_from cur String.[] = none
  cut_from cur (String.◌∷◌ c s) =
      let longer = cut_from (push cur c) s in if is_char sep c then some (cur, s) else longer

unfoldable pub cut : ℕ → String → Option (String × String)
unfolding cut_from
cut sep s = cut_from sep String.[] s

-- `s.rsplit(sep, 1)`: none where the separator does not occur
unfoldable pub rcut : ℕ → String → Option (String × String)
rcut sep String.[] = none
rcut sep (String.◌∷◌ c s) = elim (rcut sep s) [
  | none ↦ if is_char sep c then some (String.[], s) else none
  | some (a, b) ↦ some (String.◌∷◌ c a, b)
]

-- `sep.join(parts)`
unfoldable pub join : String → List String → String
join sep [] = String.[]
join sep (p ∷ []) = p
join sep (p ∷ q ∷ ps) = p <> (sep <> join sep (q ∷ ps))

-- `c in s` for one character
unfoldable pub has_char : ℕ → String → Bool
has_char n String.[] = false
has_char n (String.◌∷◌ c s) = is_char n c || has_char n s

abbrev lower_char : Char → Char
lower_char c =
    if leb 65 (code c) && leb (code c) 90
    then char_at "abcdefghijklmnopqrstuvwxyz" (code c - 65)
    else c

abbrev upper_char : Char → Char
upper_char c =
    if leb 97 (code c) && leb (code c) 122
    then char_at "ABCDEFGHIJKLMNOPQRSTUVWXYZ" (code c - 97)
    else c

unfoldable pub lower : String → String
lower String.[] = String.[]
lower (String.◌∷◌ c s) = String.◌∷◌ (lower_char c) (lower s)

unfoldable pub upper : String → String
upper String.[] = String.[]
upper (String.◌∷◌ c s) = String.◌∷◌ (upper_char c) (upper s)

-- `s.replace(a, b)` for single characters
unfoldable pub replace : ℕ → Char → String → String
replace a b String.[] = String.[]
replace a b (String.◌∷◌ c s) = String.◌∷◌ (if is_char a c then b else c) (replace a b s)

abbrev is_space : Char → Bool
is_space c =
    eqb (code c) 32 || (leb 9 (code c) && leb (code c) 13) || (leb 28 (code c) && leb (code c) 31)

-- `s.lstrip()`
unfoldable pub lstrip : String → String
lstrip String.[] = String.[]
lstrip (String.◌∷◌ c s) = let rest = lstrip s in if is_space c then rest else String.◌∷◌ c s

-- `s.rstrip()`
unfoldable pub rstrip : String → String
rstrip String.[] = String.[]
rstrip (String.◌∷◌ c s) =
    let rest = rstrip s in if is_space c && rest == String.[] then String.[] else String.◌∷◌ c rest

unfoldable pub strip : String → String
unfolding lstrip rstrip
strip s = rstrip (lstrip s)

abbrev flush : String → List String
flush String.[] = []
flush (String.◌∷◌ c s) = String.◌∷◌ c s ∷ []

words_from : String → String → List String
words_from cur String.[] = flush cur
words_from cur (String.◌∷◌ c s) =
    let closed = flush cur ++ words_from String.[] s in
    let longer = words_from (push cur c) s in if is_space c then closed else longer

-- `s.split()`
unfoldable pub words : String → List String
unfolding words_from
words s = words_from String.[] s

head_word : String → String → Option (String × String)
unfolding lstrip
head_word cur String.[] = none
head_word cur (String.◌∷◌ c s) =
    let longer = head_word (push cur c) s in if is_space c then some (cur, lstrip s) else longer

abbrev nonempty_tail : Option (String × String) → Option (String × String)
nonempty_tail none = none
nonempty_tail (some (a, b)) = if b == String.[] then none else some (a, b)

-- `a, b = s.split(None, 1)`: none where there are fewer than two words
unfoldable pub two_words : String → Option (String × String)
unfolding head_word lstrip
two_words s = nonempty_tail (head_word String.[] (lstrip s))

-- `s.endswith(t)`, which compares the last `len(t)` characters
unfoldable pub ends_with : String → String → Bool
ends_with String.[] t = t == String.[]
ends_with (String.◌∷◌ c s) t = String.◌∷◌ c s == t || ends_with s t

-- `s.startswith(t)`, and what stands behind that prefix
unfoldable pub strip_prefix : String → String → Option String
strip_prefix String.[] s = some s
strip_prefix (String.◌∷◌ p t) String.[] = none
strip_prefix (String.◌∷◌ p t) (String.◌∷◌ c s) =
    let rest = strip_prefix t s in if eqb (code p) (code c) then rest else none

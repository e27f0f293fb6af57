-- ===== src/Arguments/Names/Identifiers.antt =====
-- The names that `sanitized` makes are identifiers, or empty.
use Prim.Native.Char.{Char, char}
use connexion.Prelude.{
  ◌==◌, eq_iff, List, [], ◌∷◌, mem, All, String, ◌≡◌, refl, sym, ap, ◌∙◌, inl, inr, Bool-cases,
  Bool, true, false, not, ◌&&◌, ◌||◌, if◌then◌else◌, arith,
}
use connexion.Prelude.Text.{is_char}
use connexion.Arguments.Names.{
  is_letter, is_digit, is_word, closes, underscore_brackets, only_word, drop_leading, sanitized,
}

unfoldable pub all_word : String → Bool
all_word String.[] = true
all_word (String.◌∷◌ c s) = is_word c && all_word s

-- An identifier in ASCII; the empty text passes too.
unfoldable pub is_identifier : String → Bool
unfolding all_word
is_identifier String.[] = true
is_identifier (String.◌∷◌ c s) = is_letter c && all_word s

and_left : (a b : Bool) → a && b ≡ true → a ≡ true
and_left a b h = ground arith

and_right : (a b : Bool) → a && b ≡ true → b ≡ true
and_right a b h = ground arith

and_both : (a b : Bool) → a ≡ true → b ≡ true → a && b ≡ true
and_both a b h k = ground arith

-- a text of which a character is kept or dropped
kept_if : Bool → Char → (kept dropped : String) → String
kept_if b c kept dropped = if b then String.◌∷◌ c kept else dropped

only_word-all_word : (s : String) → all_word (only_word s) ≡ true
unfolding only_word all_word kept_if
only_word-all_word String.[] = refl
only_word-all_word (String.◌∷◌ c s) = go (is_word c) refl (only_word-all_word s)
  where
    go :
        (b : Bool)
        → is_word c ≡ b
        → all_word (only_word s) ≡ true
        → all_word (kept_if b c (only_word s) (only_word s)) ≡ true
    go true word ih = and_both (is_word c) (all_word (only_word s)) word ih
    go false other ih = ih

drop_leading-is_identifier :
    (s : String) → all_word s ≡ true → is_identifier (drop_leading s) ≡ true
unfolding drop_leading is_identifier all_word kept_if
drop_leading-is_identifier String.[] h = refl
drop_leading-is_identifier (String.◌∷◌ c s) h =
    let rest = and_right (is_word c) (all_word s) h in
    go (is_letter c) refl rest (drop_leading-is_identifier s rest)
  where
    go :
        (b : Bool)
        → is_letter c ≡ b
        → all_word s ≡ true
        → is_identifier (drop_leading s) ≡ true
        → is_identifier (kept_if b c s (drop_leading s)) ≡ true
    go true letter rest ih = and_both (is_letter c) (all_word s) letter rest
    go false other rest ih = ih

no_bracket : (c : Char) → is_word c ≡ true → is_char b'[' c ≡ false
no_bracket c h = ground arith

-- Word characters stay as they are.
bracket_or : Bool → Char → Char
bracket_or b c = if b then char b'_' tt else c

all_word-fixed : (s : String) → all_word s ≡ true → only_word (underscore_brackets s) ≡ s
unfolding only_word all_word underscore_brackets kept_if bracket_or
all_word-fixed String.[] h = refl
all_word-fixed (String.◌∷◌ c s) h =
    let word = and_left (is_word c) (all_word s) h in
    let rest = only_word (underscore_brackets s) in
    ap
      (λ (b : Bool).
        kept_if (is_word (bracket_or (b && not (closes s)) c)) (bracket_or (b && not (closes s)) c)
          rest rest)
      (no_bracket c word)
    ∙ ap (λ (b : Bool). kept_if b c rest rest) word
    ∙ ap (String.◌∷◌ c) (all_word-fixed s (and_right (is_word c) (all_word s) h))

is_identifier-all_word : (s : String) → is_identifier s ≡ true → all_word s ≡ true
unfolding is_identifier all_word
is_identifier-all_word String.[] h = refl
is_identifier-all_word (String.◌∷◌ c s) h =
    and_both (is_word c) (all_word s)
      (or_left (is_letter c) (is_digit c) (and_left (is_letter c) (all_word s) h))
      (and_right (is_letter c) (all_word s) h)
  where
    or_left : (a b : Bool) → a ≡ true → a || b ≡ true
    or_left a b h = ground arith

drop_leading-fixed : (s : String) → is_identifier s ≡ true → drop_leading s ≡ s
unfolding is_identifier drop_leading kept_if
drop_leading-fixed String.[] h = refl
drop_leading-fixed (String.◌∷◌ c s) h =
    ap (λ (b : Bool). kept_if b c s (drop_leading s)) (and_left (is_letter c) (all_word s) h)

pub is_identifier-sanitized : (s : String) → is_identifier s ≡ true → sanitized s ≡ s
unfolding sanitized
is_identifier-sanitized s h =
    ap drop_leading (all_word-fixed s (is_identifier-all_word s h)) ∙ drop_leading-fixed s h

-- The name that is made of the name of a parameter is an identifier in ASCII or empty; a name that is
-- one already is kept, so that sanitizing a name again, as is done on the way to the function, changes
-- nothing.
pub sanitized-is_identifier :
    (name : String)
    → (is_identifier (sanitized name) ≡ true)
      × (is_identifier name ≡ true → sanitized name ≡ name)
      × (sanitized (sanitized name) ≡ sanitized name)
unfolding sanitized
sanitized-is_identifier name =
    let is_one =
      drop_leading-is_identifier (only_word (underscore_brackets name))
        (only_word-all_word (underscore_brackets name)) in
    (is_one, is_identifier-sanitized name, is_identifier-sanitized (sanitized name) is_one)

-- Arguments that are identifiers in ASCII are kept by sanitizing.
pub each-sanitized :
    (arguments : List String)
    → All (λ a. is_identifier a ≡ true) arguments
    → (a : String) → mem a arguments ≡ true
    → sanitized a ≡ a
each-sanitized [] h a m = cc
each-sanitized (b ∷ arguments) (h, hs) a m = elim (Bool-cases (a == b)) [
  | inl same ↦ is_identifier-sanitized a (ap is_identifier ((eq_iff a b).0 same) ∙ h)
  | inr other ↦ each-sanitized arguments hs a (sym (rw other refl) ∙ m)
]

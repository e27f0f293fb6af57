-- ===== src/UriParsing/DeepObjects/Paths.antt =====
-- The names of deep objects, and the dicts that they stand for.
use Prim.Native.Char.{Char, char}
use connexion.Prelude.{
  String, ◌≡◌, refl, sym, ap, ◌∙◌, false, none, some, List, [], ◌∷◌, All, eq_refl,
}
use text.Mathlib.TextLemmas.{append-nil, nil-append, cons-append}
use connexion.Prelude.Text.{◌<>◌, push, has_char}
use connexion.Prelude.Text.Laws.{push-append}
use connexion.Prelude.Text.Split.{not-head, not-tail}
use connexion.Value.{Value}
use connexion.Errors.{ok}
use connexion.Utils.Merge.{deep_get, get_item, get_field}
use connexion.UriParsing.DeepObjects.{brackets, key_path_of, nested}

abbrev pub open_bracket : Char
open_bracket = char b'[' tt

abbrev pub close_bracket : Char
close_bracket = char b']' tt

-- a key in brackets, and what follows
abbrev pub in_brackets : String → String → String
in_brackets key rest = String.◌∷◌ open_bracket (key <> String.◌∷◌ close_bracket rest)

-- the keys of a path, each in brackets
abbrev pub bracketed : List String → String
bracketed [] = ""
bracketed (key ∷ keys) = in_brackets key (bracketed keys)

abbrev pub NoBracket : String → Type 0
NoBracket s = (has_char b'[' s ≡ false) × (has_char b']' s ≡ false)

brackets-key :
    (cur key rest : String)
    → NoBracket key
    → brackets (some cur) (key <> String.◌∷◌ close_bracket rest) ≡ (cur <> key) ∷ brackets none rest
unfolding brackets
brackets-key cur String.[] rest no_bracket =
    ap (brackets (some cur)) (nil-append (String.◌∷◌ close_bracket rest))
    ∙ ap (λ t. t ∷ brackets none rest) (sym (append-nil cur))
brackets-key cur (String.◌∷◌ c key) rest (no_open, no_close) =
    ap (brackets (some cur)) (cons-append c key (String.◌∷◌ close_bracket rest))
    ∙ rw (brackets, not-head b'[' c key no_open, not-head b']' c key no_close)
        (brackets-key (push cur c) key rest
            (not-tail b'[' c key no_open, not-tail b']' c key no_close)
          ∙ ap (λ t. t ∷ brackets none rest) (push-append cur c key))

brackets-bracketed :
    (keys : List String) → All NoBracket keys → brackets none (bracketed keys) ≡ keys
unfolding brackets
brackets-bracketed [] h = refl
brackets-bracketed (key ∷ keys) (no_bracket, h) =
    brackets-key "" key (bracketed keys) no_bracket
    ∙ (λ i. nil-append key i ∷ brackets-bracketed keys h i)

brackets-root :
    (root rest : String)
    → has_char b'[' root ≡ false
    → brackets none (root <> rest) ≡ brackets none rest
unfolding brackets
brackets-root String.[] rest h = ap (brackets none) (nil-append rest)
brackets-root (String.◌∷◌ c root) rest h =
    ap (brackets none) (cons-append c root rest)
    ∙ rw (brackets, not-head b'[' c root h) (brackets-root root rest (not-tail b'[' c root h))

-- The keys that a name has in brackets behind its root are found, in order.
pub key_path_of-bracketed :
    (root : String) (keys : List String)
    → has_char b'[' root ≡ false
    → All NoBracket keys
    → key_path_of (root <> bracketed keys) ≡ keys
unfolding key_path_of
key_path_of-bracketed root keys h k =
    brackets-root root (bracketed keys) h ∙ brackets-bracketed keys k

-- The value stands at the end of its path.
pub deep_get-nested :
    (key : String) (keys : List String) (v : Value)
    → deep_get (nested key keys v) (key ∷ keys) ≡ ok v
unfolding deep_get nested get_item get_field
deep_get-nested key [] v = rw (eq_refl key) refl
deep_get-nested key (k ∷ keys) v = rw (eq_refl key) (deep_get-nested k keys v)

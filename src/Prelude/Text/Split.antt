-- ===== src/Prelude/Text/Split.antt =====
-- Texts that have no separator, and prefixes.
use Prim.Native.Nat.{ℕ}
use Prim.Native.Char.{Char, code}
use Prim.Native.String.{String}
use mathlib.Core.Path.{◌≡◌, refl, sym, ap, ◌∙◌}
use mathlib.Core.Bool.{true, false}
use mathlib.Core.Option.{none, some}
use mathlib.Core.List.{List, [], ◌∷◌, ◌++◌, append-nil as list-append-nil}
use mathlib.Core.Logic.{◌≢◌, inl, inr}
use text.Mathlib.TextEquality.{Char-path}
use connexion.Prelude.Lists.{All}
use connexion.Prelude.Tests.{Bool-cases, Option-cases, eqb}
use native.Mathlib.Omega.{arith}
use text.Mathlib.TextLemmas.{append-nil, nil-append, cons-append}
use connexion.Prelude.Tests.{eqb_iff}
use connexion.Prelude.Text.{
  ◌<>◌, push, is_char, split_from, split, cut_from, cut, has_char, strip_prefix, join,
}
use connexion.Prelude.Text.Laws.{push-append, one, one-append}

pub is_char_self : (c : Char) → is_char (code c) c ≡ true
is_char_self c = (eqb_iff (code c) (code c)).1 refl

pub not-head :
    (sep : ℕ) (c : Char) (s : String)
    → has_char sep (String.◌∷◌ c s) ≡ false
    → is_char sep c ≡ false
unfolding has_char
not-head sep c s h = ground arith

pub not-tail :
    (sep : ℕ) (c : Char) (s : String)
    → has_char sep (String.◌∷◌ c s) ≡ false
    → has_char sep s ≡ false
unfolding has_char
not-tail sep c s h = ground arith

split_from-one :
    (sep : ℕ) (cur s : String) → has_char sep s ≡ false → split_from sep cur s ≡ (cur <> s) ∷ []
unfolding split_from
split_from-one sep cur String.[] h = ap (λ t. t ∷ []) (sym (append-nil cur))
split_from-one sep cur (String.◌∷◌ c s) h = rw (not-head sep c s h) (
    split_from-one sep (push cur c) s (not-tail sep c s h) ∙ ap (λ t. t ∷ []) (push-append cur c s))

-- A text without the separator is its only part.
pub split-one : (sep : ℕ) (s : String) → has_char sep s ≡ false → split sep s ≡ s ∷ []
unfolding split
split-one sep s h = split_from-one sep "" s h ∙ ap (λ t. t ∷ []) (nil-append s)

cut_from-first :
    (sep : Char) (cur a b : String)
    → has_char (code sep) a ≡ false
    → cut_from (code sep) cur (a <> String.◌∷◌ sep b) ≡ some (cur <> a, b)
unfolding cut_from
cut_from-first sep cur String.[] b h =
    ap (cut_from (code sep) cur) (nil-append (String.◌∷◌ sep b))
    ∙ rw (is_char_self sep, append-nil cur) refl
cut_from-first sep cur (String.◌∷◌ c a) b h =
    ap (cut_from (code sep) cur) (cons-append c a (String.◌∷◌ sep b))
    ∙ rw (not-head (code sep) c a h) (
        cut_from-first sep (push cur c) a b (not-tail (code sep) c a h)
        ∙ ap (λ t. some (t, b)) (push-append cur c a))

-- A text is cut at the first separator.
pub cut-first :
    (sep : Char) (a b : String)
    → has_char (code sep) a ≡ false
    → cut (code sep) (a <> String.◌∷◌ sep b) ≡ some (a, b)
unfolding cut
cut-first sep a b h = cut_from-first sep "" a b h ∙ ap (λ t. some (t, b)) (nil-append a)

cut_from-none : (sep : ℕ) (cur s : String) → has_char sep s ≡ false → cut_from sep cur s ≡ none
unfolding cut_from
cut_from-none sep cur String.[] h = refl
cut_from-none sep cur (String.◌∷◌ c s) h =
    rw (not-head sep c s h) (cut_from-none sep (push cur c) s (not-tail sep c s h))

-- A text without the separator is not cut.
pub cut-none : (sep : ℕ) (s : String) → has_char sep s ≡ false → cut sep s ≡ none
unfolding cut
cut-none sep s h = cut_from-none sep "" s h

strip_prefix-some : (p s t : String) → strip_prefix p s ≡ some t → s ≡ p <> t
unfolding strip_prefix
strip_prefix-some String.[] s t h = ground (arith, nil-append t)
strip_prefix-some (String.◌∷◌ c p) String.[] t h = cc
strip_prefix-some (String.◌∷◌ c p) (String.◌∷◌ d s) t h =
    elim (Bool-cases (eqb (code c) (code d))) [
      | inl same ↦
          ap (λ e. String.◌∷◌ e s) (Char-path d c (sym ((eqb_iff (code c) (code d)).0 same)))
          ∙ ap (String.◌∷◌ c) (strip_prefix-some p s t (sym (rw same refl) ∙ h))
          ∙ sym (cons-append c p t)
      | inr other ↦ absurd (ground (arith, other))
    ]

-- A text that is no text behind the prefix has no such prefix.
pub strip_prefix-none : (p s : String) → ((t : String) → s ≢ p <> t) → strip_prefix p s ≡ none
strip_prefix-none p s h = elim (Option-cases (strip_prefix p s)) [
  | inl is_none ↦ is_none
  | inr (t, is_some) ↦ absurd (h t (strip_prefix-some p s t is_some))
]

pub strip_prefix-append : (p s : String) → strip_prefix p (p <> s) ≡ some s
unfolding strip_prefix
strip_prefix-append String.[] s = ap some (nil-append s)
strip_prefix-append (String.◌∷◌ c p) s =
    ap (strip_prefix (String.◌∷◌ c p)) (cons-append c p s)
    ∙ rw (is_char_self c) (strip_prefix-append p s)

pub has_char-append :
    (n : ℕ) (a b : String)
    → has_char n a ≡ false
    → has_char n b ≡ false
    → has_char n (a <> b) ≡ false
unfolding has_char
has_char-append n String.[] b h k = ap (has_char n) (nil-append b) ∙ k
has_char-append n (String.◌∷◌ c a) b h k =
    ap (has_char n) (cons-append c a b)
    ∙ rw (not-head n c a h) (has_char-append n a b (not-tail n c a h) k)

split_from-append :
    (sep : Char) (cur a b : String)
    → split_from (code sep) cur (a <> String.◌∷◌ sep b)
      ≡ split_from (code sep) cur a ++ split_from (code sep) "" b
unfolding split_from
split_from-append sep cur String.[] b =
    ap (split_from (code sep) cur) (nil-append (String.◌∷◌ sep b)) ∙ rw (is_char_self sep) refl
split_from-append sep cur (String.◌∷◌ c a) b =
    ap (split_from (code sep) cur) (cons-append c a (String.◌∷◌ sep b))
    ∙ elim (Bool-cases (is_char (code sep) c)) [
      | inl same ↦ rw (split_from, same) (ap (λ l. cur ∷ l) (split_from-append sep "" a b))
      | inr other ↦ rw (split_from, other) (split_from-append sep (push cur c) a b)
    ]

-- the parts of all the texts
unfoldable pub split_all : ℕ → List String → List String
unfolding split
split_all sep [] = []
split_all sep (p ∷ ps) = split sep p ++ split_all sep ps

-- Splitting what was joined gives the parts of each text.
pub split-join :
    (sep : Char) (p : String) (ps : List String)
    → split (code sep) (join (one sep) (p ∷ ps)) ≡ split_all (code sep) (p ∷ ps)
unfolding split join split_all
split-join sep p [] = sym (list-append-nil (split_from (code sep) "" p))
split-join sep p (q ∷ ps) =
    ap (λ t. split_from (code sep) "" (p <> t)) (one-append sep (join (one sep) (q ∷ ps)))
    ∙ split_from-append sep "" p (join (one sep) (q ∷ ps))
    ∙ ap (λ l. split_from (code sep) "" p ++ l) (split-join sep q ps)

-- Texts without the separator are their own parts.
pub split_all-one :
    (sep : ℕ) (ps : List String) → All (λ p. has_char sep p ≡ false) ps → split_all sep ps ≡ ps
unfolding split_all
split_all-one sep [] h = refl
split_all-one sep (p ∷ ps) (one_part, h) =
    rw (split-one sep p one_part, split_all-one sep ps h) refl

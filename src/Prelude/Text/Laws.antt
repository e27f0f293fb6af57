-- ===== src/Prelude/Text/Laws.antt =====
-- Laws of the methods of texts: what is split joins to the text again.
use Prim.Native.Nat.{ℕ}
use Prim.Native.Char.{Char, code}
use Prim.Native.String.{String}
use mathlib.Core.Path.{◌≡◌, refl, sym, ap, ◌∙◌}
use mathlib.Core.Logic.{◌≢◌, inl, inr}
use mathlib.Core.Bool.{true}
use mathlib.Core.Option.{Option, none, some}
use mathlib.Core.List.{List, [], ◌∷◌}
use native.Mathlib.Omega.{arith}
use text.Mathlib.TextEquality.{Char-path}
use text.Mathlib.TextLemmas.{append_assoc, append-nil, nil-append, cons-append}
use connexion.Prelude.Tests.{eqb_iff, Bool-cases, if◌then◌else◌}
use connexion.Prelude.Text.{◌<>◌, push, is_char, split_from, split, rcut, join}

-- the text of one character
abbrev pub one : Char → String
one c = String.◌∷◌ c ""

is_char-eq : (c d : Char) → is_char (code c) d ≡ true → d ≡ c
is_char-eq c d h = Char-path d c ((eqb_iff (code d) (code c)).0 h)

pub one-append : (c : Char) (s : String) → one c <> s ≡ String.◌∷◌ c s
one-append c s = cons-append c "" s ∙ ap (String.◌∷◌ c) (nil-append s)

pub push-append : (cur : String) (c : Char) (s : String) → push cur c <> s ≡ cur <> String.◌∷◌ c s
push-append cur c s = append_assoc cur (one c) s ∙ ap (λ t. cur <> t) (one-append c s)

split_from-ne-nil : (sep : ℕ) (cur s : String) → split_from sep cur s ≢ []
unfolding split_from
split_from-ne-nil sep cur String.[] h = cc
split_from-ne-nil sep cur (String.◌∷◌ c s) h = ground (arith, split_from-ne-nil sep (push cur c) s)

join-cons :
    (sep p : String) (ps : List String) → ps ≢ [] → join sep (p ∷ ps) ≡ p <> (sep <> join sep ps)
unfolding join
join-cons sep p [] h = absurd (h refl)
join-cons sep p (q ∷ ps) h = refl

join-split_from :
    (sep : Char) (cur s : String) → join (one sep) (split_from (code sep) cur s) ≡ cur <> s
unfolding split_from join
join-split_from sep cur String.[] = sym (append-nil cur)
join-split_from sep cur (String.◌∷◌ c s) = elim (Bool-cases (is_char (code sep) c)) [
  | inl same ↦ rw same (
      join-cons (one sep) cur (split_from (code sep) "" s) (split_from-ne-nil (code sep) "" s)
      ∙ ap (λ t. cur <> (one sep <> t)) (join-split_from sep "" s ∙ nil-append s)
      ∙ ap (λ t. cur <> t)
          (one-append sep s ∙ ap (λ d. String.◌∷◌ d s) (sym (is_char-eq sep c same))))
  | inr other ↦ rw other (join-split_from sep (push cur c) s ∙ push-append cur c s)
]

-- Joining by a character what was split at it gives the text back.
pub join-split : (sep : Char) (s : String) → join (one sep) (split (code sep) s) ≡ s
unfolding split
join-split sep s = join-split_from sep "" s ∙ nil-append s

abbrev Parts : Type 0
Parts = String × String

some-parts : (p q : Parts) → some p ≡ some q → (p.0 ≡ q.0) × (p.1 ≡ q.1)
some-parts p q e = ground arith

-- What `rcut` answers at a first character, by what it answers behind it.
unfoldable pub rcut_step : ℕ → Char → String → Option (String × String) → Option (String × String)
rcut_step sep c s none = if is_char sep c then some ("", s) else none
rcut_step sep c s (some (a, b)) = some (String.◌∷◌ c a, b)

pub rcut-step :
    (sep : ℕ) (c : Char) (s : String) → rcut sep (String.◌∷◌ c s) ≡ rcut_step sep c s (rcut sep s)
unfolding rcut rcut_step
rcut-step sep c s = ground arith

-- The two parts and the separator between them are the text.
pub rcut-eq :
    (sep : Char) (s a b : String) → rcut (code sep) s ≡ some (a, b) → s ≡ a <> String.◌∷◌ sep b
unfolding rcut rcut_step
rcut-eq sep String.[] a b h = cc
rcut-eq sep (String.◌∷◌ c s) a b h =
    go (rcut (code sep) s) refl (sym (rcut-step (code sep) c s) ∙ h) (λ x y e. rcut-eq sep s x y e)
  where
    go :
        (o : Option (String × String))
        → rcut (code sep) s ≡ o
        → rcut_step (code sep) c s o ≡ some (a, b)
        → ((x y : String) → rcut (code sep) s ≡ some (x, y) → s ≡ x <> String.◌∷◌ sep y)
        → String.◌∷◌ c s ≡ a <> String.◌∷◌ sep b
    go none e k ih = elim (Bool-cases (is_char (code sep) c)) [
      | inl same ↦
          let (is_a, is_b) =
            some-parts ("", s) (a, b) (sym (ap (λ t. if t then some ("", s) else none) same) ∙ k) in
          ap (λ d. String.◌∷◌ d s) (is_char-eq sep c same)
          ∙ (sym (nil-append (String.◌∷◌ sep s)) ∙ (λ i. is_a i <> String.◌∷◌ sep (is_b i)))
      | inr other ↦ ground arith
    ]
    go (some (x, y)) e k ih =
        let (is_a, is_b) = some-parts (String.◌∷◌ c x, y) (a, b) k in
        ap (String.◌∷◌ c) (ih x y e)
        ∙ (sym (cons-append c x (String.◌∷◌ sep y)) ∙ (λ i. is_a i <> String.◌∷◌ sep (is_b i)))

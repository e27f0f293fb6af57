-- ===== src/Prelude/Text/Right.antt =====
-- Cutting at the last separator, and endings.
use Prim.Native.Nat.{ℕ}
use Prim.Native.Char.{Char, code}
use Prim.Native.String.{String}
use mathlib.Core.Path.{◌≡◌, refl, sym, ap, ◌∙◌, subst}
use mathlib.Core.Bool.{Bool, true, false}
use mathlib.Core.Option.{Option, none, some}
use native.Mathlib.Omega.{arith}
use text.Mathlib.TextLemmas.{nil-append, cons-append}
use text.Mathlib.TextPositions.{eq_refl}
use connexion.Prelude.Tests.{if◌then◌else◌}
use connexion.Prelude.Text.{◌<>◌, is_char, has_char, rcut, ends_with}
use connexion.Prelude.Text.Laws.{rcut_step, rcut-step}
use connexion.Prelude.Text.Split.{not-head, not-tail, is_char_self}

-- A text without the separator is not cut.
pub rcut-without : (sep : ℕ) (s : String) → has_char sep s ≡ false → rcut sep s ≡ none
unfolding rcut rcut_step
rcut-without sep String.[] h = refl
rcut-without sep (String.◌∷◌ c s) h =
    rcut-step sep c s
    ∙ ap (rcut_step sep c s) (rcut-without sep s (not-tail sep c s h))
    ∙ rw (not-head sep c s h) refl

-- The part behind the last separator is without one.
pub rcut-last :
    (sep : Char) (a b : String)
    → has_char (code sep) b ≡ false
    → rcut (code sep) (a <> String.◌∷◌ sep b) ≡ some (a, b)
unfolding rcut rcut_step
rcut-last sep String.[] b h =
    ap (rcut (code sep)) (nil-append (String.◌∷◌ sep b))
    ∙ (rcut-step (code sep) sep b
        ∙ (ap (rcut_step (code sep) sep b) (rcut-without (code sep) b h)
            ∙ rw (is_char_self sep) refl))
rcut-last sep (String.◌∷◌ c a) b h =
    ap (rcut (code sep)) (cons-append c a (String.◌∷◌ sep b))
    ∙ (rcut-step (code sep) c (a <> String.◌∷◌ sep b)
        ∙ ap (rcut_step (code sep) c (a <> String.◌∷◌ sep b)) (rcut-last sep a b h))

abbrev Behind : ℕ → String → Option (String × String) → Type 0
Behind sep s none = has_char sep s ≡ false
Behind sep s (some (a, b)) = has_char sep b ≡ false

rcut_step-Behind :
    (sep : ℕ) (c : Char) (s : String) (o : Option (String × String))
    → Behind sep s o
    → Behind sep (String.◌∷◌ c s) (rcut_step sep c s o)
unfolding rcut_step has_char
rcut_step-Behind sep c s (some (a, b)) h = h
rcut_step-Behind sep c s none h = split (is_char sep c) refl
  where
    split :
        (b : Bool)
        → is_char sep c ≡ b
        → Behind sep (String.◌∷◌ c s) (if b then some (String.[], s) else none)
    split true e = h
    split false e = ground arith

rcut-Behind : (sep : ℕ) (s : String) → Behind sep s (rcut sep s)
unfolding rcut has_char
rcut-Behind sep String.[] = refl
rcut-Behind sep (String.◌∷◌ c s) =
    subst (Behind sep (String.◌∷◌ c s)) (sym (rcut-step sep c s))
      (rcut_step-Behind sep c s (rcut sep s) (rcut-Behind sep s))

-- What is behind the cut has no separator.
pub rcut-without_behind :
    (sep : ℕ) (s a b : String) → rcut sep s ≡ some (a, b) → has_char sep b ≡ false
rcut-without_behind sep s a b e = subst (Behind sep s) e (rcut-Behind sep s)

pub ends_with_self : (t : String) → ends_with t t ≡ true
unfolding ends_with
ends_with_self String.[] = eq_refl ""
ends_with_self (String.◌∷◌ c t) = rw (eq_refl (String.◌∷◌ c t)) refl

pub ends_with-append : (s t : String) → ends_with (s <> t) t ≡ true
unfolding ends_with
ends_with-append String.[] t = ap (λ u. ends_with u t) (nil-append t) ∙ ends_with_self t
ends_with-append (String.◌∷◌ c s) t =
    let ih = ends_with-append s t in
    ap (λ u. ends_with u t) (cons-append c s t) ∙ ground (arith, ih)

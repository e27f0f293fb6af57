-- ===== src/Datastructures/Match.antt =====
-- Patterns without wildcards.
use Prim.Native.Char.{Char, code}
use connexion.Prelude.{
  ℕ, String, ◌≡◌, refl, sym, ◌∙◌, ◌↔◌, Bool, true, false, eqb_iff, eq_iff, arith,
}
use text.Mathlib.TextEquality.{Char-path}
use connexion.Prelude.Text.{has_char, is_char}
use connexion.Datastructures.{matches, one_char}

not-wild-head :
    (n : ℕ) (c : Char) (p : String) → has_char n (String.◌∷◌ c p) ≡ false → is_char n c ≡ false
unfolding has_char
not-wild-head n c p h = ground arith

not-wild-tail :
    (n : ℕ) (c : Char) (p : String) → has_char n (String.◌∷◌ c p) ≡ false → has_char n p ≡ false
unfolding has_char
not-wild-tail n c p h = ground arith

matches-char :
    (c : Char) (p s : String)
    → is_char b'*' c ≡ false
    → is_char b'?' c ≡ false
    → matches (String.◌∷◌ c p) s ≡ one_char false c (matches p) s
unfolding matches
matches-char c p s h k = rw (h, k) refl

one_char_iff :
    (c d : Char) (f : String → Bool) (p s : String)
    → (f s ≡ true) ↔ (p ≡ s)
    → (one_char false c f (String.◌∷◌ d s) ≡ true) ↔ (String.◌∷◌ c p ≡ String.◌∷◌ d s)
one_char_iff c d f p s rest = (
  λ h.
      let e = Char-path c d ((eqb_iff (code c) (code d)).0 (ground arith)) in
      let q = rest.0 (ground arith) in λ i. String.◌∷◌ (e i) (q i),
  λ e.
      let hd : code c ≡ code d = cc in
      let tl : p ≡ s = cc in rw ((eqb_iff (code c) (code d)).1 hd) (rest.1 tl),
)

pub no_char : {A : Type 0} → false ≡ true → A
no_char e = absurd (cc)

-- A pattern without wildcards matches itself only.
pub matches-literal :
    (p s : String)
    → has_char b'*' p ≡ false
    → has_char b'?' p ≡ false
    → (matches p s ≡ true) ↔ (p ≡ s)
unfolding matches
matches-literal String.[] s h k = (λ e. sym ((eq_iff s "").0 e), λ e. (eq_iff s "").1 (sym e))
matches-literal (String.◌∷◌ c p) String.[] h k =
    let e = matches-char c p "" (not-wild-head _ c p h) (not-wild-head _ c p k) in
    ((λ m. no_char (sym e ∙ m)), (λ q. cc))
matches-literal (String.◌∷◌ c p) (String.◌∷◌ d s) h k =
    let e = matches-char c p (String.◌∷◌ d s) (not-wild-head _ c p h) (not-wild-head _ c p k) in
    let r =
      one_char_iff c d (matches p) p s
        (matches-literal p s (not-wild-tail _ c p h) (not-wild-tail _ c p k)) in
    ((λ m. r.0 (sym e ∙ m)), (λ q. e ∙ r.1 q))

-- ===== src/Datastructures/Laws.antt =====
-- Which key of a `MediaTypeDict` an item is given.
use connexion.Prelude.{
  String, ◌≡◌, refl, sym, ap, ◌∙◌, inl, inr, true, false, some, List, [], ◌∷◌, ◌==◌, eq_iff, arith,
  Bool-cases, All, Any,
}
use connexion.Prelude.Text.{has_char}
use connexion.Prelude.Dict
use connexion.Prelude.Dict.{Dict}
use connexion.Errors.{ok}
use connexion.Datastructures.{matches, is_specific, sorted, first_match, get_item}
use connexion.Datastructures.Match.{no_char, matches-literal}
use connexion.Datastructures.Order.{IsOrdered, sorted-IsOrdered, All-sorted, Any-sorted}

-- no `?`, and no `*`
abbrev pub IsMediaRange : String → Type 0
IsMediaRange k = has_char b'?' k ≡ false

abbrev pub IsMediaType : String → Type 0
IsMediaType k = (has_char b'*' k ≡ false) × (has_char b'?' k ≡ false)

specific-star : (k : String) → is_specific k ≡ true → has_char b'*' k ≡ false
unfolding is_specific
specific-star k h = ground arith

star-specific : (k : String) → has_char b'*' k ≡ false → is_specific k ≡ true
unfolding is_specific
star-specific k h = ground arith

not_in_wild :
    (item : String) (ks : List String)
    → is_specific item ≡ true
    → All (λ j. is_specific j ≡ false) ks
    → Any (λ k. k ≡ item) ks
    → ⊥
not_in_wild item [] s h a = absurd a
not_in_wild item (k ∷ ks) s (h, hs) (inl e) = no_char (sym h ∙ ap is_specific e ∙ s)
not_in_wild item (k ∷ ks) s (h, hs) (inr a) = not_in_wild item ks s hs a

first_match-exact :
    (item : String) (ks : List String)
    → IsMediaType item
    → IsOrdered ks
    → All IsMediaRange ks
    → Any (λ k. k ≡ item) ks
    → first_match item ks ≡ some item
unfolding first_match
first_match-exact item [] t o r a = absurd a
first_match-exact item (k ∷ ks) (star, question) (wild, o) (r, rs) a =
    elim (Bool-cases (matches k item)) [
      | inl m ↦ elim (Bool-cases (is_specific k)) [
        | inl s ↦ rw m (ap some ((matches-literal k item (specific-star k s) r).0 m))
        | inr n ↦ absurd (not_in_wild item (k ∷ ks) (star-specific item star) (n, wild n) a)
      ]
      | inr m ↦ elim a [
        | inl e ↦ no_char (sym m ∙ (matches-literal k item (ap (has_char b'*') e ∙ star) r).1 e)
        | inr rest ↦ rw m (first_match-exact item ks (star, question) o rs rest)
      ]
    ]

module _ {V : Type 0} where
  get-key :
      (d : Dict V) (item : String) (v : V)
      → Dict.get item d ≡ some v
      → Any (λ k. k ≡ item) (Dict.keys d)
  unfolding Dict.get Dict.keys
  get-key [] item v e = cc
  get-key ((k, w) ∷ d) item v e = elim (Bool-cases (item == k)) [
    | inl same ↦ inl (sym ((eq_iff item k).0 same))
    | inr other ↦ inr (get-key d item v (sym (rw other refl) ∙ e))
  ]

  -- A media type that is a key itself is given its own value, whatever ranges match it too. The keys are
  -- media types and ranges with `*`.
  pub get_item-exact :
      (d : Dict V) (item : String) (v : V)
      → IsMediaType item
      → All IsMediaRange (Dict.keys d)
      → Dict.get item d ≡ some v
      → get_item d item ≡ ok v
  unfolding get_item
  get_item-exact d item v t r e =
      rw
        (
          get_item,
          first_match-exact item (sorted (Dict.keys d)) t (sorted-IsOrdered (Dict.keys d))
              (All-sorted IsMediaRange (Dict.keys d) r)
              (Any-sorted (λ k. k ≡ item) (Dict.keys d) (get-key d item v e)),
          e,
        )
        refl

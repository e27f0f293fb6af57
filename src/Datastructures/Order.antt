-- ===== src/Datastructures/Order.antt =====
-- The order of the keys of a `MediaTypeDict`.
use connexion.Prelude.{
  String, ◌≡◌, refl, sym, subst, ◌∙◌, inl, inr, true, false, List, [], ◌∷◌, Bool-cases, All, Any,
}
use connexion.Datastructures.{is_specific, before, insert, sorted}
use connexion.Datastructures.Match.{no_char}

-- A wildcard is followed by wildcards only.
abbrev pub IsOrdered : List String → Type 0
IsOrdered [] = Unit
IsOrdered (k ∷ ks) = ((is_specific k ≡ false) → All (λ j. is_specific j ≡ false) ks) × IsOrdered ks

before-wild : (k j : String) → before k j ≡ true → is_specific k ≡ false → is_specific j ≡ false
unfolding before
before-wild k j h e = elim (Bool-cases (is_specific j)) [
  | inl s ↦ no_char (sym (rw (before, e, s) refl) ∙ h)
  | inr n ↦ n
]

before-not : (k j : String) → before k j ≡ false → is_specific j ≡ false → is_specific k ≡ false
unfolding before
before-not k j h e = elim (Bool-cases (is_specific k)) [
  | inl s ↦ no_char (sym h ∙ rw (before, s, e) refl)
  | inr n ↦ n
]

insert-before :
    (k j : String) (ks : List String) → before k j ≡ true → insert k (j ∷ ks) ≡ k ∷ j ∷ ks
unfolding insert
insert-before k j ks h = rw (h) refl

insert-after :
    (k j : String) (ks : List String) → before k j ≡ false → insert k (j ∷ ks) ≡ j ∷ insert k ks
unfolding insert
insert-after k j ks h = rw (h) refl

All-insert :
    (P : String → Type 0) (k : String) (ks : List String) → P k → All P ks → All P (insert k ks)
unfolding insert
All-insert P k [] p h = (p, tt)
All-insert P k (j ∷ ks) p (q, h) = elim (Bool-cases (before k j)) [
  | inl b ↦ subst (All P) (sym (insert-before k j ks b)) (p, (q, h))
  | inr b ↦ subst (All P) (sym (insert-after k j ks b)) (q, All-insert P k ks p h)
]

Any-insert :
    (P : String → Type 0) (k : String) (ks : List String) → Any P (k ∷ ks) → Any P (insert k ks)
unfolding insert
Any-insert P k [] a = a
Any-insert P k (j ∷ ks) a = elim (Bool-cases (before k j)) [
  | inl b ↦ subst (Any P) (sym (insert-before k j ks b)) a
  | inr b ↦ subst (Any P) (sym (insert-after k j ks b)) (elim a [
    | inl p ↦ inr (Any-insert P k ks (inl p))
    | inr (inl p) ↦ inl p
    | inr (inr p) ↦ inr (Any-insert P k ks (inr p))
  ])
]

insert-IsOrdered : (k : String) (ks : List String) → IsOrdered ks → IsOrdered (insert k ks)
unfolding insert
insert-IsOrdered k [] o = ((λ e. tt), tt)
insert-IsOrdered k (j ∷ ks) (h, o) = elim (Bool-cases (before k j)) [
  | inl b ↦
      subst IsOrdered (sym (insert-before k j ks b))
        ((λ e. (before-wild k j b e, h (before-wild k j b e))), (h, o))
  | inr b ↦ subst IsOrdered (sym (insert-after k j ks b)) (
    (λ e. All-insert (λ i. is_specific i ≡ false) k ks (before-not k j b e) (h e)),
    insert-IsOrdered k ks o,
  )
]

pub sorted-IsOrdered : (ks : List String) → IsOrdered (sorted ks)
unfolding sorted
sorted-IsOrdered [] = tt
sorted-IsOrdered (k ∷ ks) = insert-IsOrdered k (sorted ks) (sorted-IsOrdered ks)

pub All-sorted : (P : String → Type 0) (ks : List String) → All P ks → All P (sorted ks)
unfolding sorted
All-sorted P [] h = tt
All-sorted P (k ∷ ks) (p, h) = All-insert P k (sorted ks) p (All-sorted P ks h)

pub Any-sorted : (P : String → Type 0) (ks : List String) → Any P ks → Any P (sorted ks)
unfolding sorted
Any-sorted P [] a = absurd a
Any-sorted P (k ∷ ks) a =
    Any-insert P k (sorted ks) (elim a [ inl p ↦ inl p | inr q ↦ inr (Any-sorted P ks q) ])

-- ===== src/Utils/Merge/Laws.antt =====
-- What `deep_merge` leaves under each key, and at the end of each path of keys.
use connexion.Prelude.{
  String, ◌≡◌, refl, sym, ap, subst, ◌∙◌, Bool-cases, ◌⊎◌, Option, none, some, List, [], ◌∷◌, arith,
  inl, inr, eq_iff, ◌==◌, if◌then◌else◌,
}
use connexion.Value.{Value, Fields, obj, end, field}
use connexion.Errors.{ok, bind-eq-ok, or_key_error}
use connexion.Utils.Merge.{
  set_field, get_field, merge_value, merge_fields, deep_merge, get_item, deep_get,
}

-- Values of Python: no dict has a key twice.
abbrev mutual
  pub IsWf : Value → Type 0
  IsWf (obj fs) = AreWf fs
  IsWf v = Unit

  pub AreWf : Fields → Type 0
  AreWf end = Unit
  AreWf (field k v fs) = (get_field k fs ≡ none) × IsWf v × AreWf fs

pub get-set_field :
    (k j : String) (v : Value) (fs : Fields)
    → get_field j (set_field k v fs) ≡ (if j == k then some v else get_field j fs)
unfolding get_field set_field
get-set_field k j v end = refl
get-set_field k j v (field i w fs) =
    ground (arith, eq_iff k j, eq_iff j k, eq_iff k i, eq_iff j i, get-set_field k j v fs)

-- what is under a key that the merged dict takes from the two
abbrev merged : Option Value → Option Value → Option Value
merged none o = o
merged (some v) none = some v
merged (some v) (some w) = some (merge_value v w)

merged-some :
    (v : Value) (o : Option Value)
    → some (elim o as (λ o. Value) [ none ↦ v | some w ↦ merge_value v w ]) ≡ merged (some v) o
merged-some v none = refl
merged-some v (some w) = refl

get-merge_fields :
    (a b : Fields) (k : String)
    → AreWf b
    → get_field k (deep_merge a b) ≡ merged (get_field k b) (get_field k a)
unfolding deep_merge merge_fields get_field
get-merge_fields a end k wf = refl
get-merge_fields a (field j v b) k (no_j, wf_v, wf) =
    get-merge_fields (set_field j (elim (get_field j a) [ none ↦ v | some w ↦ merge_value v w ]) a)
      b k wf
    ∙ elim (Bool-cases (k == j)) [
      | inl same ↦
          let e = (eq_iff k j).0 same in
          rw (get-set_field, same, e, no_j) (merged-some v (get_field j a))
      | inr other ↦ rw (get-set_field, other) refl
    ]

-- two dicts merged, and else the value of `b`, which is the first
unfoldable pub joined : Value → Value → Value
unfolding deep_merge
joined (obj gs) (obj fs) = obj (deep_merge fs gs)
joined v w = v

-- What is under a key of which `a` has the second value and `b` the first.
abbrev pub kept_of : Option Value → Option Value → Option Value
kept_of none in_a = in_a
kept_of (some v) none = some v
kept_of (some v) (some w) = some (joined v w)

merge_value-joined : (v w : Value) → merge_value v w ≡ joined v w
unfolding joined deep_merge merge_value
merge_value-joined (obj gs) (obj fs) = refl
merge_value-joined v w = refl

merged-kept_of : (o in_a : Option Value) → merged o in_a ≡ kept_of o in_a
merged-kept_of none in_a = refl
merged-kept_of (some v) none = refl
merged-kept_of (some v) (some w) = ap some (merge_value-joined v w)

-- Under each key `deep_merge` leaves the value of `a` where `b` has no such key, the two dicts merged
-- where both have a dict there, and else the value of `b`. `b` has no key twice.
pub get-deep_merge :
    (a b : Fields) (k : String)
    → AreWf b
    → get_field k (deep_merge a b) ≡ kept_of (get_field k b) (get_field k a)
get-deep_merge a b k wf = get-merge_fields a b k wf ∙ merged-kept_of (get_field k b) (get_field k a)

-- a value that is no dict
abbrev pub IsLeaf : Value → Type 0
IsLeaf (obj fs) = ⊥
IsLeaf v = Unit

some_of-or_key_error :
    (k : String) (o : Option Value) {v : Value} → or_key_error k o ≡ ok v → o ≡ some v
some_of-or_key_error k none e = cc
some_of-or_key_error k (some v) e = ground arith

AreWf-get : (fs : Fields) (k : String) (v : Value) → AreWf fs → get_field k fs ≡ some v → IsWf v
unfolding get_field
AreWf-get end k v wf e = cc
AreWf-get (field j w fs) k v (no_j, wf_w, wf) e = elim (Bool-cases (k == j)) [
  | inl same ↦
      let here : get_field k (field j w fs) ≡ some w = rw same refl in
      subst (λ (o : Option Value). elim o as (λ o. Type 0) [ none ↦ ⊥ | some u ↦ IsWf u ])
        (sym here ∙ e) wf_w
  | inr other ↦ AreWf-get fs k v wf (sym (rw other refl) ∙ e)
]

-- Of two values the first stays, or both are dicts and merge.
merge_value-cases :
    (w x : Value)
    → (merge_value w x ≡ w)
      ⊎ ((gs : Fields) × (fs : Fields) × (w ≡ obj gs)
          × (merge_value w x ≡ obj (merge_fields gs fs)))
unfolding merge_value
merge_value-cases (obj gs) (obj fs) = inr (gs, fs, refl, refl)
merge_value-cases w x = inl refl

-- A leaf behind a value is behind what that value merges to.
deep_get-merged :
    (keys : List String) (w v : Value) (o : Option Value)
    → deep_get w keys ≡ ok v
    → ((gs fs : Fields) → w ≡ obj gs → deep_get (obj (merge_fields gs fs)) keys ≡ ok v)
    → (u : Value) × (merged (some w) o ≡ some u) × (deep_get u keys ≡ ok v)
deep_get-merged keys w v none e ih = (w, refl, e)
deep_get-merged keys w v (some x) e ih = elim (merge_value-cases w x) [
  | inl same ↦ (w, ap some same, e)
  | inr (gs, fs, is_obj, same) ↦ (obj (merge_fields gs fs), ap some same, ih gs fs is_obj)
]

deep_get-obj :
    (fs : Fields) (key : String) (keys : List String) (u v : Value)
    → get_field key fs ≡ some u
    → deep_get u keys ≡ ok v
    → deep_get (obj fs) (key ∷ keys) ≡ ok v
unfolding deep_get get_item
deep_get-obj fs key keys u v has_key e = rw has_key e

leaf-not_obj : (w v : Value) (gs : Fields) → IsLeaf v → w ≡ obj gs → w ≡ v → ⊥
leaf-not_obj w v gs leaf is_obj is_v = subst (λ (x : Value). IsLeaf x) (sym is_v ∙ is_obj) leaf

deep_get_nil : (v w : Value) → deep_get w [] ≡ ok v → w ≡ v
unfolding deep_get
deep_get_nil v w e = ground arith

-- Every leaf of `b` is kept: what `deep_get` finds in `b` at a path of keys, and is no dict, it finds
-- there in the merged dict too. No dict in `b` has a key twice.
pub deep_get-deep_merge :
    (keys : List String) (a b : Fields) (v : Value)
    → AreWf b
    → IsLeaf v
    → deep_get (obj b) keys ≡ ok v
    → deep_get (obj (deep_merge a b)) keys ≡ ok v
unfolding deep_get get_item deep_merge
deep_get-deep_merge [] a b v wf leaf e =
    absurd (leaf-not_obj (obj b) v b leaf refl (deep_get_nil v (obj b) e))
deep_get-deep_merge (key ∷ keys) a b v wf leaf e =
    let (w, found, e₁) = bind-eq-ok (or_key_error key (get_field key b)) _ e in
    let has_key = some_of-or_key_error key (get_field key b) found in
    let wf_w = AreWf-get b key w wf has_key in
    let (u, is_u, e₂) = deep_get-merged keys w v (get_field key a) e₁ (λ gs fs is_obj.
      deep_get-deep_merge keys fs gs v (subst IsWf is_obj wf_w) leaf
        (subst (λ x. deep_get x keys ≡ ok v) is_obj e₁)) in
    deep_get-obj (deep_merge a b) key keys u v
      (get-merge_fields a b key wf ∙ ap (λ o. merged o (get_field key a)) has_key ∙ is_u) e₂

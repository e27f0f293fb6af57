-- ===== src/Utils/Coerce/Laws.antt =====
-- What `coerce_type` does to the leaves of an object, and what it never raises.
use connexion.Prelude.{
  Bool, true, false, ◌&&◌, String, ◌≡◌, refl, sym, ap, subst, Bool-cases, Option, none, some, List,
  [], ◌∷◌, arith, inl, inr, eq_iff, ◌==◌, if◌then◌else◌,
}
use connexion.Value.{Value, Fields, end, field, obj, arr, str, null}
use connexion.Value.Access.{lookup}
use connexion.Errors.{Exc, Result, ok, err, ◌>>=◌, bind-eq-ok, or_key_error}
use connexion.Utils.Merge.{get_field}
use connexion.Utils.Coerce.{
  Builtins, or_keep, cast, cast_items, cast_leaves, cast_fields, coerce_type, scalar_result,
  iterate, split_header, coerce_array, coerce_object, coerce_by, cast_entry, text_of, named,
}
use connexion.Utils.Media.{is_nullable, is_null, or_self}

some_of_or_key_error :
    (k : String) (o : Option Value) {v : Value} → or_key_error k o ≡ ok v → o ≡ some v
some_of_or_key_error k none e = cc
some_of_or_key_error k (some v) e = ground arith

module _ (py : Builtins) where
  -- What becomes of an entry of a dict, by the schema that the properties have for its key.
  abbrev pub Leaf : Option Value → Option Value → Option Value → Type 0
  Leaf none schema result = result ≡ none
  Leaf (some v) none result = result ≡ some v
  Leaf (some v) (some s) result = (w : Value) × (result ≡ some w) × (cast_leaves py v s ≡ ok w)

  abbrev pub property : String → Value → Option Value
  property k schema = elim (lookup "properties" schema) [ none ↦ none | some p ↦ lookup k p ]

  Leaf-here :
      (o : Option Value) (v w : Value)
      → (elim o as (λ o. Result Value) [ none ↦ ok v | some s ↦ cast_leaves py v s ]) ≡ ok w
      → Leaf (some v) o (some w)
  Leaf-here none v w e = ground arith
  Leaf-here (some s) v w e = (w, refl, e)

  property-eq :
      (k : String) (schema p : Value)
      → lookup "properties" schema ≡ some p
      → property k schema ≡ lookup k p
  property-eq k schema p h =
      ap (λ (o : Option Value). elim o as (λ o. Option Value) [ none ↦ none | some q ↦ lookup k q ])
        h

  Leaf-cons :
      (k j : String) (v w : Value) (fs rest gs : Fields) (schema p : Value)
      → field j w rest ≡ gs
      → lookup "properties" schema ≡ some p
      → (elim (lookup j p) as (λ o. Result Value) [ none ↦ ok v | some s ↦ cast_leaves py v s ])
        ≡ ok w
      → Leaf (get_field k fs) (property k schema) (get_field k rest)
      → Leaf (get_field k (field j v fs)) (property k schema) (get_field k gs)
  unfolding get_field
  Leaf-cons k j v w fs rest gs schema p is_gs has_p cast_w ih = elim (Bool-cases (k == j)) [
    | inl e ↦
        let same_key : j ≡ k = sym ((eq_iff k j).0 e) in
        rw (← is_gs, e)
          (subst (λ o. Leaf (some v) o (some w)) (sym (property-eq k schema p has_p))
            (subst (λ i. Leaf (some v) (lookup i p) (some w)) same_key
              (Leaf-here (lookup j p) v w cast_w)))
    | inr e ↦ rw (← is_gs, e) ih
  ]

  -- A dict whose leaves are cast has the same keys. An entry with no schema among the properties is
  -- unchanged, and every other is cast by its own schema.
  pub cast_fields-Leaf :
      (fs gs : Fields) (schema : Value) (k : String)
      → cast_fields py fs schema ≡ ok gs
      → Leaf (get_field k fs) (property k schema) (get_field k gs)
  unfolding cast_fields get_field
  cast_fields-Leaf end gs schema k h = ground arith
  cast_fields-Leaf (field j v fs) gs schema k h =
      let (p, properties, h₁) =
        bind-eq-ok (or_key_error "properties" (lookup "properties" schema)) _ h in
      let (w, cast_w, h₂) =
        bind-eq-ok (elim (lookup j p) [ none ↦ ok v | some s ↦ cast_leaves py v s ]) _ h₁ in
      let (rest, cast_rest, same) = bind-eq-ok (cast_fields py fs schema) _ h₂ in
      Leaf-cons k j v w fs rest gs schema p (ground arith) (some_of_or_key_error _ _ properties)
        cast_w (cast_fields-Leaf fs rest schema k cast_rest)

-- no `ValueError`
abbrev pub NoValueError {ℓ} : {A : Type ℓ} → Result A → Type 0
NoValueError (ok a) = Unit
NoValueError (err (Exc.value_error m)) = ⊥
NoValueError (err e) = Unit

NoValueError-bind {ℓ κ} :
    {A : Type ℓ} {B : Type κ} (r : Result A) (next : A → Result B)
    → NoValueError r
    → ((a : A) → NoValueError (next a))
    → NoValueError (r >>= next)
NoValueError-bind (ok a) next h k = k a
NoValueError-bind (err (Exc.value_error m)) next h k = absurd h
NoValueError-bind (err e) next h k = tt

NoValueError-or_keep : (v : Value) (r : Result Value) → NoValueError (or_keep v r)
NoValueError-or_keep v (ok w) = tt
NoValueError-or_keep v (err (Exc.value_error m)) = tt
NoValueError-or_keep v (err (Exc.type_error m)) = tt
NoValueError-or_keep v (err e) = tt

NoValueError-or_key_error {ℓ} :
    {A : Type ℓ} (k : String) (o : Option A) → NoValueError (or_key_error k o)
NoValueError-or_key_error k none = tt
NoValueError-or_key_error k (some a) = tt

module _ (py : Builtins) where
  NoValueError-scalar_result :
      (t : Option String) (parameter_type name : String) (v : Value) (r : Result Value)
      → NoValueError (scalar_result py t parameter_type name v r)
  NoValueError-scalar_result t parameter_type name v (ok w) = tt
  NoValueError-scalar_result none parameter_type name v (err (Exc.value_error m)) = tt
  NoValueError-scalar_result none parameter_type name v (err (Exc.type_error m)) = tt
  NoValueError-scalar_result none parameter_type name v (err e) = tt
  NoValueError-scalar_result (some t) parameter_type name v (err (Exc.value_error m)) = tt
  NoValueError-scalar_result (some t) parameter_type name v (err (Exc.type_error m)) = tt
  NoValueError-scalar_result (some t) parameter_type name v (err e) = tt

  NoValueError-cast_items :
      (schema : Value) (vs : List Value) → NoValueError (cast_items py schema vs)
  unfolding cast_items
  NoValueError-cast_items schema [] = tt
  NoValueError-cast_items schema (v ∷ vs) =
      NoValueError-bind (cast_entry py schema v) _ (NoValueError-or_keep v _) (λ w.
        NoValueError-bind (cast_items py schema vs) _ (NoValueError-cast_items schema vs)
          (λ ws. tt))

  NoValueError-leaf :
      (o : Option Value) (v : Value)
      → ((s : Value) → NoValueError (cast_leaves py v s))
      → NoValueError (elim o as (λ o. Result Value) [ none ↦ ok v | some s ↦ cast_leaves py v s ])
  NoValueError-leaf none v h = tt
  NoValueError-leaf (some s) v h = h s

  mutual
    unfolding cast_leaves cast_fields

    NoValueError-cast_leaves : (d schema : Value) → NoValueError (cast_leaves py d schema)
    NoValueError-cast_leaves (obj fs) schema =
        NoValueError-bind (cast_fields py fs schema) _ (NoValueError-cast_fields fs schema)
          (λ gs. tt)
    NoValueError-cast_leaves d schema = NoValueError-or_keep d _

    NoValueError-cast_fields :
        (fs : Fields) (schema : Value) → NoValueError (cast_fields py fs schema)
    NoValueError-cast_fields end schema = tt
    NoValueError-cast_fields (field k v fs) schema =
        NoValueError-bind (or_key_error "properties" (lookup "properties" schema)) _
          (NoValueError-or_key_error "properties" _)
          (λ p.
            NoValueError-bind _ _
              (NoValueError-leaf (lookup k p) v (λ s. NoValueError-cast_leaves v s))
              (λ w.
                NoValueError-bind (cast_fields py fs schema) _ (NoValueError-cast_fields fs schema)
                  (λ gs. tt)))

  NoValueError-if :
      (b : Bool) (r : Result Value) → NoValueError r → NoValueError (if b then ok null else r)
  NoValueError-if true r h = tt
  NoValueError-if false r h = h

  NoValueError-iterate : (v : Value) → NoValueError (iterate py v)
  NoValueError-iterate (arr xs) = tt
  NoValueError-iterate (str s) = tt
  NoValueError-iterate (obj fs) = tt
  NoValueError-iterate v = tt

  NoValueError-split_header :
      (parameter_type : String) (v : Value) → NoValueError (split_header py parameter_type v)
  NoValueError-split_header parameter_type (str s) = ground (arith, NoValueError-iterate (str s))
  NoValueError-split_header parameter_type v = ground (arith, NoValueError-iterate v)

  NoValueError-coerce_object : (schema value : Value) → NoValueError (coerce_object py schema value)
  NoValueError-coerce_object schema value = ground (arith, NoValueError-cast_leaves value schema)

  NoValueError-coerce_array :
      (schema : Value) (parameter_type : String) (v : Value)
      → NoValueError (coerce_array py schema parameter_type v)
  NoValueError-coerce_array schema parameter_type v =
      NoValueError-bind (split_header py parameter_type v) _
        (NoValueError-split_header parameter_type v)
        (λ vs.
          NoValueError-bind (cast_items py schema vs) _ (NoValueError-cast_items schema vs)
            (λ ws. tt))

  NoValueError-coerce_by :
      (schema : Value) (t : Option String) (parameter_type name : String) (v : Value)
      → NoValueError (coerce_by py schema t parameter_type name v)
  NoValueError-coerce_by schema none parameter_type name v =
      NoValueError-scalar_result none parameter_type name v (cast py none v)
  NoValueError-coerce_by schema (some t) parameter_type name v = ground (
    arith,
    NoValueError-coerce_array schema parameter_type v,
    NoValueError-coerce_object schema v,
    NoValueError-scalar_result (some t) parameter_type name v (cast py (some t) v),
  )

  -- Whatever Python's casts raise, `coerce_type` raises no `ValueError`.
  pub coerce_type-NoValueError :
      (param value : Value) (parameter_type : String) (parameter_name : Option String)
      → NoValueError (coerce_type py param value parameter_type parameter_name)
  unfolding coerce_type
  coerce_type-NoValueError param value parameter_type parameter_name =
      let schema = or_self (lookup "schema" param) param in
      let type_ = text_of (lookup "type" schema) in
      let name = named py parameter_name param in
      NoValueError-if (is_nullable schema && is_null value)
        (coerce_by py schema type_ parameter_type name value)
        (NoValueError-coerce_by schema type_ parameter_type name value)

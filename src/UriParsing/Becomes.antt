-- ===== src/UriParsing/Becomes.antt =====
-- What `resolve_param` makes of the values of one parameter.
use native.Mathlib.Omega.{arith}
use connexion.Prelude.{
  String, ◌≡◌, ◌≢◌, refl, sym, ap, ◌∙◌, ◌⊎◌, inl, inr, Bool, true, false, ◌&&◌, ◌||◌, Bool-cases,
  Option, none, some, ◌==◌, eq_iff, if◌then◌else◌, last,
}
use connexion.Prelude.Dict
use connexion.Prelude.Dict.{Dict}
use connexion.Value.{
  Value, Items, null, bool, int, float, str, arr, obj, opaque, nil, cons, items, truthy,
}
use connexion.Value.Access.{lookup}
use connexion.Errors.{Exc, type_validation_error, Result, ok, err, ◌>>=◌, bind-eq-ok, or_key_error}
use connexion.Utils.Media.{is_nullable, is_null}
use connexion.Utils.Coerce.{Builtins, coerce_type}
use connexion.UriParsing.{
  UriParser, or_index_error, last_value, is_truthy, or_null, is_array, or_unchanged, combine,
  coerced, resolve_param,
}

-- Whether a parameter is an array, by its schema.
abbrev pub IsArray : Option Value → Bool → Type 0
IsArray none array = array ≡ false
IsArray (some schema) array =
    ((truthy schema ≡ false) × (array ≡ false))
    ⊎ ((truthy schema ≡ true)
        × ((t : Value) × (lookup "type" schema ≡ some t)
            × (((t ≡ str "array") × (array ≡ true)) ⊎ ((t ≢ str "array") × (array ≡ false)))))

array_of : Value → Bool
array_of (str t) = t == "array"
array_of v = false

array_of-cases :
    (t : Value)
    → ((t ≡ str "array") × (array_of t ≡ true)) ⊎ ((t ≢ str "array") × (array_of t ≡ false))
unfolding array_of
array_of-cases (str t) = elim (Bool-cases (t == "array")) [
  | inl same ↦ inl (ap str ((eq_iff t "array").0 same), same)
  | inr other ↦ inr ((λ h. absurd (ground (arith, h, other, eq_iff t "array"))), other)
]
array_of-cases null = inr ((λ h. absurd (cc)), refl)
array_of-cases (bool b) = inr ((λ h. absurd (cc)), refl)
array_of-cases (int b n) = inr ((λ h. absurd (cc)), refl)
array_of-cases (float t) = inr ((λ h. absurd (cc)), refl)
array_of-cases (arr xs) = inr ((λ h. absurd (cc)), refl)
array_of-cases (obj fs) = inr ((λ h. absurd (cc)), refl)
array_of-cases (opaque n) = inr ((λ h. absurd (cc)), refl)

ok-injective : {A : Type 0} {a b : A} → ok a ≡ ok b → a ≡ b
ok-injective e = cc

by_type : Value → Result Bool
by_type = elim [ str t ↦ ok (t == "array") | v ↦ ok false ]

by_type-array_of : (t : Value) → by_type t ≡ ok (array_of t)
unfolding by_type array_of
by_type-array_of (str t) = refl
by_type-array_of null = refl
by_type-array_of (bool b) = refl
by_type-array_of (int b n) = refl
by_type-array_of (float t) = refl
by_type-array_of (arr xs) = refl
by_type-array_of (obj fs) = refl
by_type-array_of (opaque n) = refl

some_of-or_key_error :
    (k : String) (o : Option Value) {v : Value} → or_key_error k o ≡ ok v → o ≡ some v
some_of-or_key_error k none e = cc
some_of-or_key_error k (some v) e = ap some (ok-injective e)

IsArray-is_array : (o : Option Value) (array : Bool) → is_array o ≡ ok array → IsArray o array
unfolding is_array by_type
IsArray-is_array none array h = sym (ok-injective h)
IsArray-is_array (some schema) array h = elim (Bool-cases (truthy schema)) [
  | inl on ↦
      let (t, has_type, by) =
        bind-eq-ok (or_key_error "type" (lookup "type" schema)) by_type (sym (rw on refl) ∙ h) in
      let is = ok-injective (sym (by_type-array_of t) ∙ by) in
      inr (
        on,
        (
          t,
          some_of-or_key_error "type" (lookup "type" schema) has_type,
          elim (array_of-cases t) [
            | inl (same, yes_array) ↦ inl (same, sym is ∙ yes_array)
            | inr (other, no_array) ↦ inr (other, sym is ∙ no_array)
          ],
        ),
      )
  | inr off ↦ inl (off, ok-injective (sym h ∙ rw off refl))
]

module _ (py : Builtins) (parser : UriParser) (location : String) where
  -- a path gives one value, and the others a list of them
  abbrev pub IsGiven : Value → Value → Type 0
  IsGiven values given =
      ((location ≡ "path") × (given ≡ arr (cons values nil)))
      ⊎ ((location ≢ "path") × (given ≡ values))

  -- The values of an array are combined and split by the class of the parser, and of others the last
  -- counts.
  abbrev pub IsCombined : Bool → (given defn combined : Value) → Type 0
  IsCombined true given defn combined =
      (w : Value) × (parser.resolve_param_duplicates given defn location ≡ ok w)
      × (parser.split w defn location ≡ ok combined)
  IsCombined false given defn combined =
      (xs : Items) × (given ≡ arr xs) × (last (items xs) ≡ some combined)

  -- An allowed null is kept, and so is what cannot be coerced.
  abbrev pub IsCoerced : String → (defn combined v : Value) → Type 0
  IsCoerced k defn combined v =
      (((is_nullable defn && is_null combined) ≡ true) × (v ≡ combined))
      ⊎ (((is_nullable defn && is_null combined) ≡ false)
          × ((coerce_type py defn combined "parameter" (some k) ≡ ok v)
              ⊎ ((t : String) × (p : String) × (n : String) × (coerce_type py defn combined
                      "parameter" (some k)
                    ≡ err (type_validation_error t p n))
                  × (v ≡ combined))))

  -- What a parameter becomes: without a definition and a schema what it is, and else its values, which
  -- are combined and then coerced.
  abbrev pub Becomes : String → (values v : Value) → Type 0
  Becomes k values v =
      (((is_truthy (Dict.get k parser.param_defns) || is_truthy (Dict.get k parser.param_schemas))
          ≡ false)
        × (v ≡ values))
      ⊎ (((is_truthy (Dict.get k parser.param_defns) || is_truthy (Dict.get k parser.param_schemas))
            ≡ true)
          × ((array : Bool) × (given : Value) × (combined : Value) × IsArray
                (Dict.get k parser.param_schemas) array
              × IsGiven values given
              × IsCombined array given (or_null (Dict.get k parser.param_defns)) combined
              × IsCoerced k (or_null (Dict.get k parser.param_defns)) combined v))

  is_given :
      (values : Value)
      → IsGiven values (if location == "path" then arr (cons values nil) else values)
  is_given values = elim (Bool-cases (location == "path")) [
    | inl same ↦ inl ((eq_iff location "path").0 same, rw same refl)
    | inr other ↦
        inr ((λ h. absurd (ground (arith, h, other, eq_iff location "path"))), rw other refl)
  ]

  IsCombined-combine :
      (array : Bool) (given defn combined : Value)
      → combine py parser array given defn location ≡ ok combined
      → IsCombined array given defn combined
  unfolding combine last_value
  IsCombined-combine true given defn combined h =
      bind-eq-ok (parser.resolve_param_duplicates given defn location) _ h
  IsCombined-combine false (arr xs) defn combined h = (xs, refl, last_is (last (items xs)) h)
    where
      last_is : (o : Option Value) → or_index_error o ≡ ok combined → o ≡ some combined
      last_is none e = cc
      last_is (some v) e = ap some (ok-injective e)
  IsCombined-combine false v defn combined h = cc

  IsCoerced-coerced :
      (k : String) (defn combined v : Value)
      → coerced py parser defn k combined ≡ ok v
      → IsCoerced k defn combined v
  unfolding coerced
  IsCoerced-coerced k defn combined v h = elim (Bool-cases (is_nullable defn && is_null combined)) [
    | inl kept ↦ inl (kept, ok-injective (sym h ∙ rw kept refl))
    | inr not_null ↦ inr (
      not_null,
      tried (coerce_type py defn combined "parameter" (some k)) (sym (rw not_null refl) ∙ h),
    )
  ]
    where
      tried :
          (r : Result Value)
          → or_unchanged combined r ≡ ok v
          → (r ≡ ok v)
            ⊎ ((t : String) × (p : String) × (n : String) × (r ≡ err (type_validation_error t p n))
                × (v ≡ combined))
      tried (ok w) e = inl e
      tried (err (Exc.type_validation_error t p n)) e = inr (t, p, n, refl, sym (ok-injective e))
      tried (err x) e = cc

  made : String → (values : Value) → Bool → Result Value
  made k values array =
      combine py parser array (if location == "path" then arr (cons values nil) else values)
        (or_null (Dict.get k parser.param_defns)) location
      >>= coerced py parser (or_null (Dict.get k parser.param_defns)) k

  resolve_param-defined :
      (k : String) (values : Value)
      → (is_truthy (Dict.get k parser.param_defns) || is_truthy (Dict.get k parser.param_schemas))
        ≡ true
      → resolve_param py parser k values location
        ≡ (is_array (Dict.get k parser.param_schemas) >>= made k values)
  unfolding resolve_param made
  resolve_param-defined k values defined = rw (resolve_param, defined) refl

  pub Becomes-resolve_param :
      (k : String) (values v : Value)
      → resolve_param py parser k values location ≡ ok v
      → Becomes k values v
  unfolding resolve_param made
  Becomes-resolve_param k values v h =
      elim (Bool-cases (
        is_truthy (Dict.get k parser.param_defns) || is_truthy (Dict.get k parser.param_schemas))) [
          | inl defined ↦
              let (array, is_array, h₁) =
                bind-eq-ok (is_array (Dict.get k parser.param_schemas)) (made k values)
                  (sym (resolve_param-defined k values defined) ∙ h) in
              let (combined, is_combined, h₂) =
                bind-eq-ok (combine py parser array _ _ location) _ h₁ in
              inr (
                defined,
                (
                  array,
                  _,
                  combined,
                  IsArray-is_array (Dict.get k parser.param_schemas) array is_array,
                  is_given values,
                  IsCombined-combine array _ _ combined is_combined,
                  IsCoerced-coerced k (or_null (Dict.get k parser.param_defns)) combined v h₂,
                ),
              )
          | inr undefined ↦ inl (undefined, ok-injective (sym h ∙ rw undefined refl))
        ]

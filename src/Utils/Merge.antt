-- ===== src/Utils/Merge.antt =====
-- `deep_merge` and `deep_get`. Values that Python holds equal though they are of different types
-- (True, 1 and 1.0) are told apart here: where the code keeps the one, the model takes the other.
pub mod Laws
use connexion.Prelude.{
  ℕ, ◌-◌, String, Bool, true, false, Option, none, some, List, [], ◌∷◌, ◌==◌, if◌then◌else◌, length,
  ltb,
}
use connexion.Value.{Value, Items, Fields, obj, arr, end, field, items}
use connexion.Errors.{key_error, index_error, type_error, Result, ok, err, ◌>>=◌, or_key_error}
use connexion.Utils.Cast.{parse_int}

-- `a[key] = v`
unfoldable pub set_field : String → Value → Fields → Fields
set_field k v end = field k v end
set_field k v (field j w fs) = if k == j then field j v fs else field j w (set_field k v fs)

unfoldable pub get_field : String → Fields → Option Value
get_field k end = none
get_field k (field j w fs) = if k == j then some w else get_field k fs

-- The loop over the keys of `b`. Where both have a key, two dicts are merged in place, and of
-- other values that of `b` is taken, which is also right where they are equal.
unfoldable mutual
  unfolding set_field get_field

  -- what `a[key]` becomes: `b[key]` first, then `a[key]`
  pub merge_value : Value → Value → Value
  merge_value (obj fs) (obj gs) = obj (merge_fields fs gs)
  merge_value v w = v

  pub merge_fields : Fields → Fields → Fields
  merge_fields end a = a
  merge_fields (field k v b) a =
      merge_fields b (set_field k (elim (get_field k a) [ none ↦ v | some w ↦ merge_value v w ]) a)

unfoldable pub deep_merge : (a b : Fields) → Fields
unfolding merge_fields
deep_merge a b = merge_fields b a

abbrev nth : {A : Type 0} → List A → ℕ → Option A
nth [] n = none
nth (v ∷ vs) ℕ.zero = some v
nth (v ∷ vs) (ℕ.suc n) = nth vs n

-- `values[i]`, from the end where `i` is negative
abbrev pub at_index : {A : Type 0} → List A → Bool × ℕ → Option A
at_index values (false, n) = nth values n
at_index values (true, n) = if ltb (length values) n then none else nth values (length values - n)

abbrev pub or_index_error : {A : Type 0} → Option A → Result A
or_index_error none = err (index_error "list index out of range")
or_index_error (some v) = ok v

-- one step of `deep_get`
unfoldable pub get_item : Value → String → Result Value
unfolding items parse_int get_field
get_item (arr xs) key = do i ← parse_int key; or_index_error (at_index (items xs) i)
get_item (obj fs) key = or_key_error key (get_field key fs)
get_item v key = err (type_error "the object has no item of that name")

unfoldable pub deep_get : Value → List String → Result Value
unfolding get_item
deep_get v [] = ok v
deep_get v (key ∷ keys) = get_item v key >>= λ w. deep_get w keys

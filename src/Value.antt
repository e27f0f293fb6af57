-- ===== src/Value.antt =====
-- The values that the program handles as plain Python objects (parsed specifications, request data,
-- token information): None, bool, int, float, str, list and dict, and opaque objects such as
-- uploaded files. An integer is a sign and a magnitude; a float is its literal.
pub mod Access
use connexion.Prelude.{ℕ, String, ◌≡◌, refl, Bool, true, false, not, ◌||◌, List, [], ◌∷◌, ◌==◌, eqb}
use connexion.Prelude.Dict.{Dict}

mutual
  pub data Value : Type 0 where
    null : Value
    bool : Bool → Value
    int : (negative : Bool) → ℕ → Value
    float : String → Value
    str : String → Value
    arr : Items → Value
    obj : Fields → Value
    opaque : ℕ → Value

  pub data Items : Type 0 where
    nil : Items
    cons : Value → Items → Items

  pub data Fields : Type 0 where
    end : Fields
    field : String → Value → Fields → Fields

unfoldable pub items : Items → List Value
items nil = []
items (cons v vs) = v ∷ items vs

unfoldable pub of_items : List Value → Items
of_items [] = nil
of_items (v ∷ vs) = cons v (of_items vs)

unfoldable pub fields : Fields → Dict Value
fields end = []
fields (field k v fs) = (k, v) ∷ fields fs

unfoldable pub of_fields : Dict Value → Fields
of_fields [] = end
of_fields ((k, v) ∷ fs) = field k v (of_fields fs)

pub fields-of_fields : (d : Dict Value) → fields (of_fields d) ≡ d
unfolding fields of_fields
fields-of_fields [] = refl
fields-of_fields ((k, v) ∷ d) = λ i. (k, v) ∷ fields-of_fields d i

pub items-of_items : (vs : List Value) → items (of_items vs) ≡ vs
unfolding items of_items
items-of_items [] = refl
items-of_items (v ∷ vs) = λ i. v ∷ items-of_items vs i

-- `bool(v)`
unfoldable pub truthy : Value → Bool
truthy null = false
truthy (bool b) = b
truthy (int s n) = not (eqb n 0)
truthy (float s) = not (s == "0.0" || s == "-0.0")
truthy (str s) = not (s == "")
truthy (arr nil) = false
truthy (arr (cons v vs)) = true
truthy (obj end) = false
truthy (obj (field k v fs)) = true
truthy (opaque n) = true

-- ===== src/Utils/Coerce.antt =====
-- `make_type` and `coerce_type`: values cast to the types of a specification. Python's `float`,
-- `str`, `list` and `dict`, and `int` of a float, are parameters.
pub mod Laws
use Prim.Native.String
use connexion.Prelude.{
  String, Bool, true, false, ◌&&◌, Option, none, some, List, [], ◌∷◌, map, ◌==◌, if◌then◌else◌, mem,
}
use connexion.Prelude.Text.{split}
use connexion.Value.{
  Value, Items, Fields, null, bool, int, float, str, arr, obj, opaque, nil, cons, end, field, items,
  of_items, truthy,
}
use connexion.Value.Access.{lookup}
use connexion.Errors.{
  Exc, value_error, type_error, key_error, attribute_error, type_validation_error, Result, ok, err,
  ◌>>=◌, or_key_error,
}
use connexion.Utils.Media.{is_nullable, is_null, or_self, or_false}
use connexion.Utils.Cast.{parse_int, int_of, boolean}

pub record Builtins : Type 0 where
  pub int_of_float : String → Result Value
  pub float_ : Value → Result Value
  pub str_ : Value → String
  pub list_ : Value → Result Value
  pub dict_ : Value → Result Value

-- the `type` entry of a schema, as the text that it is
abbrev pub text_of : Option Value → Option String
text_of (some (str s)) = some s
text_of v = none

-- `except (ValueError, TypeError): v`
abbrev pub or_keep : Value → Result Value → Result Value
or_keep v (ok w) = ok w
or_keep v (err (Exc.value_error m)) = ok v
or_keep v (err (Exc.type_error m)) = ok v
or_keep v (err e) = err e

module _ (py : Builtins) where
  -- `int(value)`
  unfoldable pub int_ : Value → Result Value
  unfolding parse_int
  int_ (bool true) = ok (int false 1)
  int_ (bool false) = ok (int false 0)
  int_ (int negative n) = ok (int negative n)
  int_ (float s) = py.int_of_float s
  int_ (str s) = parse_int s >>= λ i. ok (int_of i)
  int_ v = err (type_error "int() argument must be a string or a real number")

  -- `TYPE_MAP[type_]` of the module, and its call
  unfoldable pub cast_by_map : String → Value → Result Value
  unfolding int_ boolean
  cast_by_map type_ value =
      if type_ == "integer"
      then int_ value
      else if type_ == "number"
      then py.float_ value
      else if type_ == "string"
      then ok (str (py.str_ value))
      else if type_ == "boolean"
      then boolean value
      else if type_ == "array"
      then py.list_ value
      else if type_ == "object"
      then py.dict_ value
      else if type_ == "file"
      then ok value
      else err (key_error type_)

  unfoldable pub make_type : Value → String → Option String → Result Value
  unfolding cast_by_map
  make_type value type_ none = cast_by_map type_ value
  make_type value type_ (some format) =
      cast_by_map (if type_ == "string" && format == "binary" then "file" else type_) value

  -- The `make_type` inside `coerce_type`: a type that is not in its map is None, which is no function.
  unfoldable pub cast : Option String → Value → Result Value
  unfolding int_ boolean
  cast none value = err (type_error "'NoneType' object is not callable")
  cast (some type_) value =
      if type_ == "integer"
      then int_ value
      else if type_ == "number"
      then py.float_ value
      else if type_ == "boolean"
      then boolean value
      else if type_ == "object"
      then py.dict_ value
      else err (type_error "'NoneType' object is not callable")

  -- `schema["type"]`
  abbrev pub type_entry : Value → Result (Option String)
  type_entry schema = or_key_error "type" (lookup "type" schema) >>= λ t. ok (text_of (some t))

  -- `schema["items"]["type"]`
  abbrev items_type : Value → Result (Option String)
  items_type schema = do
    entry ← or_key_error "items" (lookup "items" schema)
    t ← or_key_error "type" (lookup "type" entry)
    ok (text_of (some t))

  abbrev pub cast_entry : Value → Value → Result Value
  cast_entry schema v = or_keep v (items_type schema >>= λ t. cast t v)

  -- the loop over the values of an array
  unfoldable pub cast_items : Value → List Value → Result (List Value)
  unfolding cast lookup
  cast_items schema [] = ok []
  cast_items schema (v ∷ vs) = do
    converted ← cast_entry schema v
    rest ← cast_items schema vs
    ok (converted ∷ rest)

  unfoldable mutual
    unfolding cast lookup

    pub cast_leaves : Value → Value → Result Value
    cast_leaves (obj fs) schema = cast_fields fs schema >>= λ gs. ok (obj gs)
    cast_leaves d schema = or_keep d (type_entry schema >>= λ t. cast t d)

    pub cast_fields : Fields → Value → Result Fields
    cast_fields end schema = ok end
    cast_fields (field k v fs) schema =
        or_key_error "properties" (lookup "properties" schema) >>= λ properties.
        (elim (lookup k properties) [ none ↦ ok v | some s ↦ cast_leaves v s ]) >>= λ w.
        cast_fields fs schema >>= λ gs. ok (field k w gs)

  abbrev pub to_array : List Value → Value
  to_array vs = arr (of_items vs)

  -- `for v in value`; a text gives its characters, and of a dict the keys are taken
  abbrev characters : String → List Value
  characters String.[] = []
  characters (String.◌∷◌ c s) = str (String.◌∷◌ c "") ∷ characters s

  abbrev field_names : Fields → List Value
  field_names end = []
  field_names (field k v fs) = str k ∷ field_names fs

  abbrev pub iterate : Value → Result (List Value)
  iterate (arr xs) = ok (items xs)
  iterate (str s) = ok (characters s)
  iterate (obj fs) = ok (field_names fs)
  iterate v = err (type_error "object is not iterable")

  abbrev pub split_header : String → Value → Result (List Value)
  split_header parameter_type value =
      if parameter_type == "header"
      then (elim value [ str s ↦ ok (map str (split b',' s)) | _ ↦ err (attribute_error "split") ])
      else iterate value

  abbrev own_name : Value → String
  own_name param = elim (text_of (lookup "name" param)) [ none ↦ "" | some name ↦ name ]

  abbrev pub named : Option String → Value → String
  named none param = own_name param
  named (some name) param = if name == "" then own_name param else name

  -- `except ValueError: raise TypeValidationError(...)`, `except TypeError: return value`
  abbrev pub scalar_result : Option String → String → String → Value → Result Value → Result Value
  scalar_result type_ parameter_type name value (ok v) = ok v
  scalar_result (some type_) parameter_type name value (err (Exc.value_error m)) =
      err (type_validation_error type_ parameter_type name)
  scalar_result none parameter_type name value (err (Exc.value_error m)) =
      err (type_validation_error "None" parameter_type name)
  scalar_result type_ parameter_type name value (err (Exc.type_error m)) = ok value
  scalar_result type_ parameter_type name value (err e) = err e

  abbrev pub coerce_object : Value → Value → Result Value
  coerce_object schema value =
      if or_false (lookup "properties" schema) then cast_leaves value schema else ok value

  abbrev pub coerce_array : Value → String → Value → Result Value
  coerce_array schema parameter_type value = do
    values ← split_header parameter_type value
    converted ← cast_items schema values
    ok (to_array converted)

  abbrev pub coerce_by : Value → Option String → String → String → Value → Result Value
  coerce_by schema none parameter_type name value =
      scalar_result none parameter_type name value (cast none value)
  coerce_by schema (some type_) parameter_type name value =
      if type_ == "array"
      then coerce_array schema parameter_type value
      else if type_ == "object"
      then coerce_object schema value
      else scalar_result (some type_) parameter_type name value (cast (some type_) value)

  unfoldable pub coerce_type : Value → Value → String → Option String → Result Value
  unfolding lookup is_nullable is_null cast cast_items cast_leaves split items of_items truthy
  coerce_type param value parameter_type parameter_name =
      let schema = or_self (lookup "schema" param) param in
      if is_nullable schema && is_null value
      then ok null
      else coerce_by schema (text_of (lookup "type" schema)) parameter_type
          (named parameter_name param) value

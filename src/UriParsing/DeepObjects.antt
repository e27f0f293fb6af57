-- ===== src/UriParsing/DeepObjects.antt =====
-- Deep objects of query parameters: `_make_deep_object` and `_preprocess_deep_objects` of the
-- `OpenAPIURIParser`.
pub mod Paths
pub mod Roots
use Prim.Native.String
use connexion.Prelude.{
  ℕ, String, Bool, true, false, ◌&&◌, Option, none, some, List, [], ◌∷◌, ◌==◌, if◌then◌else◌,
}
use connexion.Prelude.Text.{has_char, cut, push, is_char, strip_prefix}
use connexion.Prelude.Dict
use connexion.Prelude.Dict.{Dict, is_some}
use connexion.Value.{Value, null, str, arr, obj, nil, cons, end, field, items}
use connexion.Value.Access.{lookup}
use connexion.Errors.{type_error, Result, ok, err, ◌>>=◌}
use connexion.Utils.Merge.{deep_merge}
use connexion.UriParsing.Swagger2.{first_value}

-- `re.findall(r"\[([^\[\]]*)\]", k)`: the text since the last `[` that is not closed, if any
unfoldable pub brackets : Option String → String → List String
brackets current String.[] = []
brackets none (String.◌∷◌ c s) =
    let opened = brackets (some "") s in
    let outside = brackets none s in if is_char b'[' c then opened else outside
brackets (some cur) (String.◌∷◌ c s) =
    let opened = brackets (some "") s in
    let closed = cur ∷ brackets none s in
    let longer = brackets (some (push cur c)) s in
    if is_char b'[' c then opened else if is_char b']' c then closed else longer

unfoldable pub key_path_of : String → List String
unfolding brackets
key_path_of k = brackets none k

-- The dict that the loop over the path builds: each key holds the next, and the last the value.
unfoldable pub nested : String → List String → Value → Value
nested k [] v = obj (field k v end)
nested k (j ∷ ks) v = obj (field k (nested j ks v) end)

-- With no key in brackets it is the parameter's name itself that is written.
abbrev pub root_of : String → List String → Value → Value
unfolding nested
root_of k [] v = nested k [] v
root_of k (j ∷ ks) v = nested j ks v

-- the loop over the names of the schemas: the last that the name starts with
unfoldable pub known_root : String → Option String → List String → Option String
unfolding strip_prefix has_char
known_root k root_key [] = root_key
known_root k root_key (key ∷ keys) =
    known_root k (if is_some (strip_prefix key k) && has_char b'[' k then some key else root_key)
      keys

-- `k.split("[", 1)[0]`
abbrev pub until_bracket : String → Option (String × String) → String
until_bracket k none = k
until_bracket k (some (a, b)) = a

-- `if not root_key`: none where the name has no bracket
unfoldable pub root_key_of : String → List String → Option String
unfolding known_root cut
root_key_of k keys =
    let own = until_bracket k (cut b'[' k) in
    let by_bracket = if k == own then none else some own in
    elim (known_root k none keys) [
      | none ↦ by_bracket
      | some root_key ↦ if root_key == "" then by_bracket else some root_key
    ]

unfoldable is_deep : Option Value → Bool
unfolding lookup
is_deep none = false
is_deep (some defn) = elim (lookup "style" defn) [
  | none ↦ false
  | some v ↦ elim v [ str s ↦ s == "deepObject" | _ ↦ false ]
]

-- `_is_deep_object_style_param`
unfoldable pub is_deep_object_style_param : Dict Value → String → Bool
unfolding Dict.get is_deep
is_deep_object_style_param defns param_name = is_deep (Dict.get param_name defns)

module _ (param_defns param_schemas : Dict Value) where
  abbrev pub Parsed : Type 0
  Parsed = String × Value × Bool

  unfoldable pub by_root : String → Value → Option String → Result Parsed
  unfolding is_deep_object_style_param key_path_of root_of first_value
  by_root k v none = ok (k, v, false)
  by_root k v (some root_key) =
      if is_deep_object_style_param param_defns root_key
      then (first_value v >>= λ value.
          ok (root_key, arr (cons (root_of k (key_path_of k) value) nil), true))
      else ok (k, v, false)

  unfoldable pub make_deep_object : String → Value → Result Parsed
  unfolding Dict.get Dict.keys root_key_of by_root
  make_deep_object k v =
      if is_some (Dict.get k param_schemas)
      then ok (k, v, false)
      else by_root k v (root_key_of k (Dict.keys param_schemas))

  unfoldable pub make_all : Dict Value → Result (List Parsed)
  unfolding make_deep_object
  make_all [] = ok []
  make_all ((k, v) ∷ query_data) = do
    p ← make_deep_object k v
    rest ← make_all query_data
    ok (p ∷ rest)

  abbrev empty_object : Value
  empty_object = arr (cons (obj end) nil)

  -- `dict.fromkeys(root_keys, [{}])`, onto the dict so far
  unfoldable pub from_keys : Dict Value → List Parsed → Dict Value
  unfolding Dict.set
  from_keys d [] = d
  from_keys d ((k, v, deep) ∷ ps) = from_keys (Dict.set k empty_object d) ps

  -- `deep_merge(a, b)` of values
  unfoldable pub merge_values : Value → Value → Result Value
  unfolding deep_merge
  merge_values (obj a) (obj b) = ok (obj (deep_merge a b))
  merge_values a b = err (type_error "object is not a dict")

  abbrev or_null : Option Value → Value
  or_null none = null
  or_null (some v) = v

  -- `[deep_merge(v[0], ret[k][0])]`
  unfoldable pub merge_root : Value → Option Value → Result Value
  unfolding first_value merge_values
  merge_root v held = do
    new ← first_value v
    old ← first_value (or_null held)
    merged ← merge_values new old
    ok (arr (cons merged nil))

  unfoldable pub collect : Dict Value → List Parsed → Result (Dict Value)
  unfolding Dict.get Dict.set merge_root
  collect ret [] = ok ret
  collect ret ((k, v, true) ∷ ps) =
      merge_root v (Dict.get k ret) >>= λ w. collect (Dict.set k w ret) ps
  collect ret ((k, v, false) ∷ ps) = collect (Dict.set k v ret) ps

  unfoldable pub preprocess_deep_objects : Dict Value → Result (Dict Value)
  unfolding make_all from_keys collect
  preprocess_deep_objects query_data =
      make_all query_data >>= λ deep. collect (from_keys [] deep) deep

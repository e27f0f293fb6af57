-- ===== src/UriParsing/DeepObjects/Roots.antt =====
-- Which parameter a name with keys in brackets belongs to, and what `_make_deep_object` makes of it.
use connexion.Prelude.{
  String, ◌≡◌, refl, sym, ap, ◌∙◌, ◌≢◌, ◌⊎◌, inl, inr, true, false, ◌&&◌, Bool-cases, Option, none,
  some, List, [], ◌∷◌, All, ◌==◌, eq_iff, if◌then◌else◌, arith,
}
use text.Mathlib.TextLemmas.{nil-append, cons-append}
use connexion.Prelude.Text.{◌<>◌, has_char, cut, strip_prefix}
use connexion.Prelude.Text.Split.{cut-first}
use connexion.Prelude.Dict
use connexion.Prelude.Dict.{Dict, is_some}
use connexion.Value.{Value, Items, arr, nil, cons, items}
use connexion.Errors.{ok}
use connexion.Utils.Merge.{deep_get}
use connexion.UriParsing.Swagger2.{first_value}
use connexion.UriParsing.DeepObjects.{
  nested, root_of, known_root, until_bracket, root_key_of, is_deep_object_style_param, by_root,
  make_deep_object,
}
use connexion.UriParsing.DeepObjects.Paths.{
  open_bracket, close_bracket, bracketed, NoBracket, key_path_of-bracketed, deep_get-nested,
}

-- Of the names of the schemas only the root may begin the name.
abbrev pub OnlyRoot : (k root : String) → List String → Type 0
OnlyRoot k root = All (λ key. (strip_prefix key k ≡ none) ⊎ (key ≡ root))

abbrev Found : String → Option String → Type 0
Found root o = (o ≡ none) ⊎ (o ≡ some root)

known-step :
    (k root key : String) (o : Option String)
    → Found root o
    → (strip_prefix key k ≡ none) ⊎ (key ≡ root)
    → Found root (if is_some (strip_prefix key k) && has_char b'[' k then some key else o)
known-step k root key o found (inl no_prefix) = rw no_prefix found
known-step k root key o found (inr same) =
    elim (Bool-cases (is_some (strip_prefix key k) && has_char b'[' k)) [
      | inl starts ↦ rw starts (inr (ap some same))
      | inr otherwise ↦ rw otherwise found
    ]

known_root-Found :
    (k root : String) (keys : List String) (o : Option String)
    → Found root o
    → OnlyRoot k root keys
    → Found root (known_root k o keys)
unfolding known_root
known_root-Found k root [] o found h = found
known_root-Found k root (key ∷ keys) o found (here, h) =
    known_root-Found k root keys
      (if is_some (strip_prefix key k) && has_char b'[' k then some key else o)
      (known-step k root key o found here) h

has_char-in : (root rest : String) → has_char b'[' (root <> String.◌∷◌ open_bracket rest) ≡ true
unfolding has_char
has_char-in String.[] rest = ap (has_char b'[') (nil-append (String.◌∷◌ open_bracket rest)) ∙ refl
has_char-in (String.◌∷◌ c root) rest =
    ap (has_char b'[') (cons-append c root (String.◌∷◌ open_bracket rest))
    ∙ ground (arith, has_char-in root rest)

name-not-root :
    (root rest : String)
    → has_char b'[' root ≡ false
    → ((root <> String.◌∷◌ open_bracket rest) == root) ≡ false
name-not-root root rest h = elim (Bool-cases ((root <> String.◌∷◌ open_bracket rest) == root)) [
  | inl same ↦
      absurd
        (clash (sym h ∙ ap (has_char b'[') (sym ((eq_iff _ root).0 same)) ∙ has_char-in root rest))
  | inr other ↦ other
]
  where
    clash : false ≡ true → ⊥
    clash e = cc

ne-test : (root : String) → root ≢ "" → (root == "") ≡ false
ne-test root h = ground (arith, eq_iff root "")

-- a root and keys in brackets
abbrev pub deep_name : (root key : String) → List String → String
deep_name root key keys = root <> bracketed (key ∷ keys)

module _ (root key : String) (keys : List String) (no_open : has_char b'[' root ≡ false) where
  own_root : until_bracket (deep_name root key keys) (cut b'[' (deep_name root key keys)) ≡ root
  own_root =
      ap (until_bracket (root <> bracketed (key ∷ keys)))
        (cut-first open_bracket root (key <> String.◌∷◌ close_bracket (bracketed keys)) no_open)

  root_key_of-root :
      (schema_keys : List String)
      → root ≢ ""
      → OnlyRoot (deep_name root key keys) root schema_keys
      → root_key_of (deep_name root key keys) schema_keys ≡ some root
  unfolding root_key_of
  root_key_of-root schema_keys not_empty only =
      elim (known_root-Found (deep_name root key keys) root schema_keys none (inl refl) only) [
        | inl e ↦
            rw
              (
                root_key_of,
                e,
                own_root,
                name-not-root root (key <> String.◌∷◌ close_bracket (bracketed keys)) no_open,
              )
              refl
        | inr e ↦ rw (root_key_of, e, ne-test root not_empty) refl
      ]

  module _ (param_defns param_schemas : Dict Value) (v : Value) (values : Items) where
    by_root-deep :
        All NoBracket (key ∷ keys)
        → is_deep_object_style_param param_defns root ≡ true
        → by_root param_defns param_schemas
            (deep_name root key keys)
            (arr (cons v values))
            (some root)
          ≡ ok (root, arr (cons (nested key keys v) nil), true)
    unfolding by_root first_value items
    by_root-deep no_bracket deep =
        rw (by_root, deep)
          (ap
            (λ ks. ok (root, arr (cons (root_of (root <> bracketed (key ∷ keys)) ks v) nil), true))
            (key_path_of-bracketed root (key ∷ keys) no_open no_bracket))

    -- A query parameter named by a root and keys in brackets, such as `a[foo][bar]`, gives the root and
    -- a dict that has the parameter's first value at the end of these keys. The root is a parameter of
    -- the style deepObject and is not empty, no parameter has the whole name, and no other parameter's
    -- name begins it. Neither the root has a `[` nor the keys a bracket.
    pub make_deep_object-Path :
        root ≢ ""
        → All NoBracket (key ∷ keys)
        → is_deep_object_style_param param_defns root ≡ true
        → Dict.get (deep_name root key keys) param_schemas ≡ none
        → OnlyRoot (deep_name root key keys) root (Dict.keys param_schemas)
        → (tree : Value) × (make_deep_object param_defns param_schemas
              (deep_name root key keys)
              (arr (cons v values))
            ≡ ok (root, arr (cons tree nil), true))
          × (deep_get tree (key ∷ keys) ≡ ok v)
    unfolding make_deep_object
    make_deep_object-Path not_empty no_bracket deep unknown only = (
      nested key keys v,
      rw (make_deep_object, unknown, root_key_of-root (Dict.keys param_schemas) not_empty only)
          (by_root-deep no_bracket deep),
      deep_get-nested key keys v,
    )

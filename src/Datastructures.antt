-- ===== src/Datastructures.antt =====
-- connexion/datastructures.py: the `MediaTypeDict`. Of the patterns of Python's `fnmatch`, on a
-- system where it minds the case, `*` and `?` are modelled; sets in brackets do not occur in media
-- ranges.
pub mod Match
pub mod Order
pub mod Laws
use Prim.Native.Nat.{Ordering}
use Prim.Native.Char.{Char, code}
use Prim.Native.String
use Prim.Native.String.{compare}
use connexion.Prelude.{
  ℕ, String, Bool, true, false, not, ◌&&◌, ◌||◌, Option, none, some, List, [], ◌∷◌, ◌==◌,
  if◌then◌else◌, eqb,
}
use connexion.Prelude.Text.{has_char, is_char}
use connexion.Prelude.Dict
use connexion.Prelude.Dict.{Dict}
use connexion.Errors.{Exc, key_error, type_error, Result, ok, err}

-- a suffix of the text satisfies `f`
unfoldable pub any_suffix : (String → Bool) → String → Bool
any_suffix f String.[] = f String.[]
any_suffix f (String.◌∷◌ d s) = f (String.◌∷◌ d s) || any_suffix f s

-- one character, `any` one or `c`, and then `f`
abbrev pub one_char : Bool → Char → (String → Bool) → String → Bool
one_char any c f String.[] = false
one_char any c f (String.◌∷◌ d s) = (any || eqb (code c) (code d)) && f s

-- `fnmatch(item, pattern)`
unfoldable pub matches : (pattern item : String) → Bool
unfolding any_suffix
matches String.[] item = item == ""
matches (String.◌∷◌ c pattern) item =
    if is_char b'*' c
    then any_suffix (matches pattern) item
    else one_char (is_char b'?' c) c (matches pattern) item

-- `"*" not in k`
unfoldable pub is_specific : String → Bool
unfolding has_char
is_specific k = not (has_char b'*' k)

abbrev pub not_less : Ordering → Bool
not_less Ordering.lt = false
not_less o = true

-- `a` stands before `b` in the order of `("*" not in k, k)` reversed.
unfoldable pub before : String → String → Bool
unfolding is_specific
before a b = elim (is_specific a) [
  | true ↦ elim (is_specific b) [ true ↦ not_less (compare a b) | false ↦ true ]
  | false ↦ elim (is_specific b) [ true ↦ false | false ↦ not_less (compare a b) ]
]

unfoldable pub insert : String → List String → List String
unfolding before
insert k [] = k ∷ []
insert k (j ∷ ks) = let rest = insert k ks in if before k j then k ∷ j ∷ ks else j ∷ rest

unfoldable pub sorted : List String → List String
unfolding insert
sorted [] = []
sorted (k ∷ ks) = insert k (sorted ks)

-- the first key that the item matches
unfoldable pub first_match : String → List String → Option String
unfolding matches
first_match item [] = none
first_match item (k ∷ ks) = if matches k item then some k else first_match item ks

module _ {ℓ} {V : Type ℓ} where
  abbrev pub or_missing : String → Option V → Result V
  or_missing k none = err (key_error k)
  or_missing k (some v) = ok v

  -- The last line raises what the dict holds under the item, which is no exception.
  abbrev pub raise_item : String → Option V → Result V
  raise_item item none = err (key_error item)
  raise_item item (some v) = err (type_error "exceptions must derive from BaseException")

  -- `MediaTypeDict.__getitem__`
  unfoldable pub get_item : Dict V → String → Result V
  unfolding Dict.get Dict.keys sorted first_match
  get_item d item = elim (first_match item (sorted (Dict.keys d))) [
    | none ↦ raise_item item (Dict.get item d)
    | some k ↦ or_missing k (Dict.get k d)
  ]

  -- `except KeyError: return default`
  abbrev pub or_default : Result V → V → Result V
  or_default (err (Exc.key_error k)) default = ok default
  or_default r default = r

  -- `MediaTypeDict.get`
  unfoldable pub get : Dict V → String → V → Result V
  unfolding get_item
  get d item default = or_default (get_item d item) default

  abbrev pub is_found : Result V → Result Bool
  is_found (ok v) = ok true
  is_found (err (Exc.key_error k)) = ok false
  is_found (err e) = err e

  -- `MediaTypeDict.__contains__`
  unfoldable pub contains : Dict V → String → Result Bool
  unfolding get_item
  contains d item = is_found (get_item d item)

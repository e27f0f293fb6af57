-- ===== src/JsonSchema/References.antt =====
-- `resolve_refs` of connexion/json_schema.py. It changes the dicts and lists of its copy of the
-- specification in place, and `dict.update` makes two dicts share what they hold: so they are objects
-- in a store. What the `RefResolver` of jsonschema finds elsewhere is a parameter.
pub mod Plain
mod Tests
use Prim.Native.Nat.{zero}
use Prim.Native.String
use connexion.Prelude.{
  ℕ, suc, String, Bool, true, false, Option, none, some, List, [], ◌∷◌, if◌then◌else◌, length,
}
use connexion.Prelude.Text.{split}
use connexion.Prelude.Dict
use connexion.Prelude.Dict.{Dict, is_some}
use connexion.Value.{Value, str}
use connexion.Errors.{
  Exc, Done, done, key_error, type_error, value_error, attribute_error, Result, ok, err, ◌>>=◌,
  or_key_error,
}
use connexion.Utils.Cast.{parse_int}
use connexion.Utils.Merge.{at_index, or_index_error}

-- A value that is no dict and no list, or the address of an object.
pub data Handle : Type 0 where
  leaf : Value → Handle
  at : ℕ → Handle

pub data Object : Type 0 where
  mapping : Dict Handle → Object
  sequence : List Handle → Object

abbrev pub Store : Type 0
Store = List Object

unfoldable pub load : ℕ → Store → Option Object
load n [] = none
load zero (o ∷ store) = some o
load (suc n) (o ∷ store) = load n store

unfoldable pub save : ℕ → Object → Store → Store
save n o [] = []
save zero o (p ∷ store) = o ∷ store
save (suc n) o (p ∷ store) = p ∷ save n o store

-- A run returns or raises, with the store that it leaves; without fuel it is none.
abbrev pub Run : Type 0 → Type 0
Run A = Store → Option (Result A × Store)

abbrev continue :
    {A B : Type 0} → Option (Result A × Store) → (A → Run B) → Option (Result B × Store)
continue none next = none
continue (some (err exc, store)) next = some (err exc, store)
continue (some (ok a, store)) next = next a store

infixl 5 ◌>>>◌
abbrev ◌>>>◌ : {A B : Type 0} → Run A → (A → Run B) → Run B
(run >>> next) store = continue (run store) next

abbrev return : {A : Type 0} → A → Run A
return a store = some (ok a, store)

abbrev lift : {A : Type 0} → Result A → Run A
lift r store = some (r, store)

abbrev handled : {A : Type 0} → Option (Result A × Store) → Run A → Option (Result A × Store)
handled (some (err (key_error k), store)) other = other store
handled result other = result

-- `try: run; except KeyError: other`
abbrev except_key_error : {A : Type 0} → Run A → Run A → Run A
except_key_error run other store = handled (run store) other

abbrev no_item : Result Handle
no_item = err (type_error "the object has no item of that name")

abbrev item_of : Option Object → String → Result Handle
item_of none key = no_item
item_of (some (mapping d)) key = or_key_error key (Dict.get key d)
item_of (some (sequence hs)) key = parse_int key >>= λ i. or_index_error (at_index hs i)

-- `obj[keys[0]]` of `deep_get`
unfoldable pub get_child : Store → Handle → String → Result Handle
unfolding load Dict.get parse_int
get_child store (leaf v) key = no_item
get_child store (at n) key = item_of (load n store) key

-- `deep_get` of objects in the store
unfoldable pub deep_get_handle : Store → Handle → List String → Result Handle
unfolding get_child
deep_get_handle store obj [] = ok obj
deep_get_handle store obj (key ∷ keys) =
    get_child store obj key >>= λ child. deep_get_handle store child keys

abbrev entries_of : Option Object → Dict Handle
entries_of (some (mapping d)) = d
entries_of o = []

-- `node.get("$ref")` of the object at an address
abbrev ref_of : ℕ → Store → Option Handle
unfolding load Dict.get
ref_of n store = Dict.get "$ref" (entries_of (load n store))

-- `node.update(retrieved)`, of lists of pairs only the empty one
unfoldable updated : Dict Handle → Handle → Option Object → Result (Dict Handle)
unfolding Dict.update Dict.set
updated d h (some (mapping e)) = ok (Dict.update d e)
updated d h (some (sequence [])) = ok d
updated d h (some (sequence (x ∷ xs))) = err (value_error "dictionary update sequence element")
updated d (leaf (str String.[])) none = ok d
updated d (leaf (str s)) none = err (value_error "dictionary update sequence element")
updated d h none = err (type_error "the object is not iterable")

abbrev object_of : Handle → Store → Option Object
unfolding load
object_of (leaf v) store = none
object_of (at n) store = load n store

unfoldable pub update_node : ℕ → Handle → Run Done
unfolding load save updated
update_node n retrieved store =
    continue
      (lift (updated (entries_of (load n store)) retrieved (object_of retrieved store)) store)
      (λ d store. return done (save n (mapping d) store))

-- `node.pop("$ref", None)`
unfoldable pub pop_ref : Handle → Run Done
unfolding load save Dict.remove
pop_ref (leaf v) store = lift (err (attribute_error "the object has no attribute 'pop'")) store
pop_ref (at n) store = pop_of (load n store)
  where
    pop_of : Option Object → Option (Result Done × Store)
    pop_of (some (mapping d)) = return done (save n (mapping (Dict.remove "$ref" d)) store)
    pop_of o = lift (err (type_error "pop expected at most 1 argument")) store

abbrev set_of : Option Object → String → Handle → Option Object
unfolding Dict.set
set_of (some (mapping d)) key h = some (mapping (Dict.set key h d))
set_of o key h = o

abbrev saved : ℕ → Option Object → Store → Store
unfolding save
saved n none store = store
saved n (some o) store = save n o store

-- `node[k] = h`
unfoldable pub set_key : ℕ → String → Handle → Run Done
unfolding load save Dict.set
set_key n key h store = return done (saved n (set_of (load n store) key h) store)

unfoldable pub set_at : ℕ → Handle → List Handle → List Handle
set_at i h [] = []
set_at zero h (x ∷ xs) = h ∷ xs
set_at (suc i) h (x ∷ xs) = x ∷ set_at i h xs

abbrev set_index_of : Option Object → ℕ → Handle → Option Object
unfolding set_at
set_index_of (some (sequence hs)) i h = some (sequence (set_at i h hs))
set_index_of o i h = o

-- `node[i] = h`
unfoldable pub set_index : ℕ → ℕ → Handle → Run Done
unfolding load save set_at
set_index n i h store = return done (saved n (set_index_of (load n store) i h) store)

-- `s[2:]`
unfoldable pub behind_two : String → String
behind_two String.[] = ""
behind_two (String.◌∷◌ c String.[]) = ""
behind_two (String.◌∷◌ c (String.◌∷◌ d s)) = s

module _ (root : Handle) (resolving : Handle → Run Handle) where
  module _ (resolve : Handle → Run Handle) where
    -- `for k, v in node.items()`, over the rest of the keys
    unfoldable pub resolve_keys : ℕ → List String → Run Done
    unfolding load Dict.get set_key
    resolve_keys n [] = return done
    resolve_keys n (key ∷ keys) =
        (λ store. lift (or_key_error key (Dict.get key (entries_of (load n store)))) store)
        >>> resolve
        >>> set_key n key
        >>> λ d. resolve_keys n keys

    abbrev element : ℕ → Option Object → Result Handle
    element i (some (sequence hs)) = or_index_error (at_index hs (false, i))
    element i o = no_item

    -- the loop over a list, of the rest of its elements
    unfoldable pub resolve_elements : ℕ → (i : ℕ) → List Handle → Run Done
    unfolding load set_index
    resolve_elements n i [] = return done
    resolve_elements n i (h ∷ hs) =
        (λ store. lift (element i (load n store)) store) >>> resolve >>> set_index n i >>> λ d.
        resolve_elements n (suc i) hs

    -- the node, which is resolved again where what was found is a reference itself
    unfoldable pub follow : ℕ → Handle → Run Handle
    unfolding load Dict.get
    follow n retrieved store =
        if is_some (Dict.get "$ref" (entries_of (object_of retrieved store)))
        then resolve (at n) store
        else return (at n) store

    unfoldable pub resolve_known : ℕ → String → Run Handle
    unfolding deep_get_handle split behind_two update_node follow pop_ref
    resolve_known n ref =
        (λ store. lift (deep_get_handle store root (split b'/' (behind_two ref))) store)
        >>> λ retrieved. update_node n retrieved >>> λ d.
            follow n retrieved >>> λ node. pop_ref node >>> λ d. return node

    unfoldable pub resolve_external : ℕ → Run Handle
    unfolding load Dict.get
    resolve_external n store =
        continue (lift (or_key_error "$ref" (ref_of n store)) store) resolving

    unfoldable pub resolve_reference : ℕ → Handle → Run Handle
    unfolding resolve_known resolve_external
    resolve_reference n (leaf (str ref)) =
        except_key_error (resolve_known n ref) (resolve_external n)
    resolve_reference n ref = lift (err (type_error "the object cannot be sliced"))

    unfoldable resolve_mapping : ℕ → Dict Handle → Option Handle → Run Handle
    unfolding Dict.keys resolve_keys resolve_reference
    resolve_mapping n d none = resolve_keys n (Dict.keys d) >>> λ e. return (at n)
    resolve_mapping n d (some ref) = resolve_reference n ref

    unfoldable pub resolve_object : ℕ → Option Object → Run Handle
    unfolding Dict.get resolve_mapping resolve_elements
    resolve_object n none = return (at n)
    resolve_object n (some (mapping d)) = resolve_mapping n d (Dict.get "$ref" d)
    resolve_object n (some (sequence hs)) = resolve_elements n 0 hs >>> λ d. return (at n)

  -- `_do_resolve`, down to a depth of calls
  unfoldable pub do_resolve : (depth : ℕ) → Handle → Run Handle
  unfolding load resolve_object
  do_resolve zero node store = none
  do_resolve (suc depth) (leaf v) store = return (leaf v) store
  do_resolve (suc depth) (at n) store = resolve_object (do_resolve depth) n (load n store) store

  -- `resolve_refs`, of a specification that is copied into the store
  unfoldable pub resolve_refs : (depth : ℕ) → Run Handle
  unfolding do_resolve
  resolve_refs depth = do_resolve depth root

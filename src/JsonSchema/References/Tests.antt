-- ===== src/JsonSchema/References/Tests.antt =====
-- Concrete stores, with the specification at the address 0.
use Prim.Native.Nat.{zero}
use connexion.Prelude.{ℕ, suc, String, ◌≡◌, refl, Option, none, some, [], ◌∷◌}
use connexion.Value.{str}
use connexion.Errors.{Result, ok, err, other, value_error}
use connexion.JsonSchema.References.Plain.{IsPlain, resolve_refs-plain}
use connexion.JsonSchema.References.{
  Handle, leaf, at, Object, mapping, sequence, Store, Run, resolve_refs, do_resolve,
}

abbrev text : String → Handle
text s = leaf (str s)

-- A reference that is not known is to an object that is put at the end of the store.
abbrev elsewhere : Handle → Run Handle
elsewhere ref store = some (err (other "unresolvable"), store)

abbrev pet : Object
pet = mapping (("type", text "object") ∷ [])

-- {"a": {"$ref": "#/defs/Pet"}, "defs": {"Pet": {"type": "object"}}}
resolve_refs-known :
    resolve_refs (at 0) elsewhere 4 (
      mapping (("a", at 1) ∷ ("defs", at 2) ∷ [])
      ∷ mapping (("$ref", text "#/defs/Pet") ∷ [])
      ∷ mapping (("Pet", at 3) ∷ [])
      ∷ pet
      ∷ [])
    ≡ some (
      ok (at 0),
      mapping (("a", at 1) ∷ ("defs", at 2) ∷ []) ∷ pet ∷ mapping (("Pet", at 3) ∷ []) ∷ pet ∷ [],
    )
unfolding resolve_refs
resolve_refs-known = refl

-- What is found elsewhere is the object at 9.
abbrev found : Handle → Run Handle
found ref store = some (ok (at 9), store)

-- {"a": {"$ref": "#/X"}, "X": {"p": {"$ref": "other.json"}}}: the node `a` keeps the dict of `p`
-- with its reference, while `X` gets what is found.
resolve_refs-stale :
    resolve_refs (at 0) found 3 (
      mapping (("a", at 1) ∷ ("X", at 2) ∷ [])
      ∷ mapping (("$ref", text "#/X") ∷ [])
      ∷ mapping (("p", at 3) ∷ [])
      ∷ mapping (("$ref", text "other.json") ∷ [])
      ∷ [])
    ≡ some (
      ok (at 0),
      mapping (("a", at 1) ∷ ("X", at 2) ∷ [])
          ∷ mapping (("p", at 3) ∷ [])
          ∷ mapping (("p", at 9) ∷ [])
          ∷ mapping (("$ref", text "other.json") ∷ [])
          ∷ [],
    )
unfolding resolve_refs
resolve_refs-stale = refl

-- A dict in a list, and a reference that is not found.
resolve_refs-sequence :
    resolve_refs
      (at 0)
      elsewhere
      3
      (sequence (text "x" ∷ at 1 ∷ []) ∷ mapping (("$ref", text "#/X") ∷ []) ∷ [])
    ≡ some (
      err (value_error "invalid literal"),
      sequence (text "x" ∷ at 1 ∷ []) ∷ mapping (("$ref", text "#/X") ∷ []) ∷ [],
    )
unfolding resolve_refs
resolve_refs-sequence = refl

abbrev loop : Store
loop = mapping (("a", at 1) ∷ []) ∷ mapping (("$ref", text "#/a") ∷ []) ∷ []

abbrev handle_none : Option (Result Handle × Store)
handle_none = none

do_resolve-loop : (depth : ℕ) → do_resolve (at 0) elsewhere depth (at 1) loop ≡ handle_none
unfolding do_resolve
do_resolve-loop zero = refl
do_resolve-loop (suc depth) = simp (do_resolve-loop depth)

-- {"a": {"$ref": "#/a"}}: a reference to itself is followed for ever.
resolve_refs-loop : (depth : ℕ) → resolve_refs (at 0) elsewhere depth loop ≡ handle_none
unfolding resolve_refs
resolve_refs-loop zero = refl
resolve_refs-loop (suc depth) = simp (do_resolve-loop depth)

-- {"tags": ["x", {"type": "object"}]}
abbrev tagged : Store
tagged = mapping (("tags", at 1) ∷ []) ∷ sequence (text "x" ∷ at 2 ∷ []) ∷ pet ∷ []

resolve_refs-plain_example : resolve_refs (at 0) elsewhere 4 tagged ≡ some (ok (at 0), tagged)
unfolding IsPlain
resolve_refs-plain_example = resolve_refs-plain (at 0) elsewhere 4 tagged-plain
  where
    elements : IsPlain tagged 3 (at 1)
    elements =
        (sequence (text "x" ∷ at 2 ∷ []), refl, (tt, ((pet, refl, (refl, ((refl, tt), tt))), tt)))

    tagged-plain : IsPlain tagged 4 (at 0)
    tagged-plain = (mapping (("tags", at 1) ∷ []), refl, (refl, ((refl, elements), tt)))

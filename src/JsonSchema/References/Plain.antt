-- ===== src/JsonSchema/References/Plain.antt =====
-- What `resolve_refs` makes of a specification without references.
use Prim.Native.Nat.{zero}
use native.Mathlib.Omega.{arith}
use connexion.Prelude.{
  ℕ, suc, String, ◌≡◌, refl, false, none, some, List, [], ◌∷◌, ◌++◌, All, length, length-append,
  append_assoc,
}
use connexion.Prelude.Dict
use connexion.Prelude.Dict.{Dict}
use connexion.Errors.{done, ok}
use connexion.Utils.Merge.{at_index}
use connexion.JsonSchema.References.{
  Handle, leaf, at, Object, mapping, sequence, Store, Run, load, save, set_at, resolve_keys,
  resolve_elements, resolve_object, do_resolve, resolve_refs,
}

-- An object without a reference, whose parts have P; the keys of a dict are distinct.
abbrev IsPlainEntry : (Handle → Type 0) → Dict Handle → String × Handle → Type 0
unfolding Dict.get
IsPlainEntry P m (k, h) = (Dict.get k m ≡ some h) × P h

unfoldable IsPlainObject : (Handle → Type 0) → Object → Type 0
unfolding Dict.get
IsPlainObject P (mapping m) = (Dict.get "$ref" m ≡ none) × All (IsPlainEntry P m) m
IsPlainObject P (sequence hs) = All P hs

-- Less deep than the number of calls, and without a reference.
unfoldable pub IsPlain : Store → (depth : ℕ) → Handle → Type 0
unfolding load IsPlainObject
IsPlain store zero h = ⊥
IsPlain store (suc depth) (leaf v) = Unit
IsPlain store (suc depth) (at n) =
    (o : Object) × (load n store ≡ some o) × IsPlainObject (IsPlain store depth) o

save-load : (n : ℕ) (o : Object) (store : Store) → load n store ≡ some o → save n o store ≡ store
unfolding load save
save-load n o [] e = refl
save-load zero o (p ∷ store) e = cc
save-load (suc n) o (p ∷ store) e = λ i. p ∷ save-load n o store e i

module _ {A : Type 0} where
  set-get : (k : String) (v : A) (d : Dict A) → Dict.get k d ≡ some v → Dict.set k v d ≡ d
  unfolding Dict.get Dict.set
  set-get k v [] e = cc
  set-get k v ((j, w) ∷ d) e = ground (arith, set-get k v d)

  at_index-append :
      (before : List A) (x : A) (after : List A)
      → at_index (before ++ x ∷ after) (false, length before) ≡ some x
  at_index-append [] x after = refl
  at_index-append (y ∷ before) x after = at_index-append before x after

set_at-append :
    (before : List Handle) (x : Handle) (after : List Handle)
    → set_at (length before) x (before ++ x ∷ after) ≡ before ++ x ∷ after
unfolding set_at
set_at-append [] x after = refl
set_at-append (y ∷ before) x after = λ i. y ∷ set_at-append before x after i

module _ (root : Handle) (resolving resolve : Handle → Run Handle) {P : Handle → Type 0} (n : ℕ)
    {store : Store}
    (resolve-plain : (h : Handle) → P h → resolve h store ≡ some (ok h, store)) where
  resolve_keys-plain :
      (m d : Dict Handle)
      → load n store ≡ some (mapping m)
      → All (IsPlainEntry P m) d
      → resolve_keys root resolving resolve n (Dict.keys d) store ≡ some (ok done, store)
  unfolding resolve_keys Dict.keys
  resolve_keys-plain m [] e p = refl
  resolve_keys-plain m ((k, h) ∷ d) e ((g, p), ps) = simp (
    e,
    g,
    resolve-plain h p,
    set-get k h m g,
    save-load n (mapping m) store e,
    resolve_keys-plain m d e ps,
  )

  resolve_elements-plain :
      (before after : List Handle) (i : ℕ)
      → i ≡ length before
      → load n store ≡ some (sequence (before ++ after))
      → All P after
      → resolve_elements root resolving resolve n i after store ≡ some (ok done, store)
  unfolding resolve_elements
  resolve_elements-plain before [] i l e p = refl
  resolve_elements-plain before (h ∷ after) i l e (p, ps) = simp (
    e,
    l,
    at_index-append before h after,
    resolve-plain h p,
    set_at-append before h after,
    save-load n (sequence (before ++ h ∷ after)) store e,
    resolve_elements-plain (before ++ h ∷ []) after (suc (length before))
        (omega (arith, length-append before (h ∷ []))) (simp (append_assoc, e)) ps,
  )

  resolve_object-plain :
      (o : Object)
      → load n store ≡ some o
      → IsPlainObject P o
      → resolve_object root resolving resolve n (some o) store ≡ some (ok (at n), store)
  unfolding resolve_object IsPlainObject
  resolve_object-plain (mapping m) e (g, ps) = simp (g, resolve_keys-plain m m e ps)
  resolve_object-plain (sequence hs) e ps = simp (resolve_elements-plain [] hs 0 refl e ps)

module _ (root : Handle) (resolving : Handle → Run Handle) {store : Store} where
  do_resolve-plain :
      (depth : ℕ) (h : Handle)
      → IsPlain store depth h
      → do_resolve root resolving depth h store ≡ some (ok h, store)
  unfolding do_resolve IsPlain
  do_resolve-plain zero h p = elim p [ ]
  do_resolve-plain (suc depth) (leaf v) p = refl
  do_resolve-plain (suc depth) (at n) (o, e, p) = simp (
    e,
    resolve_object-plain root resolving (do_resolve root resolving depth) n (do_resolve-plain depth)
        o e p,
  )

  -- A specification without references, less deep than the number of calls, is resolved to itself
  -- and no object of the store is changed.
  pub resolve_refs-plain :
      (depth : ℕ)
      → IsPlain store depth root
      → resolve_refs root resolving depth store ≡ some (ok root, store)
  unfolding resolve_refs
  resolve_refs-plain depth p = do_resolve-plain depth root p

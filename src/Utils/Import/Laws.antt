-- ===== src/Utils/Import/Laws.antt =====
-- The import loop ends, and finds a function under its name.
use Prim.Native.Nat
use connexion.Prelude.{
  ℕ, suc, ◌+◌, ◌<◌, ◌≡◌, refl, sym, ap, ◌∙◌, ◌⊎◌, inl, inr, String, Option, none, some, arith,
}
use text.Mathlib.TextLemmas.{append_assoc, nil-append, cons-append}
use connexion.Prelude.Text.{◌<>◌, rcut}
use connexion.Prelude.Text.Laws.{rcut-eq}
use connexion.Errors.{Exc, Result, ok, err}
use connexion.Utils.Import.{
  count, dot, dotted, Loaded, turn, deep_getattr, import_loop, or_import_error, attribute_of,
  finish, module_and_path, get_function_from_name,
}

count-append : (sep : ℕ) (a b : String) → count sep (a <> b) ≡ count sep a + count sep b
unfolding count
count-append sep String.[] b = ap (count sep) (nil-append b) ∙ omega arith
count-append sep (String.◌∷◌ c a) b =
    ap (count sep) (cons-append c a b) ∙ ground (arith, count-append sep a b)

count-dotted : (a b : String) → count b'.' (dotted a b) ≡ suc (count b'.' a + count b'.' b)
unfolding count
count-dotted a b = count-append b'.' a (String.◌∷◌ dot b) ∙ omega arith

module _ {Obj : Type 0} (import_module : String → Result Obj)
    (getattr : Obj → String → Result Obj) where
  -- The name is the module's, a dot and the path; or it is all path, with no module.
  abbrev pub Splits : (name module_name attr_path : String) → Type 0
  Splits name module_name attr_path =
      (name ≡ dotted module_name attr_path) ⊎ ((module_name ≡ "") × (name ≡ attr_path))

  -- The import of a first part of the name raises the exception.
  abbrev pub Raised : String → Exc → Type 0
  Raised name e =
      (module_name : String) × (attr_path : String) × Splits name module_name attr_path
      × (import_module module_name ≡ err e)

  abbrev RaisedLast : String → Option Exc → Type 0
  RaisedLast name none = Unit
  RaisedLast name (some e) = Raised name e

  abbrev Found : String → Result (Obj × String × Option Exc) → Type 0
  Found name (err e) = Raised name e
  Found name (ok (obj, attr_path, last)) =
      ((module_name : String) × Splits name module_name attr_path
        × (import_module module_name ≡ ok obj))
      × RaisedLast name last

  abbrev Ends : ℕ → (name module_name attr_path : String) → Option Exc → Type 0
  Ends fuel name m p last =
      (r : Result (Obj × String × Option Exc)) × (import_loop import_module getattr fuel m p last
        ≡ some r)
      × Found name r

  none-some : {A : Type 0} {a : A} → none ≡ some a → ⊥
  none-some e = ground arith

  rcut-Splits :
      (name m p a b : String)
      → rcut b'.' m ≡ some (a, b)
      → Splits name m p
      → Splits name a (dotted b p)
  unfolding rcut
  rcut-Splits name m p a b cut_m (inl e) = inl (
      e
      ∙ ap (λ t. dotted t p) (rcut-eq dot m a b cut_m)
      ∙ append_assoc a (String.◌∷◌ dot b) (String.◌∷◌ dot p)
      ∙ ap (λ t. a <> t) (cons-append dot b (String.◌∷◌ dot p)))
  rcut-Splits name m p a b cut_m (inr (no_module, e)) =
      absurd (none-some (sym (ap (rcut b'.') no_module) ∙ cut_m))

  rcut-less :
      (m a b : String) (fuel : ℕ)
      → rcut b'.' m ≡ some (a, b)
      → count b'.' m < suc fuel
      → count b'.' a < fuel
  rcut-less m a b fuel cut_m less =
      omega (arith, ap (count b'.') (rcut-eq dot m a b cut_m), count-dotted a b)

  turn-Found :
      (r : Result Obj) (parts : Option (String × String)) (name m p : String) (last : Option Exc)
      (continue : String → String → Option Exc → Option (Loaded import_module getattr))
      → Splits name m p
      → RaisedLast name last
      → import_module m ≡ r
      → rcut b'.' m ≡ parts
      → ((a b : String) (l : Option Exc)
          → rcut b'.' m ≡ some (a, b)
          → RaisedLast name l
          → (r : Result (Obj × String × Option Exc)) × (continue a (dotted b p) l ≡ some r)
            × Found name r)
      → (q : Result (Obj × String × Option Exc)) × (turn import_module getattr r parts p last
            continue
          ≡ some q)
        × Found name q
  turn-Found (ok obj) parts name m p last continue s raised imported cut_m go =
      (ok (obj, p, last), refl, ((m, s, imported), raised))
  turn-Found (err (Exc.import_error x)) none name m p last continue s raised imported cut_m go =
      (err (Exc.import_error x), refl, (m, p, s, imported))
  turn-Found (err (Exc.import_error x)) (some (a, b)) name m p last continue s raised imported cut_m
        go =
      go a b (some (Exc.import_error x)) cut_m (m, p, s, imported)
  turn-Found (err e) parts name m p last continue s raised imported cut_m go =
      (err e, refl, (m, p, s, imported))

  import_loop-Found :
      (fuel : ℕ) (name m p : String) (last : Option Exc)
      → count b'.' m < fuel
      → Splits name m p
      → RaisedLast name last
      → Ends fuel name m p last
  unfolding import_loop
  import_loop-Found Nat.ℕ.zero name m p last less s raised = absurd (omega (arith, less))
  import_loop-Found (Nat.ℕ.suc fuel) name m p last less s raised =
      turn-Found (import_module m) (rcut b'.' m) name m p last
        (import_loop import_module getattr fuel) s raised refl refl
        (λ a b l cut_m h.
          import_loop-Found fuel name a (dotted b p) l (rcut-less m a b fuel cut_m less)
            (rcut-Splits name m p a b cut_m s) h)

  -- the module that a first part of the name imports, with the path that is left
  abbrev pub Leads : String → Result Obj → Type 0
  Leads name r =
      (module_name : String) × (attr_path : String) × (obj : Obj) × Splits name module_name
        attr_path
      × (import_module module_name ≡ ok obj)
      × (deep_getattr import_module getattr obj attr_path ≡ r)

  abbrev pub Resolves : String → Result Obj → Type 0
  Resolves name (err e) = Raised name e ⊎ Leads name (err e)
  Resolves name (ok function) = Leads name (ok function)

  module _ (name m p : String) (obj : Obj) (s : Splits name m p)
      (imported : import_module m ≡ ok obj) where
    attribute-Resolves :
        (last : Option Exc) (r : Result Obj)
        → RaisedLast name last
        → deep_getattr import_module getattr obj p ≡ r
        → Resolves name (or_import_error import_module getattr last r)
    attribute-Resolves none (ok f) raised h = (m, p, obj, s, imported, h)
    attribute-Resolves (some e) (ok f) raised h = (m, p, obj, s, imported, h)
    attribute-Resolves (some e) (err (Exc.attribute_error x)) raised h = inl raised
    attribute-Resolves none (err e) raised h = inr (m, p, obj, s, imported, h)
    attribute-Resolves (some l) (err e) raised h = inr (m, p, obj, s, imported, h)

  attribute_of-Resolves :
      (name : String) (q : Result (Obj × String × Option Exc))
      → Found name q
      → Resolves name (attribute_of import_module getattr q)
  attribute_of-Resolves name (err e) raised = inl raised
  attribute_of-Resolves name (ok (obj, p, last)) ((m, s, imported), raised) =
      attribute-Resolves name m p obj s imported last (deep_getattr import_module getattr obj p)
        raised refl

  start :
      (name : String) (parts : Option (String × String))
      → rcut b'.' name ≡ parts
      → let (m, p) = module_and_path import_module getattr name parts in
        Ends (suc (count b'.' name)) name m p none
  unfolding count
  start name none cut_name =
      import_loop-Found _ name "" name none (omega arith) (inr (refl, refl)) tt
  start name (some (a, b)) cut_name =
      import_loop-Found _ name a b none
        (omega (arith, ap (count b'.') (rcut-eq dot name a b cut_name), count-dotted a b))
        (inl (rcut-eq dot name a b cut_name)) tt

  -- A name gives a function or an exception: the search for a module ends. A function it gives is
  -- what the attributes of the name lead to from the module that the rest of the name before them
  -- imports; an exception is raised on that way, or by the import of a first part of the name. A name
  -- without a dot is all attribute, of the module with the empty name.
  pub get_function_from_name-Resolves :
      (function_name : String)
      → (r : Result Obj) × (get_function_from_name import_module getattr (some function_name)
          ≡ some r)
        × Resolves function_name r
  unfolding get_function_from_name
  get_function_from_name-Resolves name =
      let (q, e, found) = start name (rcut b'.' name) refl in
      (
        attribute_of import_module getattr q,
        ap (finish import_module getattr) e,
        attribute_of-Resolves name q found,
      )

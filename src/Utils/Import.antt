-- ===== src/Utils/Import.antt =====
-- `deep_getattr` and `get_function_from_name`. `importlib.import_module` and `getattr` are
-- parameters. The fuel of the import loop is one more than the dots of the name.
pub mod Laws
use Prim.Native.String
use Prim.Native.Nat
use Prim.Native.Char.{Char, char}
use connexion.Prelude.{ℕ, suc, String, Option, none, some, List, [], ◌∷◌, if◌then◌else◌}
use connexion.Prelude.Text.{◌<>◌, split, rcut, is_char}
use connexion.Errors.{Exc, value_error, Result, ok, err, ◌>>=◌}

unfoldable pub count : ℕ → String → ℕ
count sep String.[] = 0
count sep (String.◌∷◌ c s) = let rest = count sep s in if is_char sep c then suc rest else rest

abbrev pub dot : Char
dot = char b'.' tt

-- `f"{a}.{b}"`
abbrev pub dotted : String → String → String
dotted a b = a <> String.◌∷◌ dot b

module _ {Obj : Type 0} (import_module : String → Result Obj)
    (getattr : Obj → String → Result Obj) where
  getattrs : Obj → List String → Result Obj
  getattrs obj [] = ok obj
  getattrs obj (attr ∷ attrs) = getattr obj attr >>= λ o. getattrs o attrs

  unfoldable pub deep_getattr : Obj → String → Result Obj
  unfolding split getattrs
  deep_getattr obj attr = getattrs obj (split b'.' attr)

  abbrev pub Loaded : Type 0
  Loaded = Result (Obj × String × Option Exc)

  -- One turn: from what the import gives, `module_name.rsplit(".", 1)` and what the next turns do.
  abbrev pub turn :
      Result Obj
      → Option (String × String)
      → (attr_path : String) → Option Exc
      → (String → String → Option Exc → Option Loaded)
      → Option Loaded
  turn (ok obj) parts attr_path last continue = some (ok (obj, attr_path, last))
  turn (err (Exc.import_error m)) none attr_path last continue = some (err (Exc.import_error m))
  turn (err (Exc.import_error m)) (some (name, attr)) attr_path last continue =
      continue name (dotted attr attr_path) (some (Exc.import_error m))
  turn (err e) parts attr_path last continue = some (err e)

  -- The loop answers the module, the path of the attribute in it, and the last import error; none
  -- is fuel that has run out.
  unfoldable pub import_loop : ℕ → (module_name attr_path : String) → Option Exc → Option Loaded
  unfolding rcut
  import_loop Nat.ℕ.zero module_name attr_path last_import_error = none
  import_loop (Nat.ℕ.suc fuel) module_name attr_path last_import_error =
      turn (import_module module_name) (rcut b'.' module_name) attr_path last_import_error
        (import_loop fuel)

  -- `except AttributeError`: the import error where there was one
  abbrev pub or_import_error : Option Exc → Result Obj → Result Obj
  or_import_error last (ok f) = ok f
  or_import_error (some e) (err (Exc.attribute_error m)) = err e
  or_import_error last (err e) = err e

  abbrev pub attribute_of : Loaded → Result Obj
  attribute_of (err e) = err e
  attribute_of (ok (obj, attr_path, last)) = or_import_error last (deep_getattr obj attr_path)

  abbrev pub finish : Option Loaded → Option (Result Obj)
  finish none = none
  finish (some r) = some (attribute_of r)

  abbrev pub module_and_path : String → Option (String × String) → String × String
  module_and_path name none = ("", name)
  module_and_path name (some (module_name, attr_path)) = (module_name, attr_path)

  unfoldable pub get_function_from_name : Option String → Option (Result Obj)
  unfolding rcut import_loop deep_getattr count
  get_function_from_name none = some (err (value_error "Empty function name"))
  get_function_from_name (some function_name) =
      let (module_name, attr_path) = module_and_path function_name (rcut b'.' function_name) in
      finish (import_loop (suc (count b'.' function_name)) module_name attr_path none)

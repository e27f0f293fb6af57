-- ===== src/Specification.antt =====
-- connexion/spec.py: the `Specification` of Swagger 2 and of OpenAPI 3. The state is the raw specification
-- and the one whose references are resolved. The validation against the JSON schema of the version, the
-- resolution of references, `str.format` of a server URL and the path of a URL are parameters. The keys
-- of dicts are texts, as enforce_string_keys makes them; a specification that is validated has dicts
-- where its version says so.
pub mod BasePath
mod Tests
use Prim.Native.Char.{code}
use Prim.Native.String
use connexion.Prelude.{
  ℕ, String, Bool, true, false, not, ◌&&◌, ◌||◌, Option, none, some, List, [], ◌∷◌, ◌==◌,
  if◌then◌else◌, ltb, eqb,
}
use connexion.Prelude.Text.{◌<>◌, split, is_char}
use connexion.Prelude.Dict.{Dict}
use connexion.Value.{Value, Fields, null, str, arr, obj, nil, cons, end, field, items, truthy}
use connexion.Value.Access.{lookup}
use connexion.Errors.{
  Exc, Done, attribute_error, key_error, invalid_specification, index_error, type_error, Result, ok,
  err, ◌>>=◌, or_key_error,
}
use connexion.Utils.Cast.{parse_int}
use connexion.Utils.Media.{or_self}
use connexion.Utils.Merge.{set_field, deep_get}
use connexion.UriParsing.Swagger2.{as_text}
use connexion.Operations.OpenApi.{entries, empty_dict, get_or, put}

-- `base_path.rstrip("/")`
unfoldable pub canonical_base_path : String → String
canonical_base_path String.[] = String.[]
canonical_base_path (String.◌∷◌ c s) =
    let rest = canonical_base_path s in
    if is_char b'/' c && rest == String.[] then String.[] else String.◌∷◌ c rest

abbrev no_version : String
no_version =
    "Unable to get the spec version.\nYou are missing either '\"swagger\": \"2.0\"' or '\"openapi\": \"3.0.0\"'\nfrom the top level of your spec."

-- `tuple(map(int, parts))`, as signs and magnitudes
unfoldable pub version_tuple : List String → Result (List (Bool × ℕ))
unfolding parse_int
version_tuple [] = ok []
version_tuple (part ∷ parts) = parse_int part >>= λ n. version_tuple parts >>= λ ns. ok (n ∷ ns)

abbrev version_of : Option Value → Result (List (Bool × ℕ))
version_of none = err (invalid_specification no_version)
version_of (some null) = err (invalid_specification no_version)
version_of (some (str version_string)) = version_tuple (split b'.' version_string)
version_of (some v) = err (attribute_error "the object has no attribute 'split'")

abbrev or_second : Option Value → Option Value → Option Value
or_second none o = o
or_second (some v) o = if truthy v then some v else o

-- `_get_spec_version`
unfoldable pub get_spec_version : Value → Result (List (Bool × ℕ))
unfolding lookup truthy split version_tuple
get_spec_version (obj fs) =
    version_of (or_second (lookup "openapi" (obj fs)) (lookup "swagger" (obj fs)))
get_spec_version spec = err (invalid_specification no_version)

abbrev less_int : Bool × ℕ → Bool × ℕ → Bool
less_int (false, m) (false, n) = ltb m n
less_int (false, m) (true, n) = false
less_int (true, m) (false, n) = not (eqb m 0 && eqb n 0)
less_int (true, m) (true, n) = ltb n m

-- the order of tuples
unfoldable pub less : List (Bool × ℕ) → List (Bool × ℕ) → Bool
less ms [] = false
less [] (n ∷ ns) = true
less (m ∷ ms) (n ∷ ns) = let rest = less ms ns in less_int m n || (not (less_int n m) && rest)

pub data Version : Type 0 where
  swagger2 open_api : Version

abbrev first_version : List (Bool × ℕ)
first_version = (false, 3) ∷ (false, 0) ∷ (false, 0) ∷ []

-- `setdefault`
abbrev set_default : String → Value → Value → Value
set_default k default spec = elim (lookup k spec) [ none ↦ put k default spec | some v ↦ spec ]

-- `_set_defaults` of the two classes
unfoldable pub set_defaults : Version → Value → Value
unfolding lookup set_field
set_defaults swagger2 spec = set_default "responses" empty_dict (
    set_default "parameters" empty_dict (
      set_default "definitions" empty_dict (
        set_default "consumes" (arr (cons (str "application/json") nil))
          (set_default "produces" (arr nil) spec))))
set_defaults open_api spec = set_default "components" empty_dict spec

pub record Specification : Type 0 where
  pub version : Version
  pub raw_spec : Value
  pub spec : Value

module _ (validate : Version → Value → Result Done) (resolve_refs : Value → Result Value) where
  -- `Specification.__init__`
  unfoldable pub init : Version → Value → Result Specification
  unfolding set_defaults
  init version raw_spec =
      let spec = set_defaults version raw_spec in
      validate version spec >>= λ _. resolve_refs spec >>= λ resolved.
      ok (record { version = version; raw_spec = raw_spec; spec = resolved })

  unfoldable pub from_dict : Value → Result Specification
  unfolding get_spec_version less init
  from_dict spec = get_spec_version spec >>= λ version.
      init (if less version first_version then swagger2 else open_api) spec

  unfoldable pub clone : Specification → Result Specification
  unfolding init
  clone specification = init specification.version specification.raw_spec

unfoldable pub get_operation : Specification → (path method : String) → Result Value
unfolding deep_get
get_operation specification path method = deep_get specification.spec ("paths" ∷ path ∷ method ∷ [])

unfoldable pub get_path_params : Specification → (path : String) → Result Value
unfolding deep_get lookup
get_path_params specification path =
    deep_get specification.spec ("paths" ∷ path ∷ []) >>= λ p. ok (get_or "parameters" p (arr nil))

unfoldable pub security_schemes : Specification → Value
unfolding lookup
security_schemes specification = elim (specification.version) [
  | swagger2 ↦ get_or "securityDefinitions" specification.spec empty_dict
  | open_api ↦
      get_or "securitySchemes" (get_or "components" specification.spec empty_dict) empty_dict
]

-- `{k: v["default"] for k, v in server_vars.items()}`
unfoldable pub variable_defaults : Dict Value → Result (Dict Value)
unfolding lookup
variable_defaults [] = ok []
variable_defaults ((k, v) ∷ variables) = or_key_error "default" (lookup "default" v) >>= λ default.
    variable_defaults variables >>= λ ds. ok ((k, default) ∷ ds)

module _ (format_url : String → Dict Value → Result String) (path_of_url : String → String) where
  -- the path of the URL of the first server
  unfoldable pub server_path : Value → Result String
  unfolding lookup variable_defaults
  server_path server = or_key_error "url" (lookup "url" server) >>= as_text >>= λ url.
      variable_defaults (entries (get_or "variables" server empty_dict)) >>= λ defaults.
      format_url url defaults >>= λ formatted. ok (path_of_url formatted)

  -- `except IndexError: base_path = ""`
  abbrev pub or_empty : Result String → Result String
  or_empty (err (Exc.index_error m)) = ok ""
  or_empty r = r

  abbrev first_server : List Value → Result String
  first_server [] = ok ""
  first_server (server ∷ servers) = or_empty (server_path server)

  -- of the servers; no server gives the empty path
  unfoldable pub path_of_servers : Value → Result String
  unfolding items server_path
  path_of_servers (arr servers) = first_server (items servers)
  path_of_servers v = err (type_error "object is not subscriptable")

  -- where a version has its base path
  abbrev pub path_in : Version → Value → Result String
  path_in swagger2 spec = as_text (or_self (lookup "basePath" spec) (str ""))
  path_in open_api spec = path_of_servers (or_self (lookup "servers" spec) (arr nil))

  -- the `base_path` of Swagger 2 and of OpenAPI 3
  unfoldable pub base_path : Specification → Result String
  unfolding lookup canonical_base_path path_of_servers
  base_path specification =
      path_in specification.version specification.spec >>= λ p. ok (canonical_base_path p)

-- `[{"url": base_path}]`
abbrev pub user_servers : String → Value
user_servers base_path = arr (cons (obj (field "url" (str base_path) end)) nil)

-- where a version has its base path, and what stands there
abbrev pub base_path_key : Version → String
base_path_key swagger2 = "basePath"
base_path_key open_api = "servers"

abbrev pub base_path_entry : Version → String → Value
base_path_entry swagger2 base_path = str base_path
base_path_entry open_api base_path = user_servers base_path

-- the setters of `base_path`
unfoldable pub set_base_path : String → Specification → Specification
unfolding canonical_base_path set_field
set_base_path base_path specification =
    let key = base_path_key specification.version in
    let entry = base_path_entry specification.version (canonical_base_path base_path) in
    record {
      version = specification.version;
      raw_spec = put key entry specification.raw_spec;
      spec = put key entry specification.spec;
    }

module _ (validate : Version → Value → Result Done) (resolve_refs : Value → Result Value) where
  unfoldable pub with_base_path : String → Specification → Result Specification
  unfolding clone set_base_path
  with_base_path base_path specification = clone validate resolve_refs specification >>= λ new_spec.
      ok (set_base_path base_path new_spec)

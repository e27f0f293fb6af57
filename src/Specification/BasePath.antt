-- ===== src/Specification/BasePath.antt =====
-- The base path that a specification is given is the one that it has.
use Prim.Native.Char.{Char}
use connexion.Prelude.{
  String, ◌≡◌, refl, ap, ◌∙◌, subst, Bool, true, false, ◌&&◌, some, [], ◌==◌, eq_iff, if◌then◌else◌,
  arith,
}
use connexion.Prelude.Text.{is_char}
use connexion.Prelude.Dict
use connexion.Prelude.Dict.{Dict}
use connexion.Value.{Value, Fields, items, arr, nil, str, obj, end, field, fields}
use connexion.Value.Access.{lookup}
use connexion.Errors.{Done, Result, ok, err, ◌>>=◌, bind-eq-ok}
use connexion.Utils.Merge.{set_field}
use connexion.Utils.Media.{or_self}
use connexion.UriParsing.Swagger2.{as_text}
use connexion.Operations.OpenApi.{put}
use connexion.Specification.{
  path_in, path_of_servers, or_empty, variable_defaults, user_servers, set_defaults, Version,
  swagger2, open_api, Specification, canonical_base_path, base_path_key, base_path_entry, base_path,
  server_path, set_base_path, init, clone, with_base_path,
}

canonical_step : Char → String → String
canonical_step c rest = if is_char b'/' c && rest == "" then "" else String.◌∷◌ c rest

canonical-canonical :
    (s : String) → canonical_base_path (canonical_base_path s) ≡ canonical_base_path s
unfolding canonical_base_path canonical_step
canonical-canonical String.[] = refl
canonical-canonical (String.◌∷◌ c s) =
    go (is_char b'/' c && canonical_base_path s == "") refl (canonical-canonical s)
  where
    go :
        (b : Bool)
        → (is_char b'/' c && canonical_base_path s == "") ≡ b
        → canonical_base_path (canonical_base_path s) ≡ canonical_base_path s
        → canonical_base_path (if b then "" else String.◌∷◌ c (canonical_base_path s))
          ≡ (if b then "" else String.◌∷◌ c (canonical_base_path s))
    go true e ih = refl
    go false e ih =
        ap (canonical_step c) ih
        ∙ ap (λ (b : Bool). if b then "" else String.◌∷◌ c (canonical_base_path s)) e

get-set_field :
    (k j : String) (v : Value) (fs : Fields)
    → Dict.get j (fields (set_field k v fs)) ≡ (if j == k then some v else Dict.get j (fields fs))
unfolding Dict.get fields set_field
get-set_field k j v end = refl
get-set_field k j v (field i w fs) =
    ground (arith, eq_iff k j, eq_iff j k, eq_iff k i, eq_iff j i, get-set_field k j v fs)

-- a dict, with its entries
abbrev pub IsDict : Value → Type 0
IsDict v = (fs : Fields) × (v ≡ obj fs)

lookup-put :
    (k j : String) (w v : Value)
    → IsDict v
    → lookup j (put k w v) ≡ (if j == k then some w else lookup j v)
unfolding lookup
lookup-put k j w v (fs, e) = rw e (get-set_field k j w fs)

module _ (format_url : String → Dict Value → Result String) (path_of_url : String → String) where
  -- A URL that is a path only has nothing to be formatted, and is its own path.
  abbrev pub IsPlain : String → Type 0
  IsPlain url = (format_url url [] ≡ ok url) × (path_of_url url ≡ url)

  -- what the getter reads of the entry that the setter writes
  path_in-entry :
      (v : Version) (path : String) (spec : Value)
      → IsPlain path
      → IsDict spec
      → path_in format_url path_of_url v (put (base_path_key v) (base_path_entry v path) spec)
        ≡ ok path
  unfolding path_of_servers server_path variable_defaults lookup items
  path_in-entry swagger2 path spec plain dict =
      ap (λ o. as_text (or_self o (str ""))) (lookup-put "basePath" "basePath" (str path) spec dict)
  path_in-entry open_api path spec (formatted, is_path) dict =
      ap (λ o. path_of_servers format_url path_of_url (or_self o (arr nil)))
        (lookup-put "servers" "servers" (user_servers path) spec dict)
      ∙ (ap (λ r. or_empty format_url path_of_url (r >>= λ formatted. ok (path_of_url formatted)))
            formatted
          ∙ ap ok is_path)

  -- It has the base path, and the version and the other entries of the raw specification.
  abbrev pub IsMoved : String → Specification → Specification → Type 0
  IsMoved path specification copy =
      (base_path format_url path_of_url copy ≡ ok (canonical_base_path path))
      × (copy.version ≡ specification.version)
      × ((k : String)
          → (k == base_path_key specification.version) ≡ false
          → lookup k copy.raw_spec ≡ lookup k specification.raw_spec)

  set_base_path-IsMoved :
      (path : String) (s : Specification) (resolved : Value)
      → IsPlain (canonical_base_path path)
      → IsDict s.raw_spec
      → IsDict resolved
      → IsMoved path s (
          set_base_path path
            (record { version = s.version; raw_spec = s.raw_spec; spec = resolved }))
  unfolding base_path set_base_path
  set_base_path-IsMoved path s resolved plain dict resolved_dict =
      let canonical = canonical_base_path path in
      (
        ap (λ r. r >>= λ p. ok (canonical_base_path p))
              (path_in-entry s.version canonical resolved plain resolved_dict)
            ∙ ap ok (canonical-canonical path),
        refl,
        λ k other.
            lookup-put (base_path_key s.version) k (base_path_entry s.version canonical) s.raw_spec
              dict
            ∙ ap
                (λ (b : Bool).
                  if b then some (base_path_entry s.version canonical) else lookup k s.raw_spec)
                other,
      )

  ok-injective : {A : Type 0} (x y : A) → ok x ≡ ok y → x ≡ y
  ok-injective x y e = ap (λ r. elim r [ ok z ↦ z | err e ↦ x ]) e

  module _ (validate : Version → Value → Result Done) (resolve_refs : Value → Result Value)
      (resolve_refs-IsDict : (v r : Value) → resolve_refs v ≡ ok r → IsDict r) where
    -- A copy of a specification with another base path has that base path, without the slashes at its end,
    -- is of the same version, and is made of the same raw specification but for the entry of the base
    -- path. The path has no braces and is no more than the path of a URL, resolving references gives a
    -- dict, and the raw specification is one.
    pub with_base_path-IsMoved :
        (path : String) (specification copy : Specification)
        → IsPlain (canonical_base_path path)
        → IsDict specification.raw_spec
        → with_base_path validate resolve_refs path specification ≡ ok copy
        → IsMoved path specification copy
    unfolding with_base_path clone init
    with_base_path-IsMoved path s copy plain dict e =
        let (new, cloned, moved) =
          bind-eq-ok (clone validate resolve_refs s) (λ new. ok (set_base_path path new)) e in
        let (_, _, e₁) =
          bind-eq-ok (validate s.version (set_defaults s.version s.raw_spec)) _ cloned in
        let (resolved, is_resolved, e₂) =
          bind-eq-ok (resolve_refs (set_defaults s.version s.raw_spec)) _ e₁ in
        let is_new = ok-injective _ new e₂ in
        subst (IsMoved path s)
          (ap (set_base_path path) is_new ∙ ok-injective (set_base_path path new) copy moved)
          (set_base_path-IsMoved path s resolved plain dict
            (resolve_refs-IsDict (set_defaults s.version s.raw_spec) resolved is_resolved))

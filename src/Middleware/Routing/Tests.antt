-- ===== src/Middleware/Routing/Tests.antt =====
-- Paths and scopes of the router.
use connexion.Prelude.{String, ◌≡◌, refl, Option, none, some, List, [], ◌∷◌}
use connexion.Value.{str}
use connexion.Errors.{ok}
use connexion.Middleware.Routing.{OriginalScope, RoutedScope, starlettify_path, call_next}

starlettify_path-dash : starlettify_path "/foo-bar/{my-param}" [] ≡ "/foo-bar/{my_param}"
unfolding starlettify_path
starlettify_path-dash = refl

-- The type of a specification is integer; int is none.
starlettify_path-integer :
    starlettify_path "/foo/{someint}" (("someint", some "integer") ∷ []) ≡ "/foo/{someint:int}"
unfolding starlettify_path
starlettify_path-integer = refl

starlettify_path-int :
    starlettify_path "/foo/{someint}" (("someint", some "int") ∷ []) ≡ "/foo/{someint}"
unfolding starlettify_path
starlettify_path-int = refl

starlettify_path-open : starlettify_path "/a/{b}/{c" [] ≡ "/a/{b}/{c"
unfolding starlettify_path
starlettify_path-open = refl

abbrev original : OriginalScope
original = record { root_path = "/root"; path_params = none; routing = none }

abbrev routed : RoutedScope
routed = record { root_path = "/root/v1"; path_params = ("id", str "7") ∷ [] }

-- The base path of the API is what the router has added to the root path.
call_next-base_path :
    call_next ok (some "get_pet") original routed
    ≡ ok (record {
      root_path = "/root";
      path_params = some (("id", str "7") ∷ []);
      routing = some (record { api_base_path = some "/v1"; operation_id = some "get_pet" });
    })
unfolding call_next connexion.Prelude.Dict.set
call_next-base_path = refl

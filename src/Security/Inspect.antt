-- ===== src/Security/Inspect.antt =====
-- `inspect_function_arguments` of connexion/decorators/parameter.py.
use connexion.Prelude.{String, Bool, true, false, ◌||◌, List, [], ◌∷◌}
use connexion.Security.{Kind, positional, keyword_only, var_positional, var_keyword, Function}

abbrev bound : Kind → String → List String → List String
bound positional name names = name ∷ names
bound keyword_only name names = name ∷ names
bound var_positional name names = names
bound var_keyword name names = names

abbrev is_var_keyword : Kind → Bool
is_var_keyword var_keyword = true
is_var_keyword _ = false

unfoldable pub bound_arguments : List (String × Kind) → List String
bound_arguments [] = []
bound_arguments ((name, kind) ∷ ps) = bound kind name (bound_arguments ps)

unfoldable pub has_var_keyword : List (String × Kind) → Bool
has_var_keyword [] = false
has_var_keyword ((name, kind) ∷ ps) = is_var_keyword kind || has_var_keyword ps

unfoldable pub inspect_function_arguments : Function → List String × Bool
unfolding bound_arguments has_var_keyword
inspect_function_arguments f = (bound_arguments f.parameters, has_var_keyword f.parameters)

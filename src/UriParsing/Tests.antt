-- ===== src/UriParsing/Tests.antt =====
-- The parsers on concrete parameters.
use connexion.Prelude.{String, ◌≡◌, ◌≢◌, refl, true, false, some, [], ◌∷◌, inr, arith, ◌==◌, eq_iff}
use connexion.Prelude.Text.{has_char}
use connexion.Prelude.Dict
use connexion.Prelude.Dict.{Dict}
use connexion.Value.{Value, bool, int, str, arr, obj, nil, cons, end, field}
use connexion.Errors.{ok, err, value_error, ◌>>=◌}
use connexion.Utils.Coerce.{Builtins}
use connexion.Utils.Merge.{deep_get}
use connexion.UriParsing.{UriParser, resolve_params, resolve_param}
use connexion.UriParsing.Resolve.{Resolved, resolve_params-Resolved}
use connexion.UriParsing.Styles.{list_of, comma, pipe}
use connexion.UriParsing.OpenApi.{
  resolve_param_duplicates, split_style, resolve_query, open_api_parser,
}
use connexion.UriParsing.Styles.{pipe}
use connexion.Prelude.{inl, inr}
use connexion.Value.Access.{lookup}
use connexion.UriParsing.OpenApi.Arrays.{parts, resolve_param_duplicates-split}
use connexion.UriParsing.DeepObjects.{make_deep_object}
use connexion.UriParsing.DeepObjects.Roots.{deep_name, make_deep_object-Path}

abbrev python : Builtins
python = record {
  int_of_float = λ s. err (value_error s);
  float_ = λ v. err (value_error "could not convert string to float");
  str_ = λ v. "";
  list_ = λ v. ok v;
  dict_ = λ v. err (value_error "dictionary update sequence element");
}

abbrev of_integers : Value
of_integers =
    obj (field "type" (str "array") (field "items" (obj (field "type" (str "integer") end)) end))

-- `?a=1,2,3&a=4,5,6` of a parameter that is not exploded, and of one that is
abbrev not_exploded : Value
not_exploded = obj (
    field "name" (str "a")
      (field "in" (str "query") (field "explode" (bool false) (field "schema" of_integers end))))

abbrev exploded : Value
exploded = obj (field "name" (str "a") (field "in" (str "query") (field "schema" of_integers end)))

abbrev twice : Value
twice = list_of ("1,2,3" ∷ "4,5,6" ∷ [])

abbrev piped : Value
piped = obj (field "style" (str "pipeDelimited") end)

resolve_param_duplicates-split_example :
    (resolve_param_duplicates (list_of ("1" ∷ "2|3,4" ∷ [])) piped "query" >>= λ value.
    split_style value piped "query")
    ≡ ok (list_of (parts false pipe "1" ("2|3,4" ∷ [])))
unfolding lookup
resolve_param_duplicates-split_example =
    resolve_param_duplicates-split piped "query" "pipeDelimited" "1" ("2|3,4" ∷ []) pipe false
      ("form", inr (inl refl, refl), inl refl) (inr (inl (refl, refl)))
      (inr (inr (refl, (λ e. cc), refl)))

parts-piped : parts false pipe "1" ("2|3,4" ∷ []) ≡ "2" ∷ "3,4" ∷ []
unfolding parts
parts-piped = refl

parts-all : parts true comma "1,2,3" ("4,5,6" ∷ []) ≡ "1" ∷ "2" ∷ "3" ∷ "4" ∷ "5" ∷ "6" ∷ []
unfolding parts
parts-all = refl

-- The last value counts, not the first.
parts-last : parts false comma "1,2,3" ("4,5,6" ∷ []) ≡ "4" ∷ "5" ∷ "6" ∷ []
unfolding parts
parts-last = refl

abbrev query_parser : UriParser
unfolding resolve_param_duplicates split_style
query_parser = record {
  param_defns = ("a", not_exploded) ∷ [];
  param_schemas = ("a", of_integers) ∷ [];
  resolve_param_duplicates = resolve_param_duplicates;
  split = split_style;
}

abbrev integers : Value
integers = arr (cons (int false 4) (cons (int false 5) (cons (int false 6) nil)))

open_api_parser-query : open_api_parser (not_exploded ∷ []) ≡ ok query_parser
unfolding open_api_parser query_parser
open_api_parser-query = refl

resolve_query-integers :
    resolve_query python query_parser (("a", twice) ∷ []) ≡ ok (("a", integers) ∷ [])
unfolding resolve_query query_parser
resolve_query-integers = refl

resolve_params-Resolved_example :
    Resolved python query_parser "query" "a" (some twice) (some integers)
unfolding Dict.get resolve_params query_parser
resolve_params-Resolved_example =
    resolve_params-Resolved python query_parser "query" (("a", twice) ∷ []) (("a", integers) ∷ [])
      "a" refl

abbrev deep_filter : Dict Value
deep_filter = ("filter", obj (field "style" (str "deepObject") end)) ∷ []

differs : (a b : String) → (a == b) ≡ false → a ≢ b
differs a b h e = ground (arith, eq_iff a b)

make_deep_object-Path_example :
    (tree : Value) × (make_deep_object deep_filter deep_filter
        (deep_name "filter" "foo" ("bar" ∷ []))
        (list_of ("baz" ∷ []))
      ≡ ok ("filter", arr (cons tree nil), true))
    × (deep_get tree ("foo" ∷ "bar" ∷ []) ≡ ok (str "baz"))
unfolding has_char Dict.get Dict.keys connexion.UriParsing.DeepObjects.is_deep_object_style_param
    connexion.Value.of_items
make_deep_object-Path_example =
    make_deep_object-Path "filter" "foo" ("bar" ∷ []) refl deep_filter deep_filter (str "baz") nil
      (differs "filter" "" refl) ((refl, refl), ((refl, refl), tt)) refl refl (inr refl, tt)

-- A name that another parameter's name begins with: the deep object goes to that parameter, which is of
-- another style, and is lost.
make_deep_object-prefix :
    make_deep_object
      (("filter", obj (field "style" (str "deepObject") end)) ∷ ("f", obj end) ∷ [])
      (("filter", obj end) ∷ ("f", obj end) ∷ [])
      "filter[a]"
      (list_of ("1" ∷ []))
    ≡ ok ("filter[a]", list_of ("1" ∷ []), false)
unfolding make_deep_object
make_deep_object-prefix = refl

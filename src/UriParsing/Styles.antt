-- ===== src/UriParsing/Styles.antt =====
-- The delimiters, and joining and splitting by them.
use Prim.Native.Char.{Char, char, code}
use connexion.Prelude.{String, Option, some, List, [], ◌∷◌, ◌==◌, if◌then◌else◌, map}
use connexion.Prelude.Text.{split, join}
use connexion.Prelude.Text.Laws.{one}
use connexion.Value.{Value, str, arr, items, of_items}
use connexion.Value.Access.{lookup}
use connexion.Errors.{type_error, attribute_error, key_error, Result, ok, err, ◌>>=◌}

abbrev pub comma : Char
comma = char b',' tt

abbrev pub pipe : Char
pipe = char b'|' tt

abbrev pub space : Char
space = char b' ' tt

-- `QUERY_STRING_DELIMITERS.get(style, ",")`
unfoldable pub delimiter_of : String → Char
delimiter_of style =
    if style == "spaceDelimited" then space else if style == "pipeDelimited" then pipe else comma

-- the texts of a list, for `join`
unfoldable pub texts : List Value → Result (List String)
texts [] = ok []
texts (str s ∷ vs) = texts vs >>= λ ss. ok (s ∷ ss)
texts (v ∷ vs) = err (type_error "sequence item: expected str instance")

-- `delimiter.join(values)`
unfoldable pub join_values : Char → Value → Result Value
unfolding join items texts
join_values delimiter (arr xs) = texts (items xs) >>= λ ss. ok (str (join (one delimiter) ss))
join_values delimiter v = err (type_error "can only join an iterable")

abbrev pub list_of : List String → Value
list_of ss = arr (of_items (map str ss))

-- `value.split(delimiter)`
unfoldable pub split_value : Char → Value → Result Value
unfolding split of_items
split_value delimiter (str s) = ok (list_of (split (code delimiter) s))
split_value delimiter v = err (attribute_error "split")

-- `param_defn.get("style", default)`; a style is a text
abbrev text_or : String → Option Value → String
text_or default (some (str s)) = s
text_or default v = default

-- `style_defaults[_in]`
unfoldable pub style_default : String → Result String
style_default location =
    if location == "path"
    then ok "simple"
    else if location == "header"
    then ok "simple"
    else if location == "query"
    then ok "form"
    else if location == "cookie"
    then ok "form"
    else if location == "form"
    then ok "form"
    else err (key_error location)

unfoldable pub style_of : Value → String → Result String
unfolding lookup style_default
style_of param_defn location =
    style_default location >>= λ default. ok (text_or default (lookup "style" param_defn))

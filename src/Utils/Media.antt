-- ===== src/Utils/Media.antt =====
-- Media types, content types and null values: `is_json_mimetype`, `all_json`,
-- `extract_content_type`, `is_nullable` and `is_null`.
pub mod Laws
use connexion.Prelude.{
  String, Bool, true, false, ◌&&◌, ◌||◌, Option, none, some, List, [], ◌∷◌, ◌==◌, if◌then◌else◌,
}
use connexion.Prelude.Text
use connexion.Prelude.Text.{split, cut, lower, strip, ends_with, strip_prefix}
use connexion.Prelude.Dict
use connexion.Prelude.Dict.{Dict}
use connexion.Value.{Value, null, bool, str, obj, fields, truthy}
use connexion.Value.Access.{lookup}
use connexion.Errors.{value_error, Result, ok, err, ◌>>=◌}

abbrev pub up_to_cut : Option (String × String) → String → String
up_to_cut none s = s
up_to_cut (some (a, b)) s = a

abbrev pub is_json_subtype : String → String → Bool
is_json_subtype maintype subtype =
    maintype == "application" && (subtype == "json" || ends_with subtype "+json")

-- Unpacking wants exactly two parts.
abbrev pub json_parts : List String → Result Bool
json_parts (maintype ∷ subtype ∷ []) =
    ok (is_json_subtype maintype (up_to_cut (cut b';' subtype) subtype))
json_parts parts = err (value_error "not enough or too many values to unpack")

unfoldable pub is_json_mimetype : Option String → Result Bool
unfolding split cut ends_with
is_json_mimetype none = ok false
is_json_mimetype (some mimetype) = json_parts (split b'/' mimetype)

-- `all` stops at the first that is not JSON.
unfoldable pub all_json : List String → Result Bool
unfolding is_json_mimetype
all_json [] = ok true
all_json (mimetype ∷ mimetypes) =
    is_json_mimetype (some mimetype) >>= elim [ true ↦ all_json mimetypes | false ↦ ok false ]

-- the loop over the parameters; the last `charset=` wins
abbrev pub or_encoding : Option String → Option String → Option String
or_encoding encoding none = encoding
or_encoding encoding (some value) = some value

unfoldable pub charset_of : Option String → List String → Option String
unfolding strip_prefix
charset_of encoding [] = encoding
charset_of encoding (parameter ∷ parameters) =
    charset_of (or_encoding encoding (strip_prefix "charset=" parameter)) parameters

abbrev mime_and_encoding : String → Option (String × String) → Option String × Option String
mime_and_encoding content_type none = (some content_type, none)
mime_and_encoding content_type (some (mime_type, parameters)) =
    (some mime_type, charset_of none (split b';' parameters))

-- The headers are pairs of texts, decoded from latin-1.
unfoldable pub extract_content_type : List (String × String) → Option String × Option String
unfolding lower cut split charset_of
extract_content_type [] = (none, none)
extract_content_type ((key, value) ∷ headers) =
    if lower key == "content-type"
    then mime_and_encoding value (cut b';' value)
    else extract_content_type headers

abbrev pub or_false : Option Value → Bool
or_false none = false
or_false (some v) = truthy v

abbrev pub or_self : Option Value → Value → Value
or_self none v = v
or_self (some s) v = s

-- `param_def.get("schema", param_def).get("nullable", False) or param_def.get("x-nullable", False)`
-- as a condition
unfoldable pub is_nullable : Value → Bool
unfolding lookup truthy
is_nullable param_def =
    or_false (lookup "nullable" (or_self (lookup "schema" param_def) param_def))
    || or_false (lookup "x-nullable" param_def)

abbrev pub is_null_text : String → Bool
is_null_text s = strip s == "null" || strip s == "None"

unfoldable pub is_null : Value → Bool
unfolding strip
is_null (str s) = is_null_text s
is_null null = true
is_null _ = false

-- ===== src/Arguments/Names.antt =====
-- connexion/decorators/parameter.py: `sanitized`, `snake_and_shadow` and `pythonic`, which make the
-- name of an argument of the name of a parameter.
pub mod Identifiers
use Prim.Native.Char.{Char, char, code}
use Prim.Native.String
use connexion.Prelude.{String, Bool, true, false, not, ◌&&◌, ◌||◌, ◌==◌, if◌then◌else◌, leb}
use connexion.Prelude.Text.{is_char, push}

abbrev pub is_letter : Char → Bool
is_letter c =
    (leb 97 (code c) && leb (code c) 122) || (leb 65 (code c) && leb (code c) 90) || is_char b'_' c

abbrev pub is_digit : Char → Bool
is_digit c = leb 48 (code c) && leb (code c) 57

abbrev pub is_word : Char → Bool
is_word c = is_letter c || is_digit c

abbrev closes : String → Bool
closes String.[] = false
closes (String.◌∷◌ c s) = is_char b']' c

-- `re.sub(r"\[(?!])", "_", name)`
unfoldable pub underscore_brackets : String → String
underscore_brackets String.[] = String.[]
underscore_brackets (String.◌∷◌ c s) =
    String.◌∷◌ (if is_char b'[' c && not (closes s) then char b'_' tt else c)
      (underscore_brackets s)

-- `re.sub("[^0-9a-zA-Z_]", "", name)`
unfoldable pub only_word : String → String
only_word String.[] = String.[]
only_word (String.◌∷◌ c s) = let rest = only_word s in if is_word c then String.◌∷◌ c rest else rest

-- `re.sub("^[^a-zA-Z_]+", "", name)`
unfoldable pub drop_leading : String → String
drop_leading String.[] = String.[]
drop_leading (String.◌∷◌ c s) =
    let rest = drop_leading s in if is_letter c then String.◌∷◌ c s else rest

-- An empty name stays empty.
unfoldable pub sanitized : String → String
unfolding underscore_brackets only_word drop_leading
sanitized name = drop_leading (only_word (underscore_brackets name))

module _ (underscore : String → String) (is_reserved : String → Bool) where
  -- A name of a built-in or a keyword gets an underscore.
  unfoldable pub snake_and_shadow : String → String
  snake_and_shadow name =
      let snake = underscore name in if is_reserved snake then push snake (char b'_' tt) else snake

  unfoldable pub pythonic : String → String
  unfolding snake_and_shadow sanitized
  pythonic name = sanitized (if name == "" then name else snake_and_shadow name)

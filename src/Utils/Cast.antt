-- ===== src/Utils/Cast.antt =====
-- `boolean`, `make_type` and `coerce_type`. The number that `float` reads in a text is kept as that
-- text, so `float(value)` is a parameter that says which texts it takes.
use connexion.Prelude.{
  ℕ, ◌+◌, ◌-◌, ◌*◌, String, Bool, true, false, ◌&&◌, Option, none, some, ◌==◌, if◌then◌else◌, leb,
  eqb,
}
use Prim.Native.Char.{code}
use connexion.Prelude.Text.{strip, lower}
use connexion.Value.{Value, bool, int, str}
use connexion.Errors.{value_error, Result, ok, err}

-- the digits of a number, with the value so far
digits : ℕ → String → Option ℕ
digits n String.[] = some n
digits n (String.◌∷◌ c s) =
    let rest = digits (n * 10 + (code c - 48)) s in
    if leb 48 (code c) && leb (code c) 57 then rest else none

abbrev number : Bool → String → Option (Bool × ℕ)
number negative String.[] = none
number negative (String.◌∷◌ c s) = elim (digits 0 (String.◌∷◌ c s)) [
  | none ↦ none
  | some n ↦ some (negative, n)
]

abbrev signed : String → Option (Bool × ℕ)
signed String.[] = none
signed (String.◌∷◌ c s) =
    if eqb (code c) b'-'
    then number true s
    else if eqb (code c) b'+'
    then number false s
    else number false (String.◌∷◌ c s)

abbrev or_value_error {ℓ} : {A : Type ℓ} → Option A → Result A
or_value_error none = err (value_error "invalid literal")
or_value_error (some a) = ok a

-- `int(s)` of a decimal literal, as sign and magnitude. The underscores that Python allows between
-- digits are refused.
unfoldable pub parse_int : String → Result (Bool × ℕ)
unfolding digits strip
parse_int s = or_value_error (signed (strip s))

abbrev pub int_of : Bool × ℕ → Value
int_of (negative, n) = if eqb n 0 then int false 0 else int negative n

abbrev boolean_text : String → Result Value
boolean_text s =
    if s == "true"
    then ok (bool true)
    else if s == "false"
    then ok (bool false)
    else err (value_error "Invalid boolean value")

unfoldable pub boolean : Value → Result Value
unfolding lower
boolean (bool b) = ok (bool b)
boolean (str s) = boolean_text (lower s)
boolean v = err (value_error "Invalid boolean value")

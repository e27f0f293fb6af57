-- ===== src/UriParsing/OpenApi/Arrays.antt =====
-- What becomes of the values of an array parameter.
use Prim.Native.Char.{Char, char, code}
use connexion.Prelude.{
  String, ◌≡◌, refl, ap, ◌∙◌, Bool, true, false, some, List, [], ◌∷◌, map, last, ◌==◌, ◌≢◌, ◌⊎◌,
  inl, inr, none, arith, eq_iff,
}
use connexion.Prelude.Text.{split, join}
use connexion.Prelude.Text.Laws.{one}
use connexion.Prelude.Text.Split.{split_all, split-join}
use connexion.Value.{Value, str, truthy, items-of_items}
use connexion.Value.Access.{lookup}
use connexion.Errors.{Result, ok, ◌>>=◌}
use connexion.UriParsing.{or_index_error, last_value}
use connexion.UriParsing.Styles.{
  delimiter_of, texts, list_of, join_values, split_value, style_of, style_default,
}
use connexion.UriParsing.OpenApi.{explode_or, join_or_last, resolve_param_duplicates, split_style}

texts-map_str : (ss : List String) → texts (map str ss) ≡ ok ss
unfolding texts
texts-map_str [] = refl
texts-map_str (s ∷ ss) =
    ap (λ (r : Result (List String)). r >>= λ ss. ok (s ∷ ss)) (texts-map_str ss)

pub join_values-list_of :
    (c : Char) (ss : List String) → join_values c (list_of ss) ≡ ok (str (join (one c) ss))
unfolding join_values
join_values-list_of c ss =
    ap (λ vs. texts vs >>= λ ss. ok (str (join (one c) ss))) (items-of_items (map str ss))
    ∙ ap (λ (r : Result (List String)). r >>= λ ss. ok (str (join (one c) ss))) (texts-map_str ss)

-- the last of a list with a first text
abbrev pub last_of : String → List String → String
last_of p [] = p
last_of p (q ∷ ps) = last_of q ps

last-map_str : (p : String) (ps : List String) → last (map str (p ∷ ps)) ≡ some (str (last_of p ps))
last-map_str p [] = refl
last-map_str p (q ∷ ps) = last-map_str q ps

pub last_value-list_of :
    (p : String) (ps : List String) → last_value (list_of (p ∷ ps)) ≡ ok (str (last_of p ps))
unfolding last_value
last_value-list_of p ps =
    ap (λ vs. or_index_error (last vs)) (items-of_items (map str (p ∷ ps)))
    ∙ ap or_index_error (last-map_str p ps)

-- The texts of a parameter's values, by whether they are exploded.
unfoldable pub parts : Bool → Char → (first : String) → (others : List String) → List String
unfolding split_all split
parts true c p ps = split_all (code c) (p ∷ ps)
parts false c p ps = split (code c) (last_of p ps)

split-join_or_last :
    (explode : Bool) (style p : String) (ps : List String)
    → (join_or_last explode style (list_of (p ∷ ps)) >>= split_value (delimiter_of style))
      ≡ ok (list_of (parts explode (delimiter_of style) p ps))
unfolding join_or_last split_value parts
split-join_or_last true style p ps =
    ap (λ r. r >>= split_value (delimiter_of style))
      (join_values-list_of (delimiter_of style) (p ∷ ps))
    ∙ ap (λ ss. ok (list_of ss)) (split-join (delimiter_of style) p ps)
split-join_or_last false style p ps =
    ap (λ r. r >>= split_value (delimiter_of style)) (last_value-list_of p ps)

split-duplicates :
    (param_defn : Value) (location style p : String) (ps : List String)
    → style_of param_defn location ≡ ok style
    → (resolve_param_duplicates (list_of (p ∷ ps)) param_defn location >>= λ value.
        split_style value param_defn location)
      ≡ ok (
          list_of (
            parts
              (explode_or (style == "form") (lookup "explode" param_defn))
              (delimiter_of style)
              p
              ps))
unfolding resolve_param_duplicates split_style
split-duplicates param_defn location style p ps has_style =
    ap
      (λ (r : Result String).
        (r >>= λ style.
        join_or_last (explode_or (style == "form") (lookup "explode" param_defn)) style
          (list_of (p ∷ ps)))
        >>= λ value. r >>= λ style. split_value (delimiter_of style) value)
      has_style
    ∙ split-join_or_last (explode_or (style == "form") (lookup "explode" param_defn)) style p ps

-- The style of a parameter without one, by where it stands.
abbrev pub IsDefault : (location style : String) → Type 0
IsDefault location style =
    (((location ≡ "path") ⊎ (location ≡ "header")) × (style ≡ "simple"))
    ⊎ (((location ≡ "query") ⊎ (location ≡ "cookie") ⊎ (location ≡ "form")) × (style ≡ "form"))

-- The style that a definition states, and else the default.
abbrev pub HasStyle : Value → (location style : String) → Type 0
HasStyle param_defn location style =
    (default : String) × IsDefault location default
    × ((lookup "style" param_defn ≡ some (str style))
        ⊎ ((lookup "style" param_defn ≡ none) × (style ≡ default)))

-- Spaces, pipes, and for every other style commas.
abbrev pub IsDelimiter : String → Char → Type 0
IsDelimiter style c =
    ((style ≡ "spaceDelimited") × (c ≡ char b' ' tt))
    ⊎ ((style ≡ "pipeDelimited") × (c ≡ char b'|' tt))
    ⊎ ((style ≢ "spaceDelimited") × (style ≢ "pipeDelimited") × (c ≡ char b',' tt))

-- What the definition says, and where it says nothing a form is exploded.
abbrev pub IsExploded : Value → String → Bool → Type 0
IsExploded param_defn style explode =
    ((v : Value) × (lookup "explode" param_defn ≡ some v) × (explode ≡ truthy v))
    ⊎ ((lookup "explode" param_defn ≡ none) × (style ≡ "form") × (explode ≡ true))
    ⊎ ((lookup "explode" param_defn ≡ none) × (style ≢ "form") × (explode ≡ false))

IsDefault-style_default :
    (location style : String) → IsDefault location style → style_default location ≡ ok style
unfolding style_default
IsDefault-style_default location style (inl (inl l, s)) = rw (l, s) refl
IsDefault-style_default location style (inl (inr l, s)) = rw (l, s) refl
IsDefault-style_default location style (inr (inl l, s)) = rw (l, s) refl
IsDefault-style_default location style (inr (inr (inl l), s)) = rw (l, s) refl
IsDefault-style_default location style (inr (inr (inr l), s)) = rw (l, s) refl

HasStyle-style_of :
    (param_defn : Value) (location style : String)
    → HasStyle param_defn location style
    → style_of param_defn location ≡ ok style
unfolding style_of
HasStyle-style_of param_defn location style (default, is_default, inl stated) =
    rw (IsDefault-style_default location default is_default, stated) refl
HasStyle-style_of param_defn location style (default, is_default, inr (unstated, same)) =
    rw (IsDefault-style_default location default is_default, unstated, same) refl

IsDelimiter-delimiter_of :
    (style : String) (c : Char) → IsDelimiter style c → delimiter_of style ≡ c
unfolding delimiter_of
IsDelimiter-delimiter_of style c (inl (s, d)) = rw (s, d) refl
IsDelimiter-delimiter_of style c (inr (inl (s, d))) = rw (s, d) refl
IsDelimiter-delimiter_of style c (inr (inr (no_space, no_pipe, d))) =
    ground (arith, eq_iff style "spaceDelimited", eq_iff style "pipeDelimited")

IsExploded-explode_or :
    (param_defn : Value) (style : String) (explode : Bool)
    → IsExploded param_defn style explode
    → explode_or (style == "form") (lookup "explode" param_defn) ≡ explode
IsExploded-explode_or param_defn style explode (inl (v, stated, e)) = rw (stated, e) refl
IsExploded-explode_or param_defn style explode (inr (inl (unstated, s, e))) =
    rw (unstated, s, e) refl
IsExploded-explode_or param_defn style explode (inr (inr (unstated, s, e))) =
    rw unstated (ground (arith, eq_iff style "form"))

-- An array parameter given several times has the parts of all its values, in order, where it is exploded,
-- and else the parts of its last value. The style is what the definition states, else simple in paths and
-- headers and form elsewhere. Spaces part the values of spaceDelimited, pipes those of pipeDelimited and
-- commas those of every other style. The definition says whether it is exploded, and where it does not, a
-- form is.
pub resolve_param_duplicates-split :
    (param_defn : Value) (location style p : String) (ps : List String) (c : Char) (explode : Bool)
    → HasStyle param_defn location style
    → IsDelimiter style c
    → IsExploded param_defn style explode
    → (resolve_param_duplicates (list_of (p ∷ ps)) param_defn location >>= λ value.
        split_style value param_defn location)
      ≡ ok (list_of (parts explode c p ps))
resolve_param_duplicates-split param_defn location style p ps c explode has_style is_delimiter e =
    split-duplicates param_defn location style p ps
      (HasStyle-style_of param_defn location style has_style)
    ∙ ap
        (λ d.
          ok (list_of (parts (explode_or (style == "form") (lookup "explode" param_defn)) d p ps)))
        (IsDelimiter-delimiter_of style c is_delimiter)
    ∙ ap (λ b. ok (list_of (parts b c p ps))) (IsExploded-explode_or param_defn style explode e)

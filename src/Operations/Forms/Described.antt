-- ===== src/Operations/Forms/Described.antt =====
-- The schema that `_transform_form` makes describes the parameters of the form.
use connexion.Prelude.{
  String, ◌≡◌, refl, sym, ap, ◌∙◌, Bool, true, false, Option, none, some, List, [], ◌∷◌, ◌++◌,
  append-nil, append_assoc, ◌==◌, if◌then◌else◌, arith,
}
use connexion.Value.{Value, null, bool, str, obj, truthy}
use connexion.Value.Access.{lookup}
use connexion.Errors.{ok, err, bind-eq-ok, or_key_error}
use connexion.Utils.Media.{or_self}
use connexion.Utils.Merge.{set_field, get_field}
use connexion.Utils.Merge.Laws.{get-set_field}
use connexion.UriParsing.Swagger2.{as_text, text_at}
use connexion.Operations.OpenApi.{get_or}
use connexion.Operations.Forms.{
  Form, empty_form, property_of, encoding_of, add_parameter, add_parameters, form_definition,
  transform_form,
}

abbrev is_named : String → Option Value → Bool
is_named name none = false
is_named name (some (str s)) = name == s
is_named name (some v) = false

abbrev otherwise : Option Value → Option Value → Option Value
otherwise none o = o
otherwise (some v) o = some v

-- what a form has under a name: the property of the last parameter of that name
unfoldable pub property_named : String → List Value → Option Value
unfolding lookup property_of
property_named name [] = none
property_named name (p ∷ ps) = otherwise (property_named name ps) (
    if is_named name (lookup "name" p)
    then some (obj (property_of p (or_self (lookup "type" p) null)))
    else none)

-- the names of the parameters that are required, in their order
unfoldable pub required_names : List Value → List Value
unfolding lookup truthy
required_names [] = []
required_names (p ∷ ps) =
    let rest = required_names ps in
    if truthy (get_or "required" p (bool false))
    then or_self (lookup "name" p) null ∷ rest
    else rest

-- What the first parameter adds.
abbrev Adds : Value → Form → Form → Type 0
Adds p form form' =
    (type_ : Value) × (name : String) × (lookup "type" p ≡ some type_)
    × (lookup "name" p ≡ some (str name))
    × (form'.properties ≡ set_field name (obj (property_of p type_)) form.properties)
    × (form'.required ≡ (
        if truthy (get_or "required" p (bool false))
        then form.required ++ str name ∷ []
        else form.required))

or_key-some : (k : String) (o : Option Value) (v : Value) → or_key_error k o ≡ ok v → o ≡ some v
or_key-some k none v e = cc
or_key-some k (some w) v e = ground arith

as_text-str : (v : Value) (name : String) → as_text v ≡ ok name → v ≡ str name
as_text-str (str s) name e = ground arith
as_text-str v name e = cc

text_at-some : (p : Value) (k name : String) → text_at k p ≡ ok name → lookup k p ≡ some (str name)
text_at-some p k name e =
    let (v, found, is_text) = bind-eq-ok (or_key_error k (lookup k p)) as_text e in
    or_key-some k (lookup k p) v found ∙ ap some (as_text-str v name is_text)

ok-injective : {A : Type 0} (x y : A) → ok x ≡ ok y → x ≡ y
ok-injective x y e = ap (λ r. elim r [ ok z ↦ z | err e ↦ x ]) e

otherwise-none : (o : Option Value) → otherwise o none ≡ o
otherwise-none none = refl
otherwise-none (some v) = refl

add_parameter-Adds :
    (p : Value) (form form' : Form) → add_parameter p form ≡ ok form' → Adds p form form'
unfolding add_parameter
add_parameter-Adds p form form' e =
    let (type_, typed, e₁) = bind-eq-ok (or_key_error "type" (lookup "type" p)) _ e in
    let (name, named, e₂) = bind-eq-ok (text_at "name" p) _ e₁ in
    let (encoding, encoded, e₃) = bind-eq-ok (encoding_of p type_ name form.encoding) _ e₂ in
    let added = ok-injective _ form' e₃ in
    (
      type_,
      name,
      or_key-some "type" (lookup "type" p) type_ typed,
      text_at-some p "name" name named,
      sym (ap (λ f. f.properties) added),
      sym (ap (λ f. f.required) added),
    )

module _ (name : String) where
  otherwise_assoc :
      (o p q : Option Value) → otherwise (otherwise o p) q ≡ otherwise o (otherwise p q)
  otherwise_assoc none p q = refl
  otherwise_assoc (some v) p q = refl

  -- under a name, the form has the property of the parameter of that name, or what it had
  add_parameter-property :
      (p : Value) (form form' : Form)
      → Adds p form form'
      → get_field name form'.properties
        ≡ otherwise
            (if is_named name (lookup "name" p)
              then some (obj (property_of p (or_self (lookup "type" p) null)))
              else none)
            (get_field name form.properties)
  add_parameter-property p form form' (type_, j, typed, named, properties, required) =
      ap (get_field name) properties
      ∙ get-set_field j name (obj (property_of p type_)) form.properties
      ∙ rw (typed, named) (split (name == j))
    where
      split :
          (b : Bool)
          → (if b then some (obj (property_of p type_)) else get_field name form.properties)
            ≡ otherwise
                (if b then some (obj (property_of p type_)) else none)
                (get_field name form.properties)
      split true = refl
      split false = refl

  add_parameters-property :
      (ps : List Value) (form form' : Form)
      → add_parameters ps form ≡ ok form'
      → get_field name form'.properties
        ≡ otherwise (property_named name ps) (get_field name form.properties)
  unfolding add_parameters property_named
  add_parameters-property [] form form' e =
      sym (ap (λ f. get_field name f.properties) (ok-injective form form' e))
  add_parameters-property (p ∷ ps) form form' e =
      let (mid, first, rest) = bind-eq-ok (add_parameter p form) (add_parameters ps) e in
      add_parameters-property ps mid form' rest
      ∙ ap (otherwise (property_named name ps))
          (add_parameter-property p form mid (add_parameter-Adds p form mid first))
      ∙ sym (otherwise_assoc (property_named name ps) _ (get_field name form.properties))

add_parameters-required :
    (ps : List Value) (form form' : Form)
    → add_parameters ps form ≡ ok form'
    → form'.required ≡ form.required ++ required_names ps
unfolding add_parameters required_names
add_parameters-required [] form form' e =
    sym (ap (λ f. f.required) (ok-injective form form' e)) ∙ sym (append-nil form.required)
add_parameters-required (p ∷ ps) form form' e =
    let (mid, first, rest) = bind-eq-ok (add_parameter p form) (add_parameters ps) e in
    let (type_, name, typed, named, properties, required) = add_parameter-Adds p form mid first in
    add_parameters-required ps mid form' rest
    ∙ (ap (λ l. l ++ required_names ps) required
        ∙ rw named (split (truthy (get_or "required" p (bool false))) name))
  where
    split :
        (b : Bool) (name : String)
        → (if b then form.required ++ str name ∷ [] else form.required) ++ required_names ps
          ≡ form.required ++ (if b then str name ∷ required_names ps else required_names ps)
    split true name = append_assoc form.required (str name ∷ []) (required_names ps)
    split false name = refl

-- The definition that is made of the parameters of a form is an object with one property for each name,
-- that of the last parameter of the name, and no other; it requires just the parameters that
-- are required, in their order.
pub transform_form-Describes :
    (form_parameters : List Value) (definition : Value)
    → transform_form form_parameters ≡ ok definition
    → (form : Form) × (definition ≡ form_definition form)
      × ((name : String) → get_field name form.properties ≡ property_named name form_parameters)
      × (form.required ≡ required_names form_parameters)
unfolding transform_form get_field property_named
transform_form-Describes ps definition e =
    let (form, made, defined) = bind-eq-ok (add_parameters ps empty_form) _ e in
    (
      form,
      sym (ok-injective (form_definition form) definition defined),
      (λ name.
          add_parameters-property name ps empty_form form made
          ∙ otherwise-none (property_named name ps)),
      add_parameters-required ps empty_form form made,
    )

-- ===== src/Validators/Json/Conforms.antt =====
-- The bodies that the JSON validators let through.
use connexion.Prelude.{
  ◌≡◌, refl, ap, ◌∙◌, sym, ◌⊎◌, inl, inr, String, Bool, true, false, Option, none, some, List,
  arith, eq_iff, if◌then◌else◌, Bool-cases,
}
use connexion.Value.{Value, str}
use connexion.Errors.{Exc, Done, done, Result, ok, ◌>>=◌, bind-eq-ok}
use connexion.Utils.Media.{is_null}
use connexion.Asgi.{Message, join_bodies}
use connexion.Validators.Json.{
  ValidationError, Tools, must_validate, valid_or, parse, check_decoded, check_messages,
}

-- A body that may pass: it is empty, or a null where that is allowed, or what it parses to
-- satisfies the schema.
abbrev pub Conforms : Tools → (String → Result Value) → List Message → Type 0
Conforms tools parse messages =
    (s : String) × (tools.decode (join_bodies messages) ≡ ok s)
    × ((s ≡ "")
        ⊎ ((tools.nullable ≡ true) × (is_null (str s) ≡ true))
        ⊎ ((v : Value) × (parse s ≡ ok v) × (tools.schema_error v ≡ none)))

must_validate-false :
    (nullable : Bool) (s : String)
    → must_validate nullable s ≡ false
    → (s ≡ "") ⊎ ((nullable ≡ true) × (is_null (str s) ≡ true))
unfolding must_validate
must_validate-false nullable s h = ground (arith, eq_iff s "")

must_validate-empty : (nullable : Bool) → must_validate nullable "" ≡ false
unfolding must_validate
must_validate-empty nullable = refl

must_validate-null :
    (nullable : Bool) (s : String)
    → nullable ≡ true
    → is_null (str s) ≡ true
    → must_validate nullable s ≡ false
unfolding must_validate
must_validate-null nullable s h k = ground (arith)

valid_or-done :
    (raise : ValidationError → Exc) (o : Option ValidationError)
    → valid_or raise o ≡ ok done
    → o ≡ none
valid_or-done raise none h = refl
valid_or-done raise (some e) h = cc

module _ (tools : Tools) (parse : String → Result Value) (raise : ValidationError → Exc)
    (validate : Value → Result Done)
    (is_validate : (v : Value) → validate v ≡ valid_or raise (tools.schema_error v)) where
  valid : (v : Value) → validate v ≡ ok done → tools.schema_error v ≡ none
  valid v h = valid_or-done raise (tools.schema_error v) (sym (is_validate v) ∙ h)

  check_decoded-must :
      (s : String)
      → must_validate tools.nullable s ≡ true
      → check_decoded tools parse validate s ≡ (parse s >>= validate)
  unfolding check_decoded
  check_decoded-must s h = ap (λ b. if b then (parse s >>= validate) else ok done) h

  check_decoded-not :
      (s : String)
      → must_validate tools.nullable s ≡ false
      → check_decoded tools parse validate s ≡ ok done
  unfolding check_decoded
  check_decoded-not s h = ap (λ b. if b then (parse s >>= validate) else ok done) h

  pub check_messages-Conforms :
      (messages : List Message)
      → check_messages tools parse validate messages ≡ ok done
      → Conforms tools parse messages
  unfolding check_messages
  check_messages-Conforms messages h =
      let (s, decoded, h₁) =
        bind-eq-ok (tools.decode (join_bodies messages)) (check_decoded tools parse validate) h in
      elim (Bool-cases (must_validate tools.nullable s)) [
        | inl must ↦
            let (v, parsed, h₂) =
              bind-eq-ok (parse s) validate (sym (check_decoded-must s must) ∙ h₁) in
            (s, decoded, inr (inr (v, parsed, valid v h₂)))
        | inr need_not ↦ elim (must_validate-false tools.nullable s need_not) [
          | inl empty ↦ (s, decoded, inl empty)
          | inr null ↦ (s, decoded, inr (inl null))
        ]
      ]

  passes :
      (s : String) (v : Value)
      → parse s ≡ ok v
      → tools.schema_error v ≡ none
      → check_decoded tools parse validate s ≡ ok done
  passes s v parsed no_error = elim (Bool-cases (must_validate tools.nullable s)) [
    | inl must ↦
        check_decoded-must s must
        ∙ ap (λ r. r >>= validate) parsed
        ∙ is_validate v
        ∙ ap (valid_or raise) no_error
    | inr need_not ↦ check_decoded-not s need_not
  ]

  pub Conforms-check_messages :
      (messages : List Message)
      → Conforms tools parse messages
      → check_messages tools parse validate messages ≡ ok done
  unfolding check_messages must_validate
  Conforms-check_messages messages (s, decoded, c) =
      ap (λ r. r >>= check_decoded tools parse validate) decoded ∙ elim c [
        | inl empty ↦ check_decoded-not s (ap (must_validate tools.nullable) empty)
        | inr (inl (nullable, null)) ↦
            check_decoded-not s (must_validate-null tools.nullable s nullable null)
        | inr (inr (v, parsed, no_error)) ↦ passes s v parsed no_error
      ]

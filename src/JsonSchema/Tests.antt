-- ===== src/JsonSchema/Tests.antt =====
-- Concrete schemas and instances.
use connexion.Prelude.{◌≡◌, refl, true, [], ◌∷◌}
use connexion.Value.{Value, null, bool, str, arr, obj, nil, cons, end, field}
use connexion.JsonSchema.{Validator, Keyword, allow_nullable, validate_required}

abbrev requests : Validator
requests = record { is_type = λ v t. true; validators = "type" ∷ "required" ∷ "readOnly" ∷ [] }

abbrev responses : Validator
responses = record { is_type = λ v t. true; validators = "required" ∷ "writeOnly" ∷ [] }

abbrev names : Value
names = arr (cons (str "id") (cons (str "tag") nil))

abbrev read_only_id : Value
read_only_id =
    obj (field "properties" (obj (field "id" (obj (field "readOnly" (bool true) end)) end)) end)

-- The read-only id is asked of responses only.
validate_required-request :
    validate_required (λ s. s) requests names (obj end) read_only_id
    ≡ "tag is a required property" ∷ []
unfolding validate_required
validate_required-request = refl

validate_required-response :
    validate_required (λ s. s) responses names (obj end) read_only_id
    ≡ "id is a required property" ∷ "tag is a required property" ∷ []
unfolding validate_required
validate_required-response = refl

abbrev failing : Keyword
failing validator to_validate instance_ schema = "failed" ∷ []

allow_nullable-null :
    allow_nullable failing requests names null (obj (field "nullable" (bool true) end)) ≡ []
unfolding allow_nullable
allow_nullable-null = refl

-- x-nullable has to be True itself.
allow_nullable-text :
    allow_nullable failing requests names null (obj (field "x-nullable" (str "true") end))
    ≡ "failed" ∷ []
unfolding allow_nullable
allow_nullable-text = refl

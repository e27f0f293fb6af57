-- ===== src/Value/Access.antt =====
-- Reading Python dicts held in values.
use connexion.Prelude.{String, Option, none}
use connexion.Prelude.Dict
use connexion.Value.{Value, obj, fields}

-- `v.get(k)` of a dict; none of anything else
unfoldable pub lookup : String → Value → Option Value
unfolding fields Dict.get
lookup k (obj fs) = Dict.get k (fields fs)
lookup k _ = none

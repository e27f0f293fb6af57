-- ===== src/Arguments.antt =====
-- connexion/decorators/parameter.py: the arguments of a view function from a request. The names are
-- in Arguments/Names, the casts and the defaults in Arguments/Values, the body in Arguments/Body.
-- inflection.underscore and the names of Python's built-ins are parameters, as are its casts
-- (connexion.Utils.Coerce.Builtins).
pub mod Names
pub mod Values
pub mod Query
pub mod Body
pub mod Wrapper
pub mod Keys
pub mod Accepted
mod Tests
use connexion.Prelude.{String, Bool, Option, List}
use connexion.Prelude.Dict.{Dict}
use connexion.Value.{Value}
use connexion.Errors.{Result}

-- What this module uses of an operation.
pub record Operation : Type 0 where
  pub method : String
  pub parameters : List Value
  pub is_swagger2 : Bool
  pub body_name : Option String → Result String
  pub body_schema : Option String → Result Value

-- What it uses of a request: the JSON that its body is, its form, and its bytes as a value.
pub record Request : Type 0 where
  pub content_type : Option String
  pub mimetype : Option String
  pub path_params : Dict Value
  pub query_params : Dict Value
  pub files : Dict Value
  pub json : Result Value
  pub form : Result Value
  pub raw_data : Result Value
  pub context : Dict Value

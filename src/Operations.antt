-- ===== src/Operations.antt =====
-- connexion/operations/abstract.py: what the middlewares use of an operation of a specification.
pub mod OpenApi
pub mod Examples
pub mod Forms
pub mod Swagger2
pub mod PathTypes
mod Tests
use connexion.Prelude.{String, Option, List}
use connexion.Value.{Value}
use connexion.Errors.{Result}

pub record AbstractOperation : Type 0 where
  pub operation_id : Option String
  pub parameters : List Value
  pub consumes : List String
  pub produces : List String
  pub body_schema : Option String → Result Value
  pub body_definition : Option String → Result Value
  pub response_definition : (status : String) → (content_type : String) → Value
  pub response_schema : (status : String) → (content_type : String) → Value

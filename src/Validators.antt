-- ===== src/Validators.antt =====
-- connexion/validators/: the validators of bodies and of parameters.
pub mod Json
pub mod Form
pub mod Parameter
mod Tests

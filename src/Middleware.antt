-- ===== src/Middleware.antt =====
-- connexion/middleware: the ASGI middlewares.
pub mod Security
pub mod RequestValidation
pub mod Routing
pub mod ResponseValidation
pub mod Stack
pub mod Routed
mod Tests
pub mod Exceptions

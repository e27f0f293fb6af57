-- ===== src/Apis.antt =====
-- connexion/apis/abstract.py: the APIs that put the operations of a specification on a router, and make
-- responses of what the handlers return.
pub mod Routing
pub mod Responses
mod Tests

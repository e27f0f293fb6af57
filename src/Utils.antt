-- ===== src/Utils.antt =====
-- connexion/utils.py.
pub mod Cast
pub mod Coerce
pub mod Media
pub mod Merge
pub mod Import
mod Tests

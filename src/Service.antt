-- ===== src/Service.antt =====
-- The services to watch (internal/service): their settings, what the environment says of them, and the
-- repository that holds them.
pub mod Env
pub mod Repository
pub mod Fill
pub mod Setup
mod Tests

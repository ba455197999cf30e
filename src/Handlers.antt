-- ===== src/Handlers.antt =====
-- The handlers of HTTP requests (internal/pgscv/pgscv.go). Requests are handled one after the other.
pub mod Metrics
pub mod Targets
mod Tests

-- ===== src/Mapops.antt =====
-- The full join of two maps by their keys (internal/discovery/mapops/full_join.go).
mod Laws
mod Tests
pub use Laws.*
unfoldable pub use Defs.*
mod Defs

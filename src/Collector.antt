-- ===== src/Collector.antt =====
-- The collectors of a service (internal/collector).
pub mod Factories
pub mod Config
pub mod Create
pub mod Launch
pub mod Pool
mod Tests

-- ===== src/Discovery.antt =====
-- Service discovery (discovery/common.go, internal/discovery/service/yandex.go,
-- internal/discovery/service/yandex_engine.go, internal/discovery/cloud/yandex/filter.go): an engine
-- keeps the databases of a cloud folder, and subscribers are told which services came and went.
pub mod Types
pub mod CloudFilter
pub mod Listing
pub mod Engine
pub mod Subscribers
mod Tests

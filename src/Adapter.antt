-- ===== src/Adapter.antt =====
-- src/ucf/adapter_protocol: the session that an adapter serves.
pub mod Models
pub mod Versioning
pub mod Dispatcher
pub mod Sample
mod Tests

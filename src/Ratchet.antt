-- ===== src/Ratchet.antt =====
-- src/ucf/ratchet
pub mod Models
pub mod Equality
pub mod Identity
pub mod Validation
pub mod Evaluation
pub mod Report
pub mod Baseline
pub mod Sample
mod Tests

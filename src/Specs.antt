-- ===== src/Specs.antt =====
-- The specification files of src/ucf/models, the registry of src/ucf/parser/registry.py that holds them, and
-- the composition of use cases of src/ucf/composition.py.
pub mod Models
pub mod Registry
pub mod Loading
pub mod Composition
pub mod Sample
pub mod Tests

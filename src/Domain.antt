-- ===== src/Domain.antt =====
-- packages/domain/src: the model's types and its pure functions, one child for each source file.
pub mod Ids
pub mod Capability
pub mod Device
pub mod Monitor
pub mod State
pub mod Peripheral
pub mod Command
pub mod Preset
pub mod Reconcile

-- ===== src/Wire.antt =====
-- GhostWire: escrowed jobs between a client, a provider and an evaluator, as lib/ghostwire-store.ts
-- keeps them and lib/ghostwire-operator.ts moves them on.
pub mod Schema
pub mod Config
pub mod Terms
pub mod Tables
pub mod Quotes
pub mod Prepare
pub mod Reconcile
pub mod Scan
pub mod Outbox
pub mod Artifacts
pub mod Review
pub mod Touches
pub mod Lifecycle
pub mod Operator
pub mod History

-- ===== src/Pipeline.antt =====
-- The distributed pipeline around the engine: internal/events, internal/store, internal/train's
-- file framing, and internal/coordinator.
pub mod Events
pub mod Store
pub mod Framing
pub mod Coordinator
pub mod Worker

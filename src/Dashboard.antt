-- ===== src/Dashboard.antt =====
-- internal/dashboard: what it remembers of the pipeline.
pub mod History
pub mod Watch
pub mod Examples

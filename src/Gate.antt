-- ===== src/Gate.antt =====
-- internal/gate: matches between two networks, and the test that decides on a candidate.
pub mod Match
pub mod Runner
pub mod Report
mod Games
pub mod Examples

-- ===== src/Search.antt =====
-- internal/search: the transposition table that the search threads share.
pub mod Mate
pub mod Entry
pub mod Table
pub mod Examples

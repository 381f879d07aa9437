-- ===== src/Normalize.antt =====
-- The keys by which listings of different sources are compared (src/normalize).
pub mod Titles
pub mod Trigrams
pub mod Applications

-- ===== src/Dedupe.antt =====
-- Opportunities and the listings they consist of (src/dedupe).
pub mod Resolution
pub mod Scoring

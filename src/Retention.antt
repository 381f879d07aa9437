-- ===== src/Retention.antt =====
-- The retention job (src/retention): what is old enough, and what may be deleted.
pub mod Clusters

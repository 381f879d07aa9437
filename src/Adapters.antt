-- ===== src/Adapters.antt =====
-- What the crawlers of all sources share (src/adapters).
pub mod RunAnomalies
pub mod Refetch

-- ===== src/Listings.antt =====
-- The source listings of the database (src/db): their rows, and what the crawl's writers and its
-- reconciliation do to them.
pub mod Model
pub mod Reconcile
pub mod Writers

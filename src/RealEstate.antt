-- ===== src/RealEstate.antt =====
-- The catalogue of property listings (src/realestate).
pub mod Expiry
pub mod Grouping
pub mod Streets

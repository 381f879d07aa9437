-- ===== src/Hermes.antt =====
-- The messages to the owner's assistant (src/hermes).
pub mod Delivery
pub mod Hook
pub mod ProxyWatch

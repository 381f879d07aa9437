-- ===== src/Net.antt =====
-- Reaching a source (src/net, with src/domain/ip-policy.ts): which addresses may be connected to,
-- how requests are paced, and how a run waits for its proxy.
pub mod Bits
pub mod IpPolicy
pub mod RateLimiter
pub mod ProxyRecovery
pub mod HttpFetcher
pub mod SsrfLookup

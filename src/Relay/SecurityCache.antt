-- ===== src/Relay/SecurityCache.antt =====
-- apps/relay/src/security-cache.ts: the bounded LRU cache and the cache of security denials on it.
pub mod Bounded
pub mod Denials

-- ===== src/Relay.antt =====
-- apps/relay/src
pub mod SecurityCache
mod Tests

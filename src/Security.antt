-- ===== src/Security.antt =====
-- packages/security-state/src
pub mod AudioMeter
mod Tests

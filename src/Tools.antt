-- ===== src/Tools.antt =====
-- tools
pub mod WordErrorRate
mod Tests

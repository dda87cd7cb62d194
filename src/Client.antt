-- ===== src/Client.antt =====
-- apps/g2-client/src
pub mod State
pub mod Display
mod Tests

-- ===== src/Client/Display.antt =====
-- apps/g2-client/src/display
pub mod Scheduler
mod Tests

-- ===== src/Audio.antt =====
-- packages/audio/src
pub mod Slots
pub mod Framer
pub mod Queue
pub mod Acceptor
pub mod Delivery
mod Tests

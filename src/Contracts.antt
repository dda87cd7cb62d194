-- ===== src/Contracts.antt =====
-- packages/contracts/src
pub mod Constants
pub mod Uuid
pub mod AudioFrame

-- ===== src/Signaling.antt =====
-- apps/server/src/signaling: the gateway between the sockets and the session registry.
pub mod Payloads
pub mod Turn
pub mod Gateway
pub mod System
mod Tests

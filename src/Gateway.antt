-- ===== src/Gateway.antt =====
-- The gateway module (src/modules/gateway).
pub mod Burst
pub mod Target
pub mod Messages
pub mod Requests
pub mod Dispatch

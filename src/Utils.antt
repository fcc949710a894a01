-- ===== src/Utils.antt =====
-- Shared services of the lanes, src/utils/.
pub mod PacketClaims
pub mod Outcomes
pub mod Consumer

-- ===== src/Mitra.antt =====
-- The integration with the remote interview service (backend/app/integrations/mitra).
pub mod Frame
pub mod Coercions
pub mod Options
pub mod Envelopes
pub mod FrameParser
pub mod TurnRecovery
pub mod Channel
pub mod Pool
pub mod Rest
mod Examples

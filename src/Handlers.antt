-- ===== src/Handlers.antt =====
-- The handlers of a turn (backend/app/agents).
pub mod RemoteFlow

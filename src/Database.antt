-- ===== src/Database.antt =====
-- The tables of backend/app/models/orm.py that the services read and write, and the statements
-- they are read and written by. A UUID is a natural number; `fresh` is the next one to be
-- generated. `now` is the time of the current transaction.
mod Rows
pub mod Tables
pub mod Sessions
pub mod Selects
pub mod Constraints
pub mod Conversations
pub mod Messages
pub mod Tools
pub mod Stable
pub mod Titles
pub mod Transcript
pub mod Ascending
pub mod Paging
pub mod Log
mod Examples
pub use Rows.{
  SessionState, pending, authenticating, in_progress, awaiting_user, finalizing, completed, failed,
  abandoned, AgentSession, is_terminal, state_index, ConversationStatus, active, archived,
  Conversation, Role, user, assistant, Message, AuditAction, session_finalize, session_abandon,
  AuditEntry, Db,
}

-- ===== src/Database/Rows.antt =====
-- The rows.
use saarathi.Common.{ℕ, Text, Bool, true, false, Option, List}
use saarathi.Python.{ℤ, Json}

-- `SessionState` and `SessionStateEnum`
pub data SessionState : Type 0 where
  pending authenticating in_progress awaiting_user finalizing completed failed abandoned :
      SessionState

-- `TERMINAL` and `_TERMINAL`
abbrev pub is_terminal : SessionState → Bool
is_terminal completed = true
is_terminal failed = true
is_terminal abandoned = true
is_terminal _ = false

abbrev pub state_index : SessionState → ℕ
state_index pending = 0
state_index authenticating = 1
state_index in_progress = 2
state_index awaiting_user = 3
state_index finalizing = 4
state_index completed = 5
state_index failed = 6
state_index abandoned = 7

-- `AgentSession`, `AgentSessionDTO`
pub record AgentSession : Type 0 where
  pub id : ℕ
  pub conversation_id : ℕ
  pub agent_id : ℕ
  pub state : SessionState
  pub remote_provider : Option Text
  pub remote_session_id : Option Text
  pub remote_profile_id : Option Text
  pub remote_flow : Option Text
  pub remote_bot_route : Option Text
  pub language : Text
  pub step : ℤ
  pub turn_count : ℕ
  pub result_ref : Option Text
  pub report_url : Option Text
  pub error : Option Text
  pub error_code : Option Text
  pub state_data : Json
  pub started_at : ℕ
  pub last_activity_at : ℕ
  pub finalized_at : Option ℕ
  pub ended_at : Option ℕ

pub data ConversationStatus : Type 0 where
  active archived : ConversationStatus

-- `title_is_placeholder` is the one key of `metadata` that the program writes.
pub record Conversation : Type 0 where
  pub id : ℕ
  pub tenant_code : Text
  pub organization_id : Option Text
  pub external_user_id : Text
  pub title : Option Text
  pub status : ConversationStatus
  pub pinned_agent_id : Option ℕ
  pub locale : Text
  pub message_count : ℕ
  pub title_is_placeholder : Bool
  pub last_message_at : Option ℕ
  pub created_at : ℕ

pub data Role : Type 0 where
  user assistant : Role

-- The columns of a message that later turns read.
pub record Message : Type 0 where
  pub id : ℕ
  pub conversation_id : ℕ
  pub seq : ℕ
  pub role : Role
  pub content : Text
  pub agent_id : Option ℕ
  pub agent_session_id : Option ℕ
  pub created_at : ℕ

pub data AuditAction : Type 0 where
  session_finalize session_abandon : AuditAction

pub record AuditEntry : Type 0 where
  pub action : AuditAction
  pub entity_id : ℕ
  pub actor : Text
  pub before : Option AgentSession
  pub after : Option AgentSession
  pub note : Option Text

pub record Db : Type 0 where
  pub sessions : List AgentSession
  pub conversations : List Conversation
  pub messages : List Message
  pub audit : List AuditEntry
  pub fresh : ℕ
  pub now : ℕ

-- ===== src/Agents/Spec.antt =====
-- The records of backend/app/domain/agent_spec.py, backend/app/domain/core.py and
-- `RegisteredAgent`. A float is the 64 bits of a double.
use saarathi.Common.{ℕ, Text, codes, Bool, Option, none, some, List}

pub record RoutingSpec : Type 0 where
  pub keywords : List Text
  pub priority : ℕ
  pub pin_session : Bool
  pub exit_keywords : List Text
  pub confidence_threshold : ℕ
  pub router_selectable : Bool
  pub direct_selectable : Bool

pub data Strategy : Type 0 where
  recent nothing : Strategy

pub record MemorySpec : Type 0 where
  pub strategy : Strategy
  pub history_turns : ℕ
  pub include_other_agents : Bool

pub record LimitsSpec : Type 0 where
  pub max_tool_iterations : ℕ
  pub max_turns : Option ℕ
  pub rate_limit_per_conversation_per_min : ℕ
  pub rate_limit_per_user_per_min : ℕ

pub record OrgMembership : Type 0 where
  pub org_id : Text
  pub org_code : Text
  pub roles : List Text

pub record UserContext : Type 0 where
  pub user_id : Text
  pub email : Text
  pub display_name : Text
  pub tenant_code : Text
  pub orgs : List OrgMembership
  pub active_org_id : Option Text
  pub locale : Text
  pub token : Option Text

pub record AccessSpec : Type 0 where
  pub tenant_codes : List Text
  pub organization_codes : List Text
  pub required_roles : List Text
  pub allow_anonymous : Bool

pub record HandshakeSpec : Type 0 where
  pub settle_ms : ℕ
  pub ack_types : List Text
  pub timeout_ms : ℕ

pub record TurnSpec : Type 0 where
  pub first_turn_timeout_ms : ℕ
  pub turn_timeout_ms : ℕ
  pub idle_gap_ms : ℕ

pub record RemoteSpec : Type 0 where
  pub flow_name : Text
  pub bot_route_env : Text
  pub company_env : Text
  pub default_language : Text
  pub handshake : HandshakeSpec
  pub turn : TurnSpec
  pub completion_poll_every_turn : Bool
  pub finalize_path : Text
  pub finalize_as_guest : Bool
  pub report_media_type : Text

-- `LlmAgentSpec` or `RemoteFlowAgentSpec`
pub data AgentType : Type 0 where
  llm : AgentType
  remote_flow : RemoteSpec → AgentType

pub record AgentSpec : Type 0 where
  pub agent_type : AgentType
  pub capabilities : List Text
  pub routing : RoutingSpec
  pub memory : MemorySpec
  pub limits : LimitsSpec
  pub access : AccessSpec
  pub record_tool_executions : Bool

pub record RegisteredAgent : Type 0 where
  pub id : ℕ
  pub key : Text
  pub name : Text
  pub description : Text
  pub agent_type : Text
  pub is_default : Bool
  pub checksum : Text
  pub spec : AgentSpec

-- `getattr(spec, "remote", None)`
abbrev pub remote_of : AgentType → Option RemoteSpec
remote_of llm = none
remote_of (remote_flow remote) = some remote

abbrev pub default_language_of : Option RemoteSpec → Text
default_language_of none = codes "en"
default_language_of (some remote) = remote.default_language

-- ===== src/Sessions/Sample.antt =====
-- Rows and agents for the tests of the session service and of the orchestration.
use saarathi.Common.{ℕ, codes, Bool, true, false, none, some, []}
use saarathi.Python.{pos, dict, end}
use saarathi.Database.{SessionState, AgentSession, Conversation, active}
use saarathi.Agents.{RegisteredAgent, AgentType, recent}

abbrev pub session : ℕ → ℕ → SessionState → AgentSession
session i agent state = record {
  id = i;
  conversation_id = 7;
  agent_id = agent;
  state = state;
  remote_provider = none;
  remote_session_id = some (codes "r");
  remote_profile_id = none;
  remote_flow = none;
  remote_bot_route = none;
  language = codes "en";
  step = pos 0;
  turn_count = 2;
  result_ref = none;
  report_url = none;
  error = none;
  error_code = none;
  state_data = dict end;
  started_at = 5;
  last_activity_at = 10;
  finalized_at = none;
  ended_at = none;
}

abbrev pub conversation : Conversation
conversation = record {
  id = 7;
  tenant_code = codes "t";
  organization_id = none;
  external_user_id = codes "u";
  title = none;
  status = active;
  pinned_agent_id = some 1;
  locale = codes "en";
  message_count = 2;
  title_is_placeholder = false;
  last_message_at = none;
  created_at = 3;
}

abbrev pub agent_of : AgentType → ℕ → Bool → RegisteredAgent
agent_of kind i pins = record {
  id = i;
  key = codes "a";
  name = codes "A";
  description = codes "d";
  is_default = false;
  agent_type = codes "llm";
  checksum = codes "c";
  spec = record {
    agent_type = kind;
    capabilities = [];
    routing = record {
      keywords = [];
      priority = 0;
      pin_session = pins;
      exit_keywords = [];
      confidence_threshold = 0;
      router_selectable = true;
      direct_selectable = true;
    };
    memory = record { strategy = recent; history_turns = 5; include_other_agents = false };
    limits = record {
      max_tool_iterations = 1;
      max_turns = none;
      rate_limit_per_conversation_per_min = 1;
      rate_limit_per_user_per_min = 1;
    };
    access = record {
      tenant_codes = [];
      organization_codes = [];
      required_roles = [];
      allow_anonymous = true;
    };
    record_tool_executions = false;
  };
}

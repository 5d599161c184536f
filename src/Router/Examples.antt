-- ===== src/Router/Examples.antt =====
-- Tests of the router, and its theorems at a concrete registry.
use saarathi.Common.{
  ℕ, Text, String, codes, Bool, true, false, Option, none, some, List, [], ◌∷◌, ◌≡◌, refl, strip,
  text_eq, strip_chars, ltrim, is_space, words, join, contains, is_prefix, keep, leb, find,
}
use saarathi.Python.{Json, str, dict, field, end, float}
use saarathi.Python.Ascii.{ascii}
use saarathi.Exec.{Outcome, returned, raises, runtime_error, agent_not_found}
use saarathi.Database.{Conversation, active}
use saarathi.Database.Sessions.{table_ok}
use saarathi.Sessions.Consistent.{Consistent, distinct_ids, ids_below}
use saarathi.Agents.{RegisteredAgent, recent, llm}
use saarathi.Registry.{Registry}
use saarathi.Router.{
  RouterState, RouteDecision, decide, keyword, pinned, select, is_exit, normalise_command,
}
use saarathi.Router.Cases.{Route}
use saarathi.Router.Routes.{select-Route}

abbrev agent : ℕ → String → String → List Text → Bool → RegisteredAgent
agent id key kw tenants default = record {
  id = id;
  key = codes key;
  name = codes key;
  description = codes "d";
  is_default = default;
  agent_type = codes "llm";
  checksum = codes "c";
  spec = record {
    agent_type = llm;
    capabilities = [];
    routing = record {
      keywords = codes kw ∷ [];
      priority = 1;
      pin_session = true;
      exit_keywords = codes "stop" ∷ codes "start over" ∷ [];
      confidence_threshold = 5;
      router_selectable = true;
      direct_selectable = true;
    };
    memory = record { strategy = recent; history_turns = 5; include_other_agents = false };
    limits = record {
      max_tool_iterations = 1;
      max_turns = none;
      rate_limit_per_conversation_per_min = 1;
      rate_limit_per_user_per_min = 1;
    };
    access = record {
      tenant_codes = tenants;
      organization_codes = [];
      required_roles = [];
      allow_anonymous = true;
    };
    record_tool_executions = false;
  };
}

abbrev general : RegisteredAgent
general = agent 1 "general" "help" [] true

abbrev stories : RegisteredAgent
stories = agent 2 "stories" "story" [] false

abbrev registry : Registry
registry = record {
  snapshot = (codes "general", general) ∷ (codes "stories", stories) ∷ [];
  legacy_names = [];
  version = 1;
  loaded_at = 0;
  max_updated_at = none;
}

abbrev conversation : Option ℕ → Conversation
conversation pin = record {
  id = 7;
  tenant_code = codes "t";
  organization_id = none;
  external_user_id = codes "u";
  title = none;
  status = active;
  pinned_agent_id = pin;
  locale = codes "en";
  message_count = 2;
  title_is_placeholder = false;
  last_message_at = none;
  created_at = 3;
}

abbrev state : RouterState
state = record {
  db = record { sessions = []; conversations = []; messages = []; audit = []; fresh = 0; now = 0 };
  calls = [];
}

state-Consistent : Consistent state.db
unfolding table_ok distinct_ids ids_below
state-Consistent = record { constraints = refl; distinct = refl; below = refl }

abbrev answer : Text → Outcome Json
answer raw =
    returned (dict (field (codes "agent_key") (str raw) (field (codes "confidence") (float 7) end)))

abbrev number : Json → Outcome ℕ
number (float bits) = returned bits
number _ = raises (runtime_error (codes "TypeError"))

abbrev route : Option ℕ → String → Option Text → Outcome RouteDecision × RouterState
route pin text key =
    select ascii registry (λ _. returned (codes "stories")) answer number (λ a b. leb b a)
      (conversation pin) (codes text) none key state

test_pinned : route (some 2) "hello" none ≡ (returned (decide stories pinned), state)
unfolding select find join words strip_chars ltrim strip text_eq is_space normalise_command
test_pinned = refl

test_unknown :
    route none "hello" (some (codes "poems")) ≡ (raises (agent_not_found (codes "poems")), state)
unfolding select text_eq
test_unknown = refl

test_keyword : route none "A STORY" none ≡ (returned (decide stories keyword), state)
unfolding select keep contains is_prefix
test_keyword = refl

-- the message is the command, or it only contains it
test_exit : is_exit ascii (codes " Start  over! ") (codes "stop" ∷ codes "start over" ∷ []) ≡ true
unfolding is_exit normalise_command strip strip_chars ltrim is_space words join text_eq
test_exit = refl

test_no_exit : is_exit ascii (codes "Children stopped coming") (codes "stop" ∷ []) ≡ false
unfolding is_exit normalise_command strip strip_chars ltrim is_space words join text_eq
test_no_exit = refl

select-Route_example :
    Route ascii registry
      (λ _. returned (codes "stories"))
      answer
      number
      (λ a b. leb b a)
      (conversation none)
      (codes "tell a story")
      none
      none
      state
      (select ascii registry
        (λ _. returned (codes "stories"))
        answer
        number
        (λ a b. leb b a)
        (conversation none)
        (codes "tell a story")
        none
        none
        state)
select-Route_example =
    select-Route ascii registry (λ _. returned (codes "stories")) answer number (λ a b. leb b a)
      (conversation none) (codes "tell a story") none none state state-Consistent

-- ===== src/Registry/Examples.antt =====
-- Tests of the registry, and its theorems at concrete tables.
use mathlib.Core.List.{Memᴰ}
use saarathi.Common.{
  codes, true, false, Option, none, some, List, [], ◌∷◌, ◌≡◌, refl, text_eq, keep, strip,
  strip_chars, ltrim, is_space, String,
}
use saarathi.Python.Ascii.{ascii}
use saarathi.Exec.{returned, raises, runtime_error}
use saarathi.Agents.{RegisteredAgent, recent, AgentSpec, llm}
use saarathi.Registry.{Registry, Row, reload, normalised_key, get_by_key_exact}
use saarathi.Registry.Scopes.{ScopedConfig, selected, resolve_for_scope, applies}
use saarathi.Registry.Isolation.{Permitted, Clean, no_entry, read, resolve_for_scope-Permitted}
use saarathi.Registry.Keyed.{Found, Poll, polls, new_registry, get_by_key_exact-Found}
use saarathi.Registry.Order.{selected-first}

abbrev spec : AgentSpec
spec = record {
  agent_type = llm;
  capabilities = [];
  routing = record {
    keywords = [];
    priority = 1;
    pin_session = true;
    exit_keywords = [];
    confidence_threshold = 5;
    router_selectable = true;
    direct_selectable = true;
  };
  memory = record { strategy = recent; history_turns = 5; include_other_agents = false };
  limits = record {
    max_tool_iterations = 1;
    max_turns = none;
    rate_limit_per_conversation_per_min = 1;
    rate_limit_per_user_per_min = 1;
  };
  access = record {
    tenant_codes = [];
    organization_codes = [];
    required_roles = [];
    allow_anonymous = true;
  };
  record_tool_executions = false;
}

abbrev row : Option AgentSpec → Row
row config = record {
  id = 1;
  key = codes "general";
  name = codes "General";
  description = codes "d";
  is_default = true;
  updated_at = 4;
  agent_type = codes "llm";
  checksum = codes "c";
  config = config;
}

abbrev empty : Registry
empty = record {
  snapshot = [];
  legacy_names = [];
  version = 0;
  loaded_at = 0;
  max_updated_at = none;
}

abbrev agent : RegisteredAgent
agent = record {
  id = 1;
  key = codes "general";
  name = codes "General";
  description = codes "d";
  is_default = true;
  agent_type = codes "llm";
  checksum = codes "c";
  spec = spec;
}

-- a configuration that does not validate keeps the snapshot
test_reload : reload (returned (row (some spec) ∷ row none ∷ [])) 9 empty ≡ empty
unfolding reload text_eq
test_reload = refl

test_key :
    get_by_key_exact ascii
      (codes " \"General\". ")
      (reload (returned (row (some spec) ∷ [])) 9 empty)
    ≡ some agent
unfolding get_by_key_exact reload text_eq strip strip_chars ltrim is_space
test_key = refl

abbrev scoped : String → String → ScopedConfig
scoped tenant organization = record {
  agent_id = 1;
  is_active = true;
  tenant_id = codes tenant;
  organization_id = codes organization;
  scoped_checksum = codes tenant;
  scoped_config = some spec;
}

abbrev table : List ScopedConfig
table = scoped "acme" "default" ∷ scoped "default" "north" ∷ scoped "other" "north" ∷ []

-- the row of the default tenant wins, since it names the organization
test_selected :
    selected agent (codes "acme") (codes "north") table ≡ some (scoped "default" "north")
unfolding selected text_eq keep
test_selected = refl

test_applies : applies 1 (codes "acme") (codes "north") (scoped "acme" "default") ≡ true
unfolding applies text_eq
test_applies = refl

selected-first_example :
    (Memᴰ (scoped "default" "north") table
      × (applies 1 (codes "acme") (codes "north") (scoped "default" "north") ≡ true))
    × (text_eq (codes "default") (codes "north") ≡ true
        → text_eq (codes "north") (codes "north") ≡ true)
    × (text_eq (codes "default") (codes "north") ≡ text_eq (codes "north") (codes "north")
        → text_eq (codes "acme") (codes "acme") ≡ true
        → text_eq (codes "default") (codes "acme") ≡ true)
selected-first_example =
    selected-first agent (codes "acme") (codes "north") table (scoped "default" "north")
      (scoped "acme" "default") test_selected (Memᴰ.head refl) test_applies

abbrev Known : RegisteredAgent → Type 0
Known a = a ≡ agent

abbrev InTable : ScopedConfig → Type 0
InTable r = Memᴰ r table

resolve_for_scope-Permitted_example :
    Permitted Known InTable
      (codes "acme")
      (codes "north")
      (resolve_for_scope empty (returned table) agent (codes "acme") (codes "north") []).0
    × Clean Known InTable
        (resolve_for_scope empty (returned table) agent (codes "acme") (codes "north") []).1
resolve_for_scope-Permitted_example =
    resolve_for_scope-Permitted Known InTable empty (returned table) agent (codes "acme")
      (codes "north") [] refl (read table (λ r m. m)) no_entry

-- a reload, and one that fails
abbrev history : List Poll
history =
    record { db_max = returned (some 4); rows = returned (row (some spec) ∷ []); now = 70 }
    ∷ record { db_max = returned (some 5); rows = raises (runtime_error (codes "gone")); now = 140 }
    ∷ []

get_by_key_exact-Found_example :
    Found
      (normalised_key ascii (codes " General."))
      (get_by_key_exact ascii (codes " General.") (polls 60 history new_registry))
get_by_key_exact-Found_example = get_by_key_exact-Found ascii 60 history (codes " General.")

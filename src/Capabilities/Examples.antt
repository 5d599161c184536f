-- ===== src/Capabilities/Examples.antt =====
-- Tests of the capability service, and its theorem at concrete tables.
use mathlib.Core.List.{Memᴰ}
use saarathi.Common.{
  ℕ, ◌≤◌, Text, codes, Bool, true, false, none, some, [], ◌∷◌, map, ◌≡◌, refl, keep, mem_text,
  text_eq,
}
use saarathi.Python.{end}
use saarathi.Exec.{Outcome, returned}
use saarathi.Agents.{AccessSpec}
use saarathi.Registry.Scopes.{ScopedConfig}
use saarathi.Orchestration.Sample.{caller}
use saarathi.Capabilities.{
  CapabilityRow, Tables, Capability, CapabilityStatus, shown, coming_soon, disabled, scope_of,
  in_scope, capability_rank, capability_of, resolve_for_user,
}
use saarathi.Capabilities.Offered.{Offered, resolve_for_user-Offered}

abbrev capability : ℕ → Text → Text → CapabilityStatus → CapabilityRow
capability id tenant key status = record {
  id = id;
  tenant_id = tenant;
  organization_id = codes "default";
  key = key;
  name = key;
  description = none;
  icon = none;
  badge = none;
  status = status;
  display_order = 1;
  metadata = end;
}

abbrev default_stories : CapabilityRow
default_stories = capability 1 (codes "default") (codes "stories") shown

abbrev own_stories : CapabilityRow
own_stories = capability 2 (codes "t") (codes "stories") coming_soon

abbrev config : ScopedConfig
config = record {
  agent_id = 5;
  is_active = true;
  tenant_id = codes "default";
  organization_id = codes "default";
  scoped_checksum = codes "c";
  scoped_config = none;
}

-- "polls" is switched off for the tenant "t"
abbrev tables : Tables
tables = record {
  capabilities =
      default_stories
      ∷ own_stories
      ∷ capability 3 (codes "default") (codes "polls") shown
      ∷ capability 4 (codes "t") (codes "polls") disabled
      ∷ [];
  members =
      record {
        capability_id = 2;
        agent_id = 5;
        label_override = none;
        agent_order = 1;
        is_visible = true;
        agent_metadata = end;
      }
      ∷ [];
  agents =
      record {
        row_id = 5;
        agent_key = codes "story";
        agent_name = codes "Story";
        agent_description = none;
        agent_icon = none;
        is_enabled = true;
      }
      ∷ [];
  configs = config ∷ [];
}

abbrev collate : Text → Text → Bool
collate a b = true

abbrev open_access : ScopedConfig → Outcome AccessSpec
open_access c = returned (record {
  tenant_codes = codes "t" ∷ [];
  organization_codes = [];
  required_roles = [];
  allow_anonymous = false;
})

abbrev offered : Capability
offered =
    capability_of collate open_access tables (some caller) (codes "t") (codes "default") own_stories

offered_lem : resolve_for_user collate open_access tables (some caller) ≡ offered ∷ []
unfolding resolve_for_user capability_of mem_text text_eq keep
offered_lem = refl

-- without an identity the rows of the default tenant are seen, and no agent that needs one
test_anonymous :
    map (λ (c : Capability). c.capability_key) (resolve_for_user collate open_access tables none)
    ≡ codes "stories" ∷ codes "polls" ∷ []
unfolding resolve_for_user mem_text text_eq keep
test_anonymous = refl

resolve_for_user-Offered_example :
    (row : CapabilityRow) × Offered collate open_access tables
      (some caller)
      (codes "t")
      (codes "default")
      offered
      row
    × (capability_rank collate open_access tables (some caller) (codes "t") (codes "default") row
        ≤ capability_rank collate open_access tables
            (some caller)
            (codes "t")
            (codes "default")
            default_stories)
unfolding in_scope text_eq scope_of capability_of
resolve_for_user-Offered_example =
    resolve_for_user-Offered collate open_access tables (some caller) offered default_stories
      (rw offered_lem (Memᴰ.head refl)) (Memᴰ.head refl) refl refl

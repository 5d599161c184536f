-- ===== src/Capabilities.antt =====
-- backend/app/services/capability_service.py: the capabilities of the sidebar, as a tenant and an
-- organization see them. The order of texts in the database is the parameter `collate`, and reading
-- the access rules out of a configuration is the parameter `access_of`.
mod Rows
pub mod Sorted
pub mod Members
pub mod Winners
pub mod Offered
mod Examples
pub use Rows.{
  CapabilityStatus, shown, coming_soon, disabled, CapabilityRow, CapabilityAgent, AgentRow, Tables,
  AgentItem, Capability, status_out, is_disabled,
}
use saarathi.Common.{
  ℕ, ◌+◌, ◌*◌, Text, codes, Bool, true, false, not, ◌&&◌, ◌||◌, Option, none, some, List, [], ◌∷◌,
  map, keep, find, is_empty, text_eq, mem_text, leb, ◌==◌, if◌then◌else◌,
}
use saarathi.Python.{Json, dict, str, Fields, field, end, get, truthy}
use saarathi.Exec.{Outcome, returned, raises}
use saarathi.Agents.{AccessSpec, UserContext}
use saarathi.Agents.Access.{matches}
use saarathi.Registry.Scopes.{ScopedConfig, default_scope, in_or_default, mismatch, rank}
use saarathi.Selection.{least}

-- `v or "default"`, `v or ""`
abbrev or_else_default : Text → Text
or_else_default t = if is_empty t then default_scope else t

abbrev scope_text : Option Text → Text
scope_text none = default_scope
scope_text (some t) = or_else_default t

abbrev pub or_blank : Option Text → Text
or_blank none = []
or_blank (some t) = t

-- `_scope`
unfoldable pub scope_of : Option UserContext → Text × Text
scope_of none = (default_scope, default_scope)
scope_of (some user) = (or_else_default user.tenant_code, scope_text user.active_org_id)

-- `_action_from`; `metadata` without a value has no fields
unfoldable pub action_from : Fields → Text → Fields
unfolding get truthy
action_from metadata fallback =
    let default = field (codes "type") (str fallback) end in
    elim (get (codes "action") metadata) [
      | dict action ↦ if truthy (get (codes "type") action) then action else default
      | _ ↦ default
    ]

-- `{**fields, key: value}`
unfoldable pub with_field : Text → Json → Fields → Fields
with_field key value end = field key value end
with_field key value (field k v fs) =
    let rest = with_field key value fs in if text_eq k key then field k value fs else field k v rest

module _ {A : Type 0} where
  -- `ORDER BY`: a row stays before those that it may not follow
  unfoldable pub insert_sorted : (A → A → Bool) → A → List A → List A
  insert_sorted le a [] = a ∷ []
  insert_sorted le a (b ∷ bs) =
      let rest = insert_sorted le a bs in if le a b then a ∷ b ∷ bs else b ∷ rest

  unfoldable pub sorted : (A → A → Bool) → List A → List A
  unfolding insert_sorted
  sorted le [] = []
  sorted le (a ∷ rows) = insert_sorted le a (sorted le rows)

module _ (collate : Text → Text → Bool) (access_of : ScopedConfig → Outcome AccessSpec)
    (tables : Tables) (user : Option UserContext) (tenant organization : Text) where
  -- `_CAPABILITIES_SQL`
  unfoldable pub in_scope : CapabilityRow → Bool
  in_scope row =
      in_or_default tenant row.tenant_id && in_or_default organization row.organization_id

  unfoldable pub capability_rank : CapabilityRow → ℕ
  capability_rank row =
      2 * mismatch row.organization_id organization + mismatch row.tenant_id tenant

  abbrev pub candidates : Text → List CapabilityRow
  unfolding keep in_scope text_eq
  candidates key = keep (λ row. in_scope row && text_eq row.key key) tables.capabilities

  -- `DISTINCT ON (c.key)`
  unfoldable pub winner : Text → Option CapabilityRow
  unfolding least capability_rank candidates
  winner key = least capability_rank (candidates key)

  unfoldable pub distinct_keys : List CapabilityRow → List Text
  unfolding mem_text
  distinct_keys [] = []
  distinct_keys (row ∷ rows) =
      let rest = distinct_keys rows in if mem_text row.key rest then rest else row.key ∷ rest

  -- the winners that are not disabled
  unfoldable pub winners : List Text → List CapabilityRow
  unfolding winner
  winners [] = []
  winners (key ∷ keys) =
      let rest = winners keys in
      elim (winner key) [
        | none ↦ rest
        | some row ↦ if is_disabled row.status then rest else row ∷ rest
      ]

  abbrev by_order : CapabilityRow → CapabilityRow → Bool
  by_order a b =
      if a.display_order == b.display_order
      then collate a.key b.key
      else leb a.display_order b.display_order

  unfoldable pub capability_rows : List CapabilityRow
  unfolding sorted winners distinct_keys keep in_scope
  capability_rows = sorted by_order (winners (distinct_keys (keep in_scope tables.capabilities)))

  -- the LATERAL subquery of `_AGENTS_SQL`
  unfoldable pub config_applies : ℕ → ScopedConfig → Bool
  config_applies agent_id row =
      (row.agent_id == agent_id)
      && (row.is_active
          && (in_or_default tenant row.tenant_id && in_or_default organization row.organization_id))

  unfoldable pub config_for : ℕ → Option ScopedConfig
  unfolding least rank keep config_applies
  config_for agent_id =
      least (rank tenant organization) (keep (config_applies agent_id) tables.configs)

  -- `_access_permits`
  unfoldable pub access_permits : ScopedConfig → Bool
  unfolding matches
  access_permits config = elim (access_of config) [
    | raises e ↦ false
    | returned access ↦ matches access user
  ]

  -- a member with its agent and its configuration
  unfoldable pub joined : CapabilityAgent → Option (AgentRow × ScopedConfig)
  unfolding find config_for
  joined member = elim (find (λ a. (a.row_id == member.agent_id) && a.is_enabled) tables.agents) [
    | none ↦ none
    | some agent ↦ elim (config_for agent.row_id) [
      | none ↦ none
      | some config ↦ some (agent, config)
    ]
  ]

  abbrev pub label_of : Option Text → Text → Text
  label_of none name = name
  label_of (some label) name = label

  abbrev pub item_of : CapabilityAgent → AgentRow → AgentItem
  unfolding action_from with_field
  item_of member agent = record {
    item_key = agent.agent_key;
    label = label_of member.label_override agent.agent_name;
    item_description = or_blank agent.agent_description;
    item_icon = or_blank agent.agent_icon;
    item_order = member.agent_order;
    item_action =
        with_field (codes "agentKey") (str agent.agent_key)
          (action_from member.agent_metadata (codes "start_agent"));
  }

  -- the rows of `_AGENTS_SQL` that gate 4 lets through
  unfoldable pub permitted_items : List CapabilityAgent → List AgentItem
  unfolding joined access_permits item_of
  permitted_items [] = []
  permitted_items (member ∷ members) =
      let rest = permitted_items members in
      elim (joined member) [
        | none ↦ rest
        | some (agent, config) ↦ if access_permits config then item_of member agent ∷ rest else rest
      ]

  abbrev by_agent : AgentItem → AgentItem → Bool
  by_agent a b =
      if a.item_order == b.item_order
      then collate a.item_key b.item_key
      else leb a.item_order b.item_order

  unfoldable pub items_of : ℕ → List AgentItem
  unfolding sorted permitted_items keep
  items_of capability_id = sorted by_agent (
      permitted_items
        (keep (λ m. (m.capability_id == capability_id) && m.is_visible) tables.members))

  unfoldable pub capability_of : CapabilityRow → Capability
  unfolding items_of action_from
  capability_of row = record {
    capability_key = row.key;
    title = row.name;
    capability_description = or_blank row.description;
    capability_icon = or_blank row.icon;
    capability_badge = row.badge;
    capability_status = status_out row.status;
    order = row.display_order;
    action = action_from row.metadata (codes "display_card");
    items = items_of row.id;
  }

  unfoldable pub document : List Capability
  unfolding capability_rows capability_of
  document = map capability_of capability_rows

-- the list `capabilities` of the document
unfoldable pub resolve_for_user :
    (Text → Text → Bool)
    → (ScopedConfig → Outcome AccessSpec)
    → Tables
    → Option UserContext
    → List Capability
unfolding document scope_of
resolve_for_user collate access_of tables user =
    let (tenant, organization) = scope_of user in
    document collate access_of tables user tenant organization

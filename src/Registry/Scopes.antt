-- ===== src/Registry/Scopes.antt =====
-- `AgentRegistry.resolve_for_scope`: an agent as a tenant and an organization see it. The rows of
-- the table come from a query that may fail; the cache is a list of entries, the last one first.
use saarathi.Common.{
  ℕ, ◌+◌, ◌*◌, Text, codes, Bool, not, ◌&&◌, ◌||◌, Option, none, some, List, [], ◌∷◌, keep, find,
  is_empty, text_eq, leb, length, ◌==◌, if◌then◌else◌,
}
use saarathi.Selection.{least}
use saarathi.Exec.{Outcome, returned, raises}
use saarathi.Agents.{AgentSpec, RegisteredAgent}
use saarathi.Registry.{Registry}

-- A row of `agent_configs`.
pub record ScopedConfig : Type 0 where
  pub agent_id : ℕ
  pub is_active : Bool
  pub tenant_id : Text
  pub organization_id : Text
  pub scoped_checksum : Text
  pub scoped_config : Option AgentSpec

abbrev pub default_scope : Text
default_scope = codes "default"

abbrev pub in_or_default : Text → Text → Bool
in_or_default scope value = text_eq value scope || text_eq value default_scope

-- the WHERE clause of `resolve_for_scope`
unfoldable pub applies : ℕ → Text → Text → ScopedConfig → Bool
applies agent_id tenant organization row =
    (row.agent_id == agent_id)
    && (row.is_active
        && (in_or_default tenant row.tenant_id
            && (in_or_default organization row.organization_id
                && not (
                    text_eq row.tenant_id default_scope
                    && text_eq row.organization_id default_scope))))

abbrev pub mismatch : Text → Text → ℕ
mismatch a b = if text_eq a b then 0 else 1

-- the ORDER BY clause: the organization first, then the tenant
unfoldable pub rank : Text → Text → ScopedConfig → ℕ
rank tenant organization row =
    2 * mismatch row.organization_id organization + mismatch row.tenant_id tenant

-- The key of the cache, and what it has.
pub record ScopeEntry : Type 0 where
  pub entry_version : ℕ
  pub entry_tenant : Text
  pub entry_organization : Text
  pub entry_agent_key : Text
  pub resolved : RegisteredAgent

abbrev pub scope_cache_max : ℕ
scope_cache_max = 512

abbrev pub is_entry : ℕ → Text → Text → Text → ScopeEntry → Bool
is_entry version tenant organization key entry =
    (entry.entry_version == version)
    && (text_eq entry.entry_tenant tenant
        && (text_eq entry.entry_organization organization && text_eq entry.entry_agent_key key))

abbrev pub with_config : RegisteredAgent → Text → AgentSpec → RegisteredAgent
with_config agent checksum spec = record agent { checksum = checksum; spec = spec }

-- `organization_id or DEFAULT_SCOPE`
abbrev pub or_default_scope : Text → Text
or_default_scope organization = if is_empty organization then default_scope else organization

-- the scoped agent, or None where the configuration does not validate
unfoldable pub configured : RegisteredAgent → Option ScopedConfig → Option RegisteredAgent
configured agent none = some agent
configured agent (some row) = elim row.scoped_config [
  | none ↦ none
  | some spec ↦ some (with_config agent row.scoped_checksum spec)
]

unfoldable pub selected : RegisteredAgent → Text → Text → List ScopedConfig → Option ScopedConfig
unfolding least applies rank
selected agent tenant organization rows =
    least (rank tenant organization) (keep (applies agent.id tenant organization) rows)

unfoldable pub remember :
    Registry
    → Text
    → Text
    → RegisteredAgent
    → List ScopeEntry
    → Option RegisteredAgent
    → RegisteredAgent × List ScopeEntry
remember registry tenant organization agent cache none = (agent, cache)
remember registry tenant organization agent cache (some resolved) =
    let entry : ScopeEntry = record {
      entry_version = registry.version;
      entry_tenant = tenant;
      entry_organization = organization;
      entry_agent_key = agent.key;
      resolved = resolved;
    } in
    (resolved, entry ∷ (if leb scope_cache_max (length cache) then [] else cache))

unfoldable pub query :
    Registry
    → RegisteredAgent
    → Text
    → Text
    → Outcome (List ScopedConfig)
    → List ScopeEntry
    → RegisteredAgent × List ScopeEntry
unfolding selected configured remember
query registry agent tenant organization (raises e) cache = (agent, cache)
query registry agent tenant organization (returned rows) cache =
    remember registry tenant organization agent cache
      (configured agent (selected agent tenant (or_default_scope organization) rows))

abbrev pub cached_or :
    Option ScopeEntry
    → RegisteredAgent × List ScopeEntry
    → List ScopeEntry
    → RegisteredAgent × List ScopeEntry
cached_or (some entry) computed cache = (entry.resolved, cache)
cached_or none computed cache = computed

unfoldable pub resolve_for_scope :
    Registry
    → Outcome (List ScopedConfig)
    → RegisteredAgent
    → Text
    → Text
    → List ScopeEntry
    → RegisteredAgent × List ScopeEntry
unfolding query
resolve_for_scope registry rows agent tenant organization cache =
    if is_empty tenant || text_eq tenant default_scope
    then (agent, cache)
    else cached_or (find (is_entry registry.version tenant organization agent.key) cache)
        (query registry agent tenant organization rows cache) cache

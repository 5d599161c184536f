-- ===== src/Registry.antt =====
-- backend/app/services/agent_registry.py: the cached snapshot of the enabled agents. A dict is its
-- list of items in insertion order. The rows come from a query, `Outcome` the rows or an error; the
-- validation of a row's configuration is a field of the row, empty if it fails. Times are natural
-- numbers.
pub mod Scopes
pub mod Order
pub mod Isolation
pub mod Keyed
mod Examples
use saarathi.Common.{
  ℕ, suc, ◌-◌, Text, codes, Bool, true, false, not, ◌||◌, Option, none, some, List, [], ◌∷◌, keep,
  find, is_empty, text_eq, strip, strip_chars, ltb, ◌==◌, if◌then◌else◌,
}
use saarathi.Python.{Runtime}
use saarathi.Exec.{Outcome, returned, raises, runtime_error}
use saarathi.Agents.{AgentSpec, RegisteredAgent}

module _ {A : Type 0} where
  -- `d[key] = value`
  unfoldable pub assign : Text → A → List (Text × A) → List (Text × A)
  assign key value [] = (key, value) ∷ []
  assign key value ((k, v) ∷ items) =
      let rest = assign key value items in
      if text_eq k key then (k, value) ∷ items else (k, v) ∷ rest

  -- `d.get(key)`
  unfoldable pub lookup : Text → List (Text × A) → Option A
  lookup key [] = none
  lookup key ((k, v) ∷ items) = if text_eq k key then some v else lookup key items

  -- `d.values()`
  unfoldable pub values : List (Text × A) → List A
  values [] = []
  values ((k, v) ∷ items) = v ∷ values items

pub record Row : Type 0 where
  pub id : ℕ
  pub key : Text
  pub name : Text
  pub description : Text
  pub agent_type : Text
  pub is_default : Bool
  pub updated_at : ℕ
  pub checksum : Text
  pub config : Option AgentSpec

pub record Registry : Type 0 where
  pub snapshot : List (Text × RegisteredAgent)
  pub legacy_names : List (Text × Text)
  pub version : ℕ
  pub loaded_at : ℕ
  pub max_updated_at : Option ℕ

abbrev pub latest : Option ℕ → ℕ → Option ℕ
latest none t = some t
latest (some max_ts) t = if ltb max_ts t then some t else some max_ts

abbrev pub registered : Row → AgentSpec → RegisteredAgent
registered row spec = record {
  id = row.id;
  key = row.key;
  name = row.name;
  description = row.description;
  agent_type = row.agent_type;
  is_default = row.is_default;
  checksum = row.checksum;
  spec = spec;
}

-- `new_snapshot`, `new_legacy` and `max_ts`
abbrev pub Load : Type 0
Load = List (Text × RegisteredAgent) × (List (Text × Text) × Option ℕ)

abbrev pub load_row : Row → Option AgentSpec → Load → Outcome Load
load_row row none load = raises (runtime_error (codes "validation"))
load_row row (some spec) (snapshot, (legacy, max_ts)) = returned (
  assign row.key (registered row spec) snapshot,
  (assign row.name row.key legacy, latest max_ts row.updated_at),
)

-- the loop over the rows
unfoldable pub load_rows : List Row → Load → Outcome Load
unfolding assign
load_rows [] load = returned load
load_rows (row ∷ rows) load = elim (load_row row row.config load) [
  | returned next ↦ load_rows rows next
  | raises e ↦ raises e
]

abbrev pub loaded : ℕ → Registry → Outcome Load → Registry
loaded now registry (raises e) = registry
loaded now registry (returned (snapshot, (legacy, max_ts))) = record {
  snapshot = snapshot;
  legacy_names = legacy;
  version = suc registry.version;
  loaded_at = now;
  max_updated_at = max_ts;
}

abbrev pub load_all : Outcome (List Row) → Outcome Load
unfolding load_rows
load_all (raises e) = raises e
load_all (returned rows) = load_rows rows ([], ([], none))

-- An error, of the query or of a row, keeps the cached snapshot.
unfoldable pub reload : Outcome (List Row) → ℕ → Registry → Registry
unfolding load_all
reload rows now registry = loaded now registry (load_all rows)

abbrev pub same_time : Option ℕ → Option ℕ → Bool
same_time none none = true
same_time (some a) (some b) = a == b
same_time _ _ = false

abbrev pub check : Outcome (Option ℕ) → Outcome (List Row) → ℕ → Registry → Registry
unfolding reload
check (raises e) rows now registry = registry
check (returned db_max) rows now registry =
    if not (same_time db_max registry.max_updated_at)
    then reload rows now registry
    else record registry { loaded_at = now }

unfoldable pub maybe_reload : ℕ → Outcome (Option ℕ) → Outcome (List Row) → ℕ → Registry → Registry
unfolding check
maybe_reload ttl db_max rows now registry =
    if ltb (now - registry.loaded_at) ttl then registry else check db_max rows now registry

unfoldable pub agents : Registry → List RegisteredAgent
unfolding values
agents registry = values registry.snapshot

unfoldable pub routable : Registry → List RegisteredAgent
unfolding agents
routable registry = keep (λ a. a.spec.routing.router_selectable) (agents registry)

abbrev pub key_strip_chars : List ℕ
key_strip_chars = codes "'\" .,!?;:"

abbrev pub among : List ℕ → ℕ → Bool
among [] c = false
among (d ∷ ds) c = (d == c) || among ds c

unfoldable pub normalised_key : Runtime → Text → Text
normalised_key rt key = strip_chars (among key_strip_chars) (rt.lower (strip key))

unfoldable pub get_by_key_exact : Runtime → Text → Registry → Option RegisteredAgent
unfolding lookup normalised_key
get_by_key_exact rt key registry =
    if is_empty key then none else lookup (normalised_key rt key) registry.snapshot

unfoldable pub get_by_id : ℕ → Registry → Option RegisteredAgent
unfolding agents
get_by_id id registry = find (λ a. a.id == id) (agents registry)

abbrev by_legacy_name : Option Text → Registry → Option RegisteredAgent
unfolding lookup
by_legacy_name none registry = none
by_legacy_name (some key) registry = if is_empty key then none else lookup key registry.snapshot

abbrev by_key : Option RegisteredAgent → Text → Registry → Option RegisteredAgent
unfolding lookup by_legacy_name
by_key (some agent) name registry = some agent
by_key none name registry = by_legacy_name (lookup name registry.legacy_names) registry

unfoldable pub get : Text → Registry → Option RegisteredAgent
unfolding by_key lookup
get key_or_legacy_name registry =
    by_key (lookup key_or_legacy_name registry.snapshot) key_or_legacy_name registry

unfoldable pub default : Registry → Option RegisteredAgent
unfolding agents
default registry = find (λ a. a.is_default) (agents registry)

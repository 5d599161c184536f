-- ===== src/Capabilities/Members.antt =====
-- The agents of a capability.
use mathlib.Core.List.{Memᴰ}
use saarathi.Common.{
  ℕ, Text, Bool, true, false, ◌&&◌, Option, none, some, List, [], ◌∷◌, keep, find, ◌==◌, ==_iff,
  if◌then◌else◌, ◌≡◌, refl, ap,
}
use saarathi.Exec.{Outcome}
use saarathi.Agents.{AccessSpec, UserContext}
use saarathi.Registry.Scopes.{ScopedConfig, rank}
use saarathi.Database.Selects.{find-Mem, find-holds}
use saarathi.Selection.{keep-Mem, least-Mem}
use saarathi.Capabilities.{
  CapabilityRow, CapabilityAgent, AgentRow, Tables, AgentItem, config_applies, config_for,
  access_permits, joined, item_of, permitted_items, items_of,
}
use saarathi.Capabilities.Sorted.{sorted-Mem, split_and}

module _ (collate : Text → Text → Bool) (access_of : ScopedConfig → Outcome AccessSpec)
    (tables : Tables) (user : Option UserContext) (tenant organization : Text) where
  -- an agent of a capability, with the four gates
  pub record Permitted (row : CapabilityRow) (item : AgentItem) : Type 0 where
    pub member : CapabilityAgent
    pub is_member : Memᴰ member tables.members
    pub of_capability : member.capability_id ≡ row.id
    pub visible : member.is_visible ≡ true
    pub agent : AgentRow
    pub is_agent : Memᴰ agent tables.agents
    pub same_agent : agent.row_id ≡ member.agent_id
    pub enabled : agent.is_enabled ≡ true
    pub config : ScopedConfig
    pub is_config : Memᴰ config tables.configs
    pub active :
        config_applies collate access_of tables user tenant organization agent.row_id config ≡ true
    pub permits : access_permits collate access_of tables user tenant organization config ≡ true
    pub is_item : item ≡ item_of collate access_of tables user tenant organization member agent

  joined-parts :
      (member : CapabilityAgent) (agent : AgentRow) (config : ScopedConfig)
      → joined collate access_of tables user tenant organization member ≡ some (agent, config)
      → (find (λ a. (a.row_id == member.agent_id) && a.is_enabled) tables.agents ≡ some agent)
        × (config_for collate access_of tables user tenant organization agent.row_id ≡ some config)
  unfolding joined
  joined-parts member agent config e =
      go (find (λ a. (a.row_id == member.agent_id) && a.is_enabled) tables.agents) e
    where
      conf : ℕ → Option ScopedConfig
      conf = config_for collate access_of tables user tenant organization

      next : (a : AgentRow) → Option ScopedConfig → Option (AgentRow × ScopedConfig)
      next a o = elim o [ none ↦ none | some config ↦ some (a, config) ]

      inner :
          (a : AgentRow) (o : Option ScopedConfig)
          → next a o ≡ some (agent, config)
          → (a ≡ agent) × (o ≡ some config)
      inner a none h = cc
      inner a (some c) h = (cc h, cc h)

      go :
          (o : Option AgentRow)
          → elim o [ none ↦ none | some a ↦ next a (conf a.row_id) ] ≡ some (agent, config)
          → (o ≡ some agent) × (conf agent.row_id ≡ some config)
      go none h = cc
      go (some a) h = let (x, y) = inner a (conf a.row_id) h in (ap some x, rw (← x) y)

  config_of :
      (agent_id : ℕ) (config : ScopedConfig)
      → config_for collate access_of tables user tenant organization agent_id ≡ some config
      → Memᴰ config tables.configs
        × (config_applies collate access_of tables user tenant organization agent_id config ≡ true)
  unfolding config_for
  config_of agent_id config e =
      keep-Mem (config_applies collate access_of tables user tenant organization agent_id)
        tables.configs config (least-Mem (rank tenant organization) _ config e)

  permitted_items-Mem :
      (row : CapabilityRow) (members : List CapabilityAgent) (item : AgentItem)
      → ((m : CapabilityAgent)
          → Memᴰ m members
          → Memᴰ m tables.members × (m.capability_id ≡ row.id) × (m.is_visible ≡ true))
      → Memᴰ item (permitted_items collate access_of tables user tenant organization members)
      → Permitted row item
  unfolding permitted_items
  permitted_items-Mem row [] item k m = elim m [ ]
  permitted_items-Mem row (member ∷ members) item k m =
      go (joined collate access_of tables user tenant organization member) refl m
        (permitted_items-Mem row members item (λ x n. k x (Memᴰ.tail n)))
    where
      rest : List AgentItem
      rest = permitted_items collate access_of tables user tenant organization members

      made :
          (agent : AgentRow) (config : ScopedConfig)
          → joined collate access_of tables user tenant organization member ≡ some (agent, config)
          → access_permits collate access_of tables user tenant organization config ≡ true
          → item ≡ item_of collate access_of tables user tenant organization member agent
          → Permitted row item
      made agent config e t s =
          let (f, c) = joined-parts member agent config e in
          let p : AgentRow → Bool = λ a. (a.row_id == member.agent_id) && a.is_enabled in
          let (same, on) = split_and _ _ (find-holds p tables.agents agent f) in
          let (there, owned, seen) = k member (Memᴰ.head refl) in
          let (at, act) = config_of agent.row_id config c in
          record {
            member = member;
            is_member = there;
            of_capability = owned;
            visible = seen;
            agent = agent;
            is_agent = find-Mem p tables.agents agent f;
            same_agent = (==_iff agent.row_id member.agent_id).0 same;
            enabled = on;
            config = config;
            is_config = at;
            active = act;
            permits = t;
            is_item = s;
          }

      choose :
          (agent : AgentRow) (config : ScopedConfig) (b : Bool)
          → joined collate access_of tables user tenant organization member ≡ some (agent, config)
          → access_permits collate access_of tables user tenant organization config ≡ b
          → Memᴰ item (
              if b
              then item_of collate access_of tables user tenant organization member agent ∷ rest
              else rest)
          → (Memᴰ item rest → Permitted row item)
          → Permitted row item
      choose agent config true e t (Memᴰ.head h) ih = made agent config e t h
      choose agent config true e t (Memᴰ.tail m) ih = ih m
      choose agent config false e t m ih = ih m

      go :
          (o : Option (AgentRow × ScopedConfig))
          → joined collate access_of tables user tenant organization member ≡ o
          → Memᴰ item (elim o [
            | none ↦ rest
            | some (agent, config) ↦
                if access_permits collate access_of tables user tenant organization config
                then item_of collate access_of tables user tenant organization member agent ∷ rest
                else rest
          ])
          → (Memᴰ item rest → Permitted row item)
          → Permitted row item
      go none e m ih = ih m
      go (some (agent, config)) e m ih =
          choose agent config
            (access_permits collate access_of tables user tenant organization config) e refl m ih

  pub items_of-Permitted :
      (row : CapabilityRow) (item : AgentItem)
      → Memᴰ item (items_of collate access_of tables user tenant organization row.id)
      → Permitted row item
  unfolding items_of
  items_of-Permitted row item m =
      let p : CapabilityAgent → Bool = λ m. (m.capability_id == row.id) && m.is_visible in
      permitted_items-Mem row (keep p tables.members) item
        (λ x n.
          let (there, t) = keep-Mem p tables.members x n in
          let (owned, seen) = split_and _ _ t in
          (there, (==_iff x.capability_id row.id).0 owned, seen))
        (sorted-Mem _ item _ m)

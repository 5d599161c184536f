-- ===== src/Registry/Isolation.antt =====
-- Whose configuration a tenant is served.
use mathlib.Core.List.{Memᴰ}
use saarathi.Common.{
  ℕ, Text, Bool, true, false, ◌||◌, Option, none, some, List, [], ◌∷◌, find, is_empty, text_eq,
  text_eq_iff, leb, length, ◌==◌, ==_iff, ◌≡◌, inl, inr, refl, arith, Bool-cases, if◌then◌else◌,
}
use saarathi.Exec.{Error, Outcome, returned, raises}
use saarathi.Agents.{AgentSpec, RegisteredAgent}
use saarathi.Registry.{Registry}
use saarathi.Registry.Scopes.{
  ScopedConfig, default_scope, in_or_default, applies, rank, ScopeEntry, is_entry, with_config,
  or_default_scope, configured, selected, remember, query, cached_or, resolve_for_scope,
  scope_cache_max,
}
use saarathi.Selection.{keep-Mem, least-Mem}

module _ (Base : RegisteredAgent → Type 0) (Table : ScopedConfig → Type 0) where
  -- What a tenant and an organization may be served: an agent as everyone sees it, or with the
  -- configuration of a row of their own scope, or of the default tenant or organization.
  pub data Permitted (tenant organization : Text) : RegisteredAgent → Type 0 where
    unscoped : (agent : RegisteredAgent) → Base agent → Permitted tenant organization agent
    scoped :
        (agent : RegisteredAgent) (row : ScopedConfig) (spec : AgentSpec)
        → Base agent
        → Table row
        → row.agent_id ≡ agent.id
        → in_or_default tenant row.tenant_id ≡ true
        → in_or_default (or_default_scope organization) row.organization_id ≡ true
        → row.scoped_config ≡ some spec
        → Permitted tenant organization (with_config agent row.scoped_checksum spec)

  pub data Clean : List ScopeEntry → Type 0 where
    no_entry : Clean []
    entry :
        (e : ScopeEntry) (cache : List ScopeEntry)
        → Permitted e.entry_tenant e.entry_organization e.resolved
        → Clean cache
        → Clean (e ∷ cache)

  -- the rows of a query are rows of the table
  pub data Rows : Outcome (List ScopedConfig) → Type 0 where
    failed : (e : Error) → Rows (raises e)
    read :
        (rows : List ScopedConfig)
        → ((row : ScopedConfig) → Memᴰ row rows → Table row)
        → Rows (returned rows)

  some-eq : {x y : ScopeEntry} → some x ≡ some y → y ≡ x
  some-eq e = cc

  found :
      (version : ℕ) (tenant organization key : Text) (cache : List ScopeEntry) (e : ScopeEntry)
      → Clean cache
      → find (is_entry version tenant organization key) cache ≡ some e
      → Permitted tenant organization e.resolved
  unfolding find
  found version tenant organization key [] e c h = cc
  found version tenant organization key (x ∷ cache) e (entry _ _ p c) h =
      elim (Bool-cases (is_entry version tenant organization key x)) [
        | inl t ↦
            let et : x.entry_tenant ≡ tenant =
              (text_eq_iff x.entry_tenant tenant).0 (ground arith) in
            let eo : x.entry_organization ≡ organization =
              (text_eq_iff x.entry_organization organization).0 (ground arith) in
            let ee : e ≡ x = some-eq (rw t at h) in rw (ee, ← et, ← eo) p
        | inr t ↦ found version tenant organization key cache e c (rw t at h)
      ]

  module _ (registry : Registry) (agent : RegisteredAgent) (tenant organization : Text)
      (b : Base agent) where
    -- what a call gives
    abbrev Fine : RegisteredAgent × List ScopeEntry → Type 0
    Fine r = Permitted tenant organization r.0 × Clean r.1

    remembered :
        (cache : List ScopeEntry) (o : Option RegisteredAgent)
        → Clean cache
        → ((r : RegisteredAgent) → o ≡ some r → Permitted tenant organization r)
        → Fine (remember registry tenant organization agent cache o)
    unfolding remember
    remembered cache none c h = (unscoped agent b, c)
    remembered cache (some r) c h =
        (h r refl, entry _ _ (h r refl) (kept (leb scope_cache_max (length cache))))
      where
        kept : (full : Bool) → Clean (if full then [] else cache)
        kept true = no_entry
        kept false = c

    module _ (row : ScopedConfig) where
      first_of :
          applies agent.id tenant (or_default_scope organization) row ≡ true
          → (row.agent_id == agent.id) ≡ true
      unfolding applies
      first_of a = ground arith

      second_of :
          applies agent.id tenant (or_default_scope organization) row ≡ true
          → in_or_default tenant row.tenant_id ≡ true
      unfolding applies
      second_of a = ground arith

      third_of :
          applies agent.id tenant (or_default_scope organization) row ≡ true
          → in_or_default (or_default_scope organization) row.organization_id ≡ true
      unfolding applies
      third_of a = ground arith

    configured-Permitted :
        (o : Option ScopedConfig)
        → ((row : ScopedConfig)
            → o ≡ some row
            → Table row × (applies agent.id tenant (or_default_scope organization) row ≡ true))
        → (r : RegisteredAgent) → configured agent o ≡ some r
        → Permitted tenant organization r
    unfolding configured applies
    configured-Permitted none h r e = rw (same e) (unscoped agent b)
      where
        same : some agent ≡ some r → r ≡ agent
        same e = cc
    configured-Permitted (some row) h r e = go row.scoped_config refl e
      where
        go :
            (o : Option AgentSpec)
            → row.scoped_config ≡ o
            → (elim o [
              | none ↦ none
              | some spec ↦ some (with_config agent row.scoped_checksum spec)
            ])
              ≡ some r
            → Permitted tenant organization r
        go none k e = cc
        go (some spec) k e =
            let (tb, a) = h row refl in
            rw (same_agent e) (
              scoped agent row spec b tb ((==_iff row.agent_id agent.id).0 (first_of row a))
                (second_of row a) (third_of row a) k)
          where
            same_agent :
                some (with_config agent row.scoped_checksum spec) ≡ some r
                → r ≡ with_config agent row.scoped_checksum spec
            same_agent e = cc

    queried :
        (rows : Outcome (List ScopedConfig)) (cache : List ScopeEntry)
        → Rows rows
        → Clean cache
        → Fine (query registry agent tenant organization rows cache)
    unfolding query selected
    queried _ cache (failed e) c = (unscoped agent b, c)
    queried _ cache (read rows t) c = remembered cache _ c (
        configured-Permitted _ (λ row e.
          let (m, a) =
            keep-Mem (applies agent.id tenant (or_default_scope organization)) rows row
              (least-Mem (rank tenant (or_default_scope organization)) _ row e) in
          (t row m, a)))

  -- No tenant is ever served another tenant's configuration, through the cache or without it: if the
  -- entries of the cache are permitted to the scopes they are under, and the rows that the query
  -- gives are rows of the table, then the agent that `resolve_for_scope` returns is permitted to
  -- the caller's scope, and so is each entry of the cache to its own; also when the query fails.
  pub resolve_for_scope-Permitted :
      (registry : Registry) (rows : Outcome (List ScopedConfig)) (agent : RegisteredAgent)
      (tenant organization : Text) (cache : List ScopeEntry)
      → Base agent
      → Rows rows
      → Clean cache
      → Permitted tenant organization
          (resolve_for_scope registry rows agent tenant organization cache).0
        × Clean (resolve_for_scope registry rows agent tenant organization cache).1
  unfolding resolve_for_scope
  resolve_for_scope-Permitted registry rows agent tenant organization cache b r c =
      go (is_empty tenant || text_eq tenant default_scope)
        (find (is_entry registry.version tenant organization agent.key) cache) refl
    where
      go :
          (x : Bool) (o : Option ScopeEntry)
          → find (is_entry registry.version tenant organization agent.key) cache ≡ o
          → Fine registry agent tenant organization b (
              if x
              then (agent, cache)
              else cached_or o (query registry agent tenant organization rows cache) cache)
      go true o e = (unscoped agent b, c)
      go false none e = queried registry agent tenant organization b rows cache r c
      go false (some x) e = (found registry.version tenant organization agent.key cache x c e, c)

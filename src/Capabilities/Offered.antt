-- ===== src/Capabilities/Offered.antt =====
-- What the document offers to a caller.
use mathlib.Core.List.{Memᴰ}
use saarathi.Common.{◌≤◌, Text, Bool, true, false, Option, ◌≡◌, sym, ap, ◌∙◌}
use saarathi.Exec.{Outcome}
use saarathi.Agents.{AccessSpec, UserContext}
use saarathi.Registry.Scopes.{ScopedConfig}
use saarathi.Capabilities.{
  CapabilityRow, Tables, AgentItem, Capability, scope_of, is_disabled, in_scope, capability_rank,
  capability_rows, capability_of, document, resolve_for_user,
}
use saarathi.Capabilities.Sorted.{sorted-Mem, map-Mem}
use saarathi.Capabilities.Members.{Permitted, items_of-Permitted}
use saarathi.Capabilities.Winners.{winners-Mem, winner-Scoped, winner-first}

module _ (collate : Text → Text → Bool) (access_of : ScopedConfig → Outcome AccessSpec)
    (tables : Tables) (user : Option UserContext) (tenant organization : Text) where
  -- a capability of the document, and the row that it comes from
  pub record Offered (c : Capability) (row : CapabilityRow) : Type 0 where
    pub in_table : Memᴰ row tables.capabilities
    pub applies : in_scope collate access_of tables user tenant organization row ≡ true
    pub same_key : row.key ≡ c.capability_key
    pub not_disabled : is_disabled row.status ≡ false
    pub is_row : c ≡ capability_of collate access_of tables user tenant organization row
    pub permitted :
        (item : AgentItem)
        → Memᴰ item c.items
        → Permitted collate access_of tables user tenant organization row item

-- A capability of the document is the row of its key that is the first one in the order by
-- organization and tenant of all the rows in the caller's scope, and is not disabled; so a row that
-- a tenant has disabled hides those behind it. Each of its agents is a visible member of it, is
-- enabled, has an active configuration in the caller's scope, and admits the caller.
pub resolve_for_user-Offered :
    (collate : Text → Text → Bool) (access_of : ScopedConfig → Outcome AccessSpec) (tables : Tables)
    (user : Option UserContext) (c : Capability) (other : CapabilityRow)
    → Memᴰ c (resolve_for_user collate access_of tables user)
    → Memᴰ other tables.capabilities
    → in_scope collate access_of tables user (scope_of user).0 (scope_of user).1 other ≡ true
    → other.key ≡ c.capability_key
    → (row : CapabilityRow) × Offered collate access_of tables user
        (scope_of user).0
        (scope_of user).1
        c
        row
      × (capability_rank collate access_of tables user (scope_of user).0 (scope_of user).1 row
          ≤ capability_rank collate access_of tables user (scope_of user).0 (scope_of user).1 other)
unfolding resolve_for_user document capability_rows capability_of
resolve_for_user-Offered collate access_of tables user c other m o t k =
    let (tenant, organization) = scope_of user in
    let (row, n, e) =
      map-Mem (capability_of collate access_of tables user tenant organization) _ c m in
    let (key, w, d) =
      winners-Mem collate access_of tables user tenant organization _ row (sorted-Mem _ row _ n) in
    let (there, scoped, same) =
      winner-Scoped collate access_of tables user tenant organization key row w in
    let ck : c.capability_key ≡ row.key = ap (λ x. x.capability_key) e in
    (
      row,
      record {
        in_table = there;
        applies = scoped;
        same_key = sym ck;
        not_disabled = d;
        is_row = e;
        permitted = λ item i.
            items_of-Permitted collate access_of tables user tenant organization row item
              (rw e at i);
      },
      winner-first collate access_of tables user tenant organization key row other w o t
          (k ∙ ck ∙ same),
    )

-- ===== src/Registry/Order.antt =====
-- Which scope's configuration is selected.
use mathlib.Core.List.{Memᴰ}
use saarathi.Common.{
  ℕ, ◌+◌, ◌*◌, ◌≤◌, Text, Bool, true, false, some, List, keep, text_eq, ◌≡◌, refl, sym, arith,
  if◌then◌else◌,
}
use saarathi.Selection.{keep-Mem, Mem-keep, least-Mem, least-min}
use saarathi.Agents.{RegisteredAgent}
use saarathi.Registry.Scopes.{ScopedConfig, applies, rank, selected}

abbrev cost : Bool → ℕ
cost b = if b then 0 else 1

organization_wins :
    (ro rt oo ot : Bool) → 2 * cost ro + cost rt ≤ 2 * cost oo + cost ot → oo ≡ true → ro ≡ true
organization_wins true rt oo ot le o = refl
organization_wins false true true true le o = ground arith
organization_wins false true true false le o = ground arith
organization_wins false false true true le o = ground arith
organization_wins false false true false le o = ground arith
organization_wins false rt false ot le o = o

tenant_wins :
    (ro rt oo ot : Bool)
    → 2 * cost ro + cost rt ≤ 2 * cost oo + cost ot
    → oo ≡ ro
    → ot ≡ true
    → rt ≡ true
tenant_wins ro true oo ot le s t = refl
tenant_wins true false true true le s t = ground arith
tenant_wins false false false true le s t = ground arith
tenant_wins true false false ot le s t = s
tenant_wins false false true ot le s t = sym s
tenant_wins ro false oo false le s t = t

-- The organization decides before the tenant: the row that is selected applies to the caller, and
-- if some row that applies, be it of the default tenant, names the caller's organization, then the
-- selected row does; and among those that are alike in this, if one names the caller's tenant then
-- the selected row does.
pub selected-first :
    (agent : RegisteredAgent) (tenant organization : Text) (rows : List ScopedConfig)
    (row other : ScopedConfig)
    → selected agent tenant organization rows ≡ some row
    → Memᴰ other rows
    → applies agent.id tenant organization other ≡ true
    → (Memᴰ row rows × (applies agent.id tenant organization row ≡ true))
      × (text_eq other.organization_id organization ≡ true
          → text_eq row.organization_id organization ≡ true)
      × (text_eq other.organization_id organization ≡ text_eq row.organization_id organization
          → text_eq other.tenant_id tenant ≡ true
          → text_eq row.tenant_id tenant ≡ true)
unfolding selected rank
selected-first agent tenant organization rows row other e m a =
    let key = rank tenant organization in
    let chosen = keep (applies agent.id tenant organization) rows in
    let le =
      least-min key chosen row other e
        (Mem-keep (applies agent.id tenant organization) rows other m a) in
    (
      keep-Mem (applies agent.id tenant organization) rows row (least-Mem key chosen row e),
      (λ o. organization_wins _ _ _ _ le o),
      (λ s t. tenant_wins _ _ _ _ le s t),
    )

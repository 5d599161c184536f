-- ===== src/Capabilities/Winners.antt =====
-- Which row of a capability is chosen.
use mathlib.Core.List.{Memᴰ}
use saarathi.Common.{
  ◌≤◌, Text, Bool, true, false, ◌&&◌, Option, none, some, List, [], ◌∷◌, text_eq, text_eq_iff,
  text_eq_refl, if◌then◌else◌, ◌≡◌, refl, sym, ap, ◌∙◌,
}
use saarathi.Exec.{Outcome}
use saarathi.Agents.{AccessSpec, UserContext}
use saarathi.Registry.Scopes.{ScopedConfig}
use saarathi.Selection.{keep-Mem, Mem-keep, least-Mem, least-min}
use saarathi.Capabilities.{
  CapabilityRow, Tables, is_disabled, in_scope, capability_rank, winner, winners,
}
use saarathi.Capabilities.Sorted.{split_and}

module _ (collate : Text → Text → Bool) (access_of : ScopedConfig → Outcome AccessSpec)
    (tables : Tables) (user : Option UserContext) (tenant organization : Text) where
  pub winners-Mem :
      (keys : List Text) (row : CapabilityRow)
      → Memᴰ row (winners collate access_of tables user tenant organization keys)
      → (key : Text) × (winner collate access_of tables user tenant organization key ≡ some row)
        × (is_disabled row.status ≡ false)
  unfolding winners
  winners-Mem [] row m = elim m [ ]
  winners-Mem (key ∷ keys) row m =
      go (winner collate access_of tables user tenant organization key) refl m
        (winners-Mem keys row)
    where
      rest : List CapabilityRow
      rest = winners collate access_of tables user tenant organization keys

      Found : Type 0
      Found =
          (key : Text) × (winner collate access_of tables user tenant organization key ≡ some row)
          × (is_disabled row.status ≡ false)

      choose :
          (r : CapabilityRow) (b : Bool)
          → winner collate access_of tables user tenant organization key ≡ some r
          → is_disabled r.status ≡ b
          → Memᴰ row (if b then rest else r ∷ rest)
          → (Memᴰ row rest → Found)
          → Found
      choose r true e d m ih = ih m
      choose r false e d (Memᴰ.tail m) ih = ih m
      choose r false e d (Memᴰ.head h) ih = (key, e ∙ ap some (sym h), rw h d)

      go :
          (o : Option CapabilityRow)
          → winner collate access_of tables user tenant organization key ≡ o
          → Memᴰ row
              (elim o [ none ↦ rest | some r ↦ if is_disabled r.status then rest else r ∷ rest ])
          → (Memᴰ row rest → Found)
          → Found
      go none e m ih = ih m
      go (some r) e m ih = choose r (is_disabled r.status) e refl m ih

  pub winner-Scoped :
      (key : Text) (row : CapabilityRow)
      → winner collate access_of tables user tenant organization key ≡ some row
      → Memᴰ row tables.capabilities
        × (in_scope collate access_of tables user tenant organization row ≡ true)
        × (row.key ≡ key)
  unfolding winner
  winner-Scoped key row e =
      let (m, t) =
        keep-Mem
          (λ r. in_scope collate access_of tables user tenant organization r && text_eq r.key key)
          tables.capabilities row (least-Mem _ _ row e) in
      let (scoped, same) = split_and _ _ t in (m, scoped, (text_eq_iff row.key key).0 same)

  pub winner-first :
      (key : Text) (row other : CapabilityRow)
      → winner collate access_of tables user tenant organization key ≡ some row
      → Memᴰ other tables.capabilities
      → in_scope collate access_of tables user tenant organization other ≡ true
      → other.key ≡ key
      → capability_rank collate access_of tables user tenant organization row
        ≤ capability_rank collate access_of tables user tenant organization other
  unfolding winner
  winner-first key row other e m t k = least-min _ _ row other e (
      Mem-keep
        (λ r. in_scope collate access_of tables user tenant organization r && text_eq r.key key)
        tables.capabilities other m (rw (t, k, text_eq_refl key)))

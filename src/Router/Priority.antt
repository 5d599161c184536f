-- ===== src/Router/Priority.antt =====
-- The first agent of the highest priority.
use mathlib.Core.List.{Memᴰ}
use saarathi.Common.{ℕ, ◌≤◌, List, [], ◌∷◌, ltb, Bool-cases, inl, inr, refl, arith}
use saarathi.Agents.{RegisteredAgent}
use saarathi.Router.{top_from}

abbrev pub priority : RegisteredAgent → ℕ
priority a = a.spec.routing.priority

pub top_from-Mem :
    (best : RegisteredAgent) (l : List RegisteredAgent) → Memᴰ (top_from best l) (best ∷ l)
unfolding top_from
top_from-Mem best [] = Memᴰ.head refl
top_from-Mem best (a ∷ l) = elim (Bool-cases (ltb (priority best) (priority a))) [
  | inl e ↦ rw e (Memᴰ.tail (top_from-Mem a l))
  | inr e ↦ rw e (skip (top_from-Mem best l))
]
  where
    skip : {x : RegisteredAgent} → Memᴰ x (best ∷ l) → Memᴰ x (best ∷ a ∷ l)
    skip (Memᴰ.head h) = Memᴰ.head h
    skip (Memᴰ.tail m) = Memᴰ.tail (Memᴰ.tail m)

pub top_from-max :
    (best : RegisteredAgent) (l : List RegisteredAgent) (b : RegisteredAgent)
    → Memᴰ b (best ∷ l)
    → priority b ≤ priority (top_from best l)
unfolding top_from
top_from-max best [] b (Memᴰ.head h) = rw h (ground arith)
top_from-max best [] b (Memᴰ.tail m) = elim m [ ]
top_from-max best (a ∷ l) b (Memᴰ.head h) = elim (Bool-cases (ltb (priority best) (priority a))) [
  | inl e ↦ rw (e, h) (ground (arith, top_from-max a l a (Memᴰ.head refl)))
  | inr e ↦ rw e (top_from-max best l b (Memᴰ.head h))
]
top_from-max best (a ∷ l) b (Memᴰ.tail (Memᴰ.head h)) =
    elim (Bool-cases (ltb (priority best) (priority a))) [
      | inl e ↦ rw e (top_from-max a l b (Memᴰ.head h))
      | inr e ↦ rw (e, h) (ground (arith, top_from-max best l best (Memᴰ.head refl)))
    ]
top_from-max best (a ∷ l) b (Memᴰ.tail (Memᴰ.tail m)) =
    elim (Bool-cases (ltb (priority best) (priority a))) [
      | inl e ↦ rw e (top_from-max a l b (Memᴰ.tail m))
      | inr e ↦ rw e (top_from-max best l b (Memᴰ.tail m))
    ]

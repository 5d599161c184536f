-- ===== src/Selection.antt =====
-- Rows that satisfy a test, and the first of them by a key (`ORDER BY … LIMIT 1`).
use mathlib.Core.List.{Memᴰ}
use saarathi.Common.{
  ℕ, ◌≤◌, List, [], ◌∷◌, Option, none, some, Bool, true, false, keep, ltb, ◌≡◌, refl, arith, inl,
  inr, Bool-cases, if◌then◌else◌,
}

module _ {A : Type 0} where
  -- `ORDER BY … LIMIT 1`; the earlier row first among equals
  unfoldable least_from : (A → ℕ) → A → List A → A
  least_from key best [] = best
  least_from key best (row ∷ rows) =
      least_from key (if ltb (key row) (key best) then row else best) rows

  unfoldable pub least : (A → ℕ) → List A → Option A
  unfolding least_from
  least key [] = none
  least key (row ∷ rows) = some (least_from key row rows)

  pub keep-Mem : (p : A → Bool) (l : List A) (a : A) → Memᴰ a (keep p l) → Memᴰ a l × (p a ≡ true)
  unfolding keep
  keep-Mem p [] a m = elim m [ ]
  keep-Mem p (x ∷ l) a m = go (p x) refl m (keep-Mem p l a)
    where
      go :
          (b : Bool)
          → p x ≡ b
          → Memᴰ a (if b then x ∷ keep p l else keep p l)
          → (Memᴰ a (keep p l) → Memᴰ a l × (p a ≡ true))
          → Memᴰ a (x ∷ l) × (p a ≡ true)
      go true e (Memᴰ.head h) ih = (Memᴰ.head h, rw h e)
      go true e (Memᴰ.tail m) ih = let (n, t) = ih m in (Memᴰ.tail n, t)
      go false e m ih = let (n, t) = ih m in (Memᴰ.tail n, t)

  least_from-Mem : (key : A → ℕ) (best : A) (l : List A) → Memᴰ (least_from key best l) (best ∷ l)
  unfolding least_from
  least_from-Mem key best [] = Memᴰ.head refl
  least_from-Mem key best (a ∷ l) = elim (Bool-cases (ltb (key a) (key best))) [
    | inl e ↦ rw e (Memᴰ.tail (least_from-Mem key a l))
    | inr e ↦ rw e (skip (least_from-Mem key best l))
  ]
    where
      skip : {x : A} → Memᴰ x (best ∷ l) → Memᴰ x (best ∷ a ∷ l)
      skip (Memᴰ.head h) = Memᴰ.head h
      skip (Memᴰ.tail m) = Memᴰ.tail (Memᴰ.tail m)

  pub least-Mem : (key : A → ℕ) (l : List A) (a : A) → least key l ≡ some a → Memᴰ a l
  unfolding least
  least-Mem key [] a h = cc
  least-Mem key (x ∷ l) a h = rw (some-eq h) (least_from-Mem key x l)
    where
      some-eq : {x y : A} → some x ≡ some y → y ≡ x
      some-eq e = cc

  least_from-min :
      (key : A → ℕ) (best : A) (l : List A) (b : A)
      → Memᴰ b (best ∷ l)
      → key (least_from key best l) ≤ key b
  unfolding least_from
  least_from-min key best [] b (Memᴰ.head h) = rw h (omega arith)
  least_from-min key best [] b (Memᴰ.tail m) = elim m [ ]
  least_from-min key best (a ∷ l) b (Memᴰ.head h) = elim (Bool-cases (ltb (key a) (key best))) [
    | inl e ↦ rw (e, h) (ground (arith, least_from-min key a l a (Memᴰ.head refl)))
    | inr e ↦ rw e (least_from-min key best l b (Memᴰ.head h))
  ]
  least_from-min key best (a ∷ l) b (Memᴰ.tail (Memᴰ.head h)) =
      elim (Bool-cases (ltb (key a) (key best))) [
        | inl e ↦ rw e (least_from-min key a l b (Memᴰ.head h))
        | inr e ↦ rw (e, h) (ground (arith, least_from-min key best l best (Memᴰ.head refl)))
      ]
  least_from-min key best (a ∷ l) b (Memᴰ.tail (Memᴰ.tail m)) =
      elim (Bool-cases (ltb (key a) (key best))) [
        | inl e ↦ rw e (least_from-min key a l b (Memᴰ.tail m))
        | inr e ↦ rw e (least_from-min key best l b (Memᴰ.tail m))
      ]

  pub least-min :
      (key : A → ℕ) (l : List A) (a b : A) → least key l ≡ some a → Memᴰ b l → key a ≤ key b
  unfolding least
  least-min key [] a b h m = cc
  least-min key (x ∷ l) a b h m = rw (some-eq h) (least_from-min key x l b m)
    where
      some-eq : {x y : A} → some x ≡ some y → y ≡ x
      some-eq e = cc

  pub Mem-keep : (p : A → Bool) (l : List A) (a : A) → Memᴰ a l → p a ≡ true → Memᴰ a (keep p l)
  unfolding keep
  Mem-keep p [] a m t = elim m [ ]
  Mem-keep p (x ∷ l) a (Memᴰ.head h) t = rw (← h, t) (Memᴰ.head refl)
  Mem-keep p (x ∷ l) a (Memᴰ.tail m) t = go (p x) (Mem-keep p l a m t)
    where
      go : (b : Bool) → Memᴰ a (keep p l) → Memᴰ a (if b then x ∷ keep p l else keep p l)
      go true n = Memᴰ.tail n
      go false n = n

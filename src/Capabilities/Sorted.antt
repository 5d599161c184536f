-- ===== src/Capabilities/Sorted.antt =====
-- The rows of a sorted or mapped list are those of the list.
use mathlib.Core.List.{Memᴰ}
use saarathi.Common.{Bool, true, false, ◌&&◌, List, [], ◌∷◌, map, if◌then◌else◌, ◌≡◌, refl}
use saarathi.Capabilities.{insert_sorted, sorted}

module _ {A : Type 0} (le : A → A → Bool) where
  insert_sorted-Mem : (a x : A) (l : List A) → Memᴰ x (insert_sorted le a l) → Memᴰ x (a ∷ l)
  unfolding insert_sorted
  insert_sorted-Mem a x [] m = m
  insert_sorted-Mem a x (b ∷ l) m = go (le a b) m (insert_sorted-Mem a x l)
    where
      swap : Memᴰ x (a ∷ l) → Memᴰ x (a ∷ b ∷ l)
      swap (Memᴰ.head h) = Memᴰ.head h
      swap (Memᴰ.tail m) = Memᴰ.tail (Memᴰ.tail m)

      go :
          (c : Bool)
          → Memᴰ x (if c then a ∷ b ∷ l else b ∷ insert_sorted le a l)
          → (Memᴰ x (insert_sorted le a l) → Memᴰ x (a ∷ l))
          → Memᴰ x (a ∷ b ∷ l)
      go true m ih = m
      go false (Memᴰ.head h) ih = Memᴰ.tail (Memᴰ.head h)
      go false (Memᴰ.tail m) ih = swap (ih m)

  pub sorted-Mem : (x : A) (l : List A) → Memᴰ x (sorted le l) → Memᴰ x l
  unfolding sorted
  sorted-Mem x [] m = m
  sorted-Mem x (a ∷ l) m = go (insert_sorted-Mem a x (sorted le l) m) (sorted-Mem x l)
    where
      go : Memᴰ x (a ∷ sorted le l) → (Memᴰ x (sorted le l) → Memᴰ x l) → Memᴰ x (a ∷ l)
      go (Memᴰ.head h) ih = Memᴰ.head h
      go (Memᴰ.tail m) ih = Memᴰ.tail (ih m)

pub map-Mem :
    {A B : Type 0} (f : A → B) (l : List A) (b : B)
    → Memᴰ b (map f l)
    → (a : A) × Memᴰ a l × (b ≡ f a)
map-Mem f [] b m = elim m [ ]
map-Mem f (x ∷ l) b (Memᴰ.head h) = (x, Memᴰ.head refl, h)
map-Mem f (x ∷ l) b (Memᴰ.tail m) = let (a, n, e) = map-Mem f l b m in (a, Memᴰ.tail n, e)

pub split_and : (a b : Bool) → (a && b) ≡ true → (a ≡ true) × (b ≡ true)
split_and true b h = (refl, h)
split_and false b h = cc

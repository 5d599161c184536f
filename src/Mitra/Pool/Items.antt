-- ===== src/Mitra/Pool/Items.antt =====
-- Dicts of distinct keys, and the values that they hold.
use saarathi.Common.{
  ℕ, suc, ◌+◌, Bool, true, false, not, ◌&&◌, none, some, List, [], ◌∷◌, ◌++◌, ◌≡◌, inl, inr, refl,
  arith, length, Bool-cases, ◌==◌, ==_iff,
}
use saarathi.Mitra.Pool.{lookup, without, assign, values}

abbrev pub one_if : Bool → ℕ
one_if true = 1
one_if false = 0

-- how often a number is in a list
unfoldable pub count : ℕ → List ℕ → ℕ
count s [] = 0
count s (x ∷ xs) = one_if (x == s) + count s xs

pub count-append : (s : ℕ) (xs ys : List ℕ) → count s (xs ++ ys) ≡ count s xs + count s ys
unfolding count
count-append s [] ys = omega arith
count-append s (x ∷ xs) ys = omega (arith, count-append s xs ys)

abbrev Items : Type 0
Items = List (ℕ × ℕ)

unfoldable pub absent : ℕ → List (ℕ × ℕ) → Bool
absent c [] = true
absent c ((k, v) ∷ items) = not (k == c) && absent c items

unfoldable pub distinct : List (ℕ × ℕ) → Bool
unfolding absent
distinct [] = true
distinct ((k, v) ∷ items) = absent k items && distinct items

pub lookup-absent : (c : ℕ) (items : Items) → lookup c items ≡ none → absent c items ≡ true
unfolding lookup absent
lookup-absent c [] h = refl
lookup-absent c ((k, v) ∷ items) h = ground (arith, lookup-absent c items)

pub without-absent : (c : ℕ) (items : Items) → absent c items ≡ true → without c items ≡ items
unfolding without absent
without-absent c [] h = refl
without-absent c ((k, v) ∷ items) h = ground (arith, without-absent c items)

pub absent-without :
    (c d : ℕ) (items : Items) → absent c items ≡ true → absent c (without d items) ≡ true
unfolding without absent
absent-without c d [] h = refl
absent-without c d ((k, v) ∷ items) h = ground (arith, absent-without c d items)

pub absent-removed : (c : ℕ) (items : Items) → absent c (without c items) ≡ true
unfolding without absent
absent-removed c [] = refl
absent-removed c ((k, v) ∷ items) = ground (arith, absent-removed c items)

pub distinct-without :
    (c : ℕ) (items : Items) → distinct items ≡ true → distinct (without c items) ≡ true
unfolding without distinct
distinct-without c [] h = refl
distinct-without c ((k, v) ∷ items) h =
    ground (arith, distinct-without c items, absent-without k c items)

pub absent-append :
    (c : ℕ) (items more : Items) → absent c (items ++ more) ≡ (absent c items && absent c more)
unfolding absent
absent-append c [] more = refl
absent-append c ((k, v) ∷ items) more = ground (arith, absent-append c items more)

pub distinct-end :
    (c v : ℕ) (items : Items)
    → distinct items ≡ true
    → absent c items ≡ true
    → distinct (items ++ ((c, v) ∷ [])) ≡ true
unfolding distinct absent
distinct-end c v [] h a = refl
distinct-end c v ((k, w) ∷ items) h a =
    rw (absent-append k items ((c, v) ∷ [])) (ground (arith, distinct-end c v items))

pub values-end :
    (c v : ℕ) (items : Items) → values (items ++ ((c, v) ∷ [])) ≡ values items ++ (v ∷ [])
unfolding values
values-end c v [] = refl
values-end c v ((k, w) ∷ items) = rw (values-end c v items)

pub assign-absent :
    (c v : ℕ) (items : Items) → absent c items ≡ true → assign c v items ≡ items ++ ((c, v) ∷ [])
unfolding assign absent
assign-absent c v [] h = refl
assign-absent c v ((k, w) ∷ items) h = ground (arith, assign-absent c v items)

same : (w v : ℕ) → some w ≡ some v → w ≡ v
same w v h = cc

rest_distinct : (k w : ℕ) (items : Items) → distinct ((k, w) ∷ items) ≡ true → distinct items ≡ true
unfolding distinct
rest_distinct k w items d = ground arith

removed :
    (k c w : ℕ) (items : Items)
    → distinct ((k, w) ∷ items) ≡ true
    → (k == c) ≡ true
    → absent c items ≡ true
unfolding distinct
removed k c w items d e = rw (← (==_iff k c).0 e) (ground arith)

-- taking out a key takes out its value
pub count-without :
    (s c v : ℕ) (items : Items)
    → distinct items ≡ true
    → lookup c items ≡ some v
    → count s (values items) ≡ one_if (v == s) + count s (values (without c items))
unfolding lookup without values count distinct
count-without s c v [] d h = cc
count-without s c v ((k, w) ∷ items) d h = elim (Bool-cases (k == c)) [
  | inl e ↦
      let a = removed k c w items d e in rw (e, without-absent c items a, same w v (rw e at h))
  | inr e ↦ rw e (omega (arith, count-without s c v items (rest_distinct k w items d) (rw e at h)))
]

pub length-without :
    (c v : ℕ) (items : Items)
    → distinct items ≡ true
    → lookup c items ≡ some v
    → length items ≡ suc (length (without c items))
unfolding lookup without distinct
length-without c v [] d h = cc
length-without c v ((k, w) ∷ items) d h = elim (Bool-cases (k == c)) [
  | inl e ↦ let a = removed k c w items d e in rw (e, without-absent c items a)
  | inr e ↦ rw e (omega (arith, length-without c v items (rest_distinct k w items d) (rw e at h)))
]

pub lookup-end :
    (c v : ℕ) (items : Items) → absent c items ≡ true → lookup c (items ++ ((c, v) ∷ [])) ≡ some v
unfolding lookup absent
lookup-end c v [] h = ground arith
lookup-end c v ((k, w) ∷ items) h = ground (arith, lookup-end c v items)

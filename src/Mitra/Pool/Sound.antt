-- ===== src/Mitra/Pool/Sound.antt =====
-- No channel is lost or closed twice, and the pool stays within its bound.
use saarathi.Common.{
  ℕ, suc, ◌+◌, ◌≤◌, ◌<◌, Bool, true, false, Option, none, some, List, [], ◌∷◌, ◌≡◌, inl, inr, refl,
  arith, length, length-append, ltb, leb, Bool-cases, ◌==◌, if◌then◌else◌,
}
use saarathi.Exec.{Outcome, returned, raises}
use saarathi.Mitra.Pool.{
  lookup, without, assign, values, Pool, close_found, close, close_all, evict, evict_if_needed,
  connected, open_after, used, open_new, acquire_found, acquire, close_each,
}
use saarathi.Mitra.Pool.Items.{
  one_if, count, count-append, absent, distinct, lookup-absent, absent-removed, distinct-without,
  distinct-end, values-end, assign-absent, count-without, length-without,
}

-- how often a channel is in the pool or closed
unfoldable pub kept : ℕ → Pool → ℕ
unfolding values count
kept s pool = count s (values pool.chans) + count s pool.closed

module _ (max : ℕ) where
  -- A conversation has one channel; every channel that was opened is in the pool or closed, once; and
  -- the pool has at most `max`.
  pub record Sound (pool : Pool) : Type 0 where
    pub single : distinct pool.chans ≡ true
    pub accounted : (s : ℕ) → kept s pool ≡ one_if (ltb s pool.opened)
    pub bounded : length pool.chans ≤ max

  pub close-Sound : (c : ℕ) (pool : Pool) → Sound pool → Sound (close c pool)
  unfolding close kept count
  close-Sound c pool h = go (lookup c pool.chans) refl
    where
      go : (o : Option ℕ) → lookup c pool.chans ≡ o → Sound (close_found c o pool)
      go none e = record { single = h.single; accounted = h.accounted; bounded = h.bounded }
      go (some ch) e = record {
        single = distinct-without c pool.chans h.single;
        accounted = λ s. omega (arith, h.accounted s, count-without s c ch pool.chans h.single e);
        bounded = omega (arith, h.bounded, length-without c ch pool.chans h.single e);
      }

  pub close_all-Sound : (pool : Pool) → Sound pool → Sound (close_all pool)
  unfolding close_all kept count values distinct
  close_all-Sound pool h = record {
    single = refl;
    accounted = λ s. omega (arith, h.accounted s, count-append s (values pool.chans) pool.closed);
    bounded = omega arith;
  }

  pub close_each-Sound : (cs : List ℕ) (pool : Pool) → Sound pool → Sound (close_each cs pool)
  unfolding close_each
  close_each-Sound [] pool h = h
  close_each-Sound (c ∷ cs) pool h = close_each-Sound cs (close c pool) (close-Sound c pool h)

  ground_false : 0 < max → leb max 0 ≡ true → true ≡ false
  ground_false m x = ground arith

  absent_rest :
      (c k ch : ℕ) (rest : List (ℕ × ℕ)) → absent c ((k, ch) ∷ rest) ≡ true → absent c rest ≡ true
  unfolding absent
  absent_rest c k ch rest h = ground arith

  -- the front of the pool is closed
  evicted-Sound :
      (k ch : ℕ) (rest : List (ℕ × ℕ)) (pool : Pool)
      → pool.chans ≡ (k, ch) ∷ rest
      → Sound pool
      → Sound (record pool {
        chans = rest;
        last_used = without k pool.last_used;
        closed = ch ∷ pool.closed;
      })
  unfolding distinct kept count values
  evicted-Sound k ch rest pool e h = record {
    single = single_rest (rw e at h.single);
    accounted = λ s. let x = rw e at (h.accounted s) in omega (arith, x);
    bounded = let x = rw e at h.bounded in omega (arith, x);
  }
    where
      single_rest : distinct ((k, ch) ∷ rest) ≡ true → distinct rest ≡ true
      single_rest d = ground arith

  -- after the eviction there is room for one more, and no channel of `c`
  record Evicted (c : ℕ) (r : Outcome (Unit {0}) × Pool) : Type 0 where
    pub returns : r.0 ≡ returned tt
    pub sound : Sound r.1
    pub room : length r.1.chans < max
    pub free : absent c r.1.chans ≡ true

  evict-Evicted :
      (c : ℕ) (items : List (ℕ × ℕ)) (pool : Pool)
      → pool.chans ≡ items
      → 0 < max
      → Sound pool
      → absent c items ≡ true
      → Evicted c (evict max items pool)
  unfolding evict
  evict-Evicted c [] pool e m h a = elim (Bool-cases (leb max 0)) [
    | inl x ↦ cc (ground_false m x)
    | inr x ↦ rw x (record { returns = refl; sound = h; room = rw e m; free = rw e a })
  ]
  evict-Evicted c ((k, ch) ∷ rest) pool e m h a =
      elim (Bool-cases (leb max (length ((k, ch) ∷ rest)))) [
        | inl x ↦ rw x (
            evict-Evicted c rest _ refl m (evicted-Sound k ch rest pool e h)
              (absent_rest c k ch rest a))
        | inr x ↦
            rw x (record { returns = refl; sound = h; room = rw e (ground arith); free = rw e a })
      ]

  -- a new channel enters a pool that has room for it
  entered-Sound :
      (now c : ℕ) (pool : Pool)
      → Sound pool
      → length pool.chans < max
      → absent c pool.chans ≡ true
      → Sound (record pool {
        chans = assign c pool.opened pool.chans;
        last_used = assign c now pool.last_used;
        opened = suc pool.opened;
      })
  unfolding kept count
  entered-Sound now c pool h r f = record {
    single =
        rw (assign-absent c pool.opened pool.chans f)
          (distinct-end c pool.opened pool.chans h.single f);
    accounted = λ s.
        rw
          (
            assign-absent c pool.opened pool.chans f,
            values-end c pool.opened pool.chans,
            count-append s (values pool.chans) (pool.opened ∷ []),
          )
          (counted s pool.opened (count s (values pool.chans)) (count s pool.closed)
            (h.accounted s));
    bounded =
        rw
          (
            assign-absent c pool.opened pool.chans f,
            length-append pool.chans ((c, pool.opened) ∷ []),
          )
          (omega (arith, r));
  }
    where
      counted :
          (s n a b : ℕ)
          → a + b ≡ one_if (ltb s n)
          → a + (one_if (n == s) + 0) + b ≡ one_if (ltb s (suc n))
      counted s n a b e = ground arith

  module _ (alive : ℕ → Bool) (now : ℕ) (connect : Outcome (Unit {0})) where
    open_new-Sound :
        (c : ℕ) (pool : Pool)
        → 0 < max
        → Sound pool
        → absent c pool.chans ≡ true
        → Sound (open_new max alive now connect c pool).1
    unfolding open_new evict_if_needed
    open_new-Sound c pool m h a =
        go (evict max pool.chans pool) (evict-Evicted c pool.chans pool refl m h a)
      where
        go :
            (r : Outcome (Unit {0}) × Pool)
            → Evicted c r
            → Sound (open_after max alive now connect c r).1
        go (raises e, next) v = v.sound
        go (returned _, next) v = enter connect
          where
            enter : (o : Outcome (Unit {0})) → Sound (connected max alive now connect c o next).1
            enter (raises e) = v.sound
            enter (returned _) = entered-Sound now c next v.sound v.room v.free

    -- the channel of a conversation moves to the end
    used-Sound :
        (c ch : ℕ) (pool : Pool)
        → Sound pool
        → lookup c pool.chans ≡ some ch
        → Sound (used max alive now connect c ch pool)
    unfolding kept count used without
    used-Sound c ch pool h e = record {
      single =
          distinct-end c ch (without c pool.chans) (distinct-without c pool.chans h.single)
            (absent-removed c pool.chans);
      accounted = λ s.
          rw
            (
              values-end c ch (without c pool.chans),
              count-append s (values (without c pool.chans)) (ch ∷ []),
            )
            (omega (arith, h.accounted s, count-without s c ch pool.chans h.single e));
      bounded =
          rw (length-append (without c pool.chans) ((c, ch) ∷ []))
            (omega (arith, h.bounded, length-without c ch pool.chans h.single e));
    }

    closed-absent : (c : ℕ) (pool : Pool) → absent c (close c pool).chans ≡ true
    unfolding close
    closed-absent c pool = go (lookup c pool.chans) refl
      where
        go : (o : Option ℕ) → lookup c pool.chans ≡ o → absent c (close_found c o pool).chans ≡ true
        go none e = lookup-absent c pool.chans e
        go (some ch) e = absent-removed c pool.chans

    pub acquire-Sound :
        (c : ℕ) (pool : Pool)
        → 0 < max
        → Sound pool
        → Sound (acquire max alive now connect c pool).1
    unfolding acquire
    acquire-Sound c pool m h = go (lookup c pool.chans) refl
      where
        go :
            (o : Option ℕ)
            → lookup c pool.chans ≡ o
            → Sound (acquire_found max alive now connect c o pool).1
        go none e = open_new-Sound c pool m h (lookup-absent c pool.chans e)
        go (some ch) e = found (alive ch)
          where
            found :
                (b : Bool)
                → Sound
                    (if b
                      then (returned ch, used max alive now connect c ch pool)
                      else open_new max alive now connect c (close c pool)).1
            found true = used-Sound c ch pool h e
            found false =
                open_new-Sound c (close c pool) m (close-Sound c pool h) (closed-absent c pool)

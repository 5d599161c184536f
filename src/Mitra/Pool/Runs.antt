-- ===== src/Mitra/Pool/Runs.antt =====
-- Sequences of operations of the pool, by any callers and its reaper.
use saarathi.Common.{ℕ, ◌<◌, Bool, List, [], ◌∷◌, ◌≡◌, refl, arith, ltb}
use saarathi.Exec.{Outcome}
use saarathi.Mitra.Pool.{Pool, values, close, close_all, acquire, reacquire, reap_once, stale_ids}
use saarathi.Mitra.Pool.Items.{count, one_if, distinct}
use saarathi.Mitra.Pool.Sound.{
  Sound, kept, close-Sound, close_all-Sound, close_each-Sound, acquire-Sound,
}

-- One call, with what it finds of the channels, the clock and the network.
pub data Op : Type 0 where
  acquires reacquires : (ℕ → Bool) → ℕ → Outcome (Unit {0}) → ℕ → Op
  closes : ℕ → Op
  closes_all : Op
  reaps : ℕ → (ℕ → Bool) → ℕ → Op

abbrev pub new_pool : Pool
new_pool = record { chans = []; last_used = []; closed = []; opened = 0 }

module _ (max : ℕ) where
  unfoldable pub perform : Op → Pool → Pool
  unfolding acquire reacquire close close_all reap_once
  perform (acquires alive now connect c) pool = (acquire max alive now connect c pool).1
  perform (reacquires alive now connect c) pool = (reacquire max alive now connect c pool).1
  perform (closes c) pool = close c pool
  perform closes_all pool = close_all pool
  perform (reaps idle_close alive now) pool = reap_once idle_close alive now pool

  unfoldable pub perform_all : List Op → Pool → Pool
  unfolding perform
  perform_all [] pool = pool
  perform_all (op ∷ ops) pool = perform_all ops (perform op pool)

  perform-Sound : (op : Op) (pool : Pool) → 0 < max → Sound max pool → Sound max (perform op pool)
  unfolding perform reacquire reap_once
  perform-Sound (acquires alive now connect c) pool m h =
      acquire-Sound max alive now connect c pool m h
  perform-Sound (reacquires alive now connect c) pool m h =
      acquire-Sound max alive now connect c (close c pool) m (close-Sound max c pool h)
  perform-Sound (closes c) pool m h = close-Sound max c pool h
  perform-Sound closes_all pool m h = close_all-Sound max pool h
  perform-Sound (reaps idle_close alive now) pool m h =
      close_each-Sound max (stale_ids idle_close alive now pool pool.chans) pool h

  runs : (ops : List Op) (pool : Pool) → 0 < max → Sound max pool → Sound max (perform_all ops pool)
  unfolding perform_all
  runs [] pool m h = h
  runs (op ∷ ops) pool m h = runs ops (perform op pool) m (perform-Sound op pool m h)

  -- If the bound is positive, then after any sequence of calls to acquire, reacquire and close
  -- channels and of passes of the reaper, starting from a new pool, whatever connections fail and
  -- channels die: no conversation has two channels, the pool has no more than the bound, and every
  -- channel that was ever opened is either in the pool or has been closed, exactly once.
  pub perform_all-Sound : (ops : List Op) → 0 < max → Sound max (perform_all ops new_pool)
  unfolding kept values count distinct
  perform_all-Sound ops m = runs ops new_pool m new_pool-Sound
    where
      none_open : (s : ℕ) → 0 ≡ one_if (ltb s 0)
      none_open s = ground arith

      new_pool-Sound : Sound max new_pool
      new_pool-Sound = record { single = refl; accounted = λ s. none_open s; bounded = omega arith }

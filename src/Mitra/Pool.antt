-- ===== src/Mitra/Pool.antt =====
-- backend/app/integrations/mitra/session_manager.py: the pool of channels, by conversation, the
-- least recently used first. A channel is the number it was opened under. Whether a channel is
-- alive is `alive`, as its reader thread has left it; `connect` is the result of the factory.
-- `closed` are the channels that the pool has closed. An operation runs under the pool's lock.
pub mod Items
pub mod Sound
pub mod Runs
mod Examples
use saarathi.Common.{
  ℕ, suc, ◌+◌, ◌-◌, Bool, true, false, not, ◌&&◌, ◌||◌, Option, none, some, List, [], ◌∷◌, ◌++◌,
  leb, ltb, length, ◌==◌, if◌then◌else◌, codes,
}
use saarathi.Exec.{Exec, Error, Outcome, returned, raises, runtime_error}

module _ {A : Type 0} where
  -- `d.get(key)`
  unfoldable pub lookup : ℕ → List (ℕ × A) → Option A
  lookup key [] = none
  lookup key ((k, v) ∷ items) = if k == key then some v else lookup key items

  -- `d.pop(key, None)`, without the value
  unfoldable pub without : ℕ → List (ℕ × A) → List (ℕ × A)
  without key [] = []
  without key ((k, v) ∷ items) =
      let rest = without key items in if k == key then rest else (k, v) ∷ rest

  -- `d[key] = value`: a key that is there keeps its place
  unfoldable pub assign : ℕ → A → List (ℕ × A) → List (ℕ × A)
  assign key value [] = (key, value) ∷ []
  assign key value ((k, v) ∷ items) =
      let rest = assign key value items in if k == key then (k, value) ∷ items else (k, v) ∷ rest

  unfoldable pub values : List (ℕ × A) → List A
  values [] = []
  values ((k, v) ∷ items) = v ∷ values items

pub record Pool : Type 0 where
  pub chans : List (ℕ × ℕ)
  pub last_used : List (ℕ × ℕ)
  pub closed : List ℕ
  pub opened : ℕ

-- the channel of a conversation leaves the pool and is closed
abbrev pub close_found : ℕ → Option ℕ → Pool → Pool
unfolding without
close_found c none pool = record pool { last_used = without c pool.last_used }
close_found c (some ch) pool = record pool {
  chans = without c pool.chans;
  last_used = without c pool.last_used;
  closed = ch ∷ pool.closed;
}

unfoldable pub close : ℕ → Pool → Pool
unfolding close_found lookup
close c pool = close_found c (lookup c pool.chans) pool

unfoldable pub close_all : Pool → Pool
unfolding values
close_all pool = record pool {
  chans = [];
  last_used = [];
  closed = values pool.chans ++ pool.closed;
}

-- `_evict_if_needed`: the loop, over the channels from the front
unfoldable pub evict : ℕ → List (ℕ × ℕ) → Pool → Outcome (Unit {0}) × Pool
unfolding without
evict max [] pool =
    if leb max 0
    then (raises (runtime_error (codes "StopIteration")), pool)
    else (returned tt, pool)
evict max ((c, ch) ∷ rest) pool =
    let next = evict max rest (record pool {
      chans = rest;
      last_used = without c pool.last_used;
      closed = ch ∷ pool.closed;
    }) in
    if leb max (length ((c, ch) ∷ rest)) then next else (returned tt, pool)

unfoldable pub evict_if_needed : ℕ → Exec Pool (Unit {0})
unfolding evict
evict_if_needed max pool = evict max pool.chans pool

module _ (max : ℕ) (alive : ℕ → Bool) (now : ℕ) (connect : Outcome (Unit {0})) where
  -- `self._chans[conv_id] = self._channel_factory(...)`
  abbrev pub connected : ℕ → Outcome (Unit {0}) → Exec Pool ℕ
  unfolding assign
  connected c (raises e) pool = (raises e, pool)
  connected c (returned _) pool = (
    returned pool.opened,
    record pool {
      chans = assign c pool.opened pool.chans;
      last_used = assign c now pool.last_used;
      opened = suc pool.opened;
    },
  )

  abbrev pub open_after : ℕ → Outcome (Unit {0}) × Pool → Outcome ℕ × Pool
  unfolding connected
  open_after c (raises e, pool) = (raises e, pool)
  open_after c (returned _, pool) = connected c connect pool

  -- `move_to_end`
  abbrev pub used : ℕ → ℕ → Pool → Pool
  unfolding without assign
  used c ch pool = record pool {
    chans = without c pool.chans ++ ((c, ch) ∷ []);
    last_used = assign c now pool.last_used;
  }

  unfoldable pub open_new : ℕ → Exec Pool ℕ
  unfolding open_after evict_if_needed
  open_new c pool = open_after c (evict_if_needed max pool)

  abbrev pub acquire_found : ℕ → Option ℕ → Exec Pool ℕ
  unfolding used close open_new
  acquire_found c none pool = open_new c pool
  acquire_found c (some ch) pool =
      if alive ch then (returned ch, used c ch pool) else open_new c (close c pool)

  unfoldable pub acquire : ℕ → Exec Pool ℕ
  unfolding acquire_found lookup
  acquire c pool = acquire_found c (lookup c pool.chans) pool

  unfoldable pub reacquire : ℕ → Exec Pool ℕ
  unfolding acquire close
  reacquire c pool = acquire c (close c pool)

unfoldable pub close_each : List ℕ → Pool → Pool
unfolding close
close_each [] pool = pool
close_each (c ∷ cs) pool = close_each cs (close c pool)

-- `now - self._last_used.get(cid, now) >= idle_close`
abbrev idle : ℕ → ℕ → Option ℕ → Bool
idle idle_close now none = leb idle_close 0
idle idle_close now (some t) = leb idle_close (now - t)

-- `_reap_once`
module _ (idle_close : ℕ) (alive : ℕ → Bool) (now : ℕ) where
  unfoldable pub stale_ids : Pool → List (ℕ × ℕ) → List ℕ
  unfolding lookup
  stale_ids pool [] = []
  stale_ids pool ((c, ch) ∷ items) =
      let rest = stale_ids pool items in
      if not (alive ch) || idle idle_close now (lookup c pool.last_used) then c ∷ rest else rest

  unfoldable pub reap_once : Pool → Pool
  unfolding stale_ids close_each
  reap_once pool = close_each (stale_ids pool pool.chans) pool

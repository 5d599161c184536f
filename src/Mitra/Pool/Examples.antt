-- ===== src/Mitra/Pool/Examples.antt =====
-- Tests of the pool, and its theorem at a concrete run.
use saarathi.Common.{ℕ, true, List, [], ◌∷◌, ◌≡◌, refl, arith, ◌==◌, not}
use saarathi.Exec.{returned}
use saarathi.Mitra.Pool.Sound.{Sound}
use saarathi.Mitra.Pool.Runs.{Op, acquires, reaps, new_pool, perform_all, perform_all-Sound}

abbrev acquires_at : ℕ → ℕ → Op
acquires_at now c = acquires (λ ch. true) now (returned tt) c

-- the least recently used channel is closed for a third conversation, and the second is used again
abbrev ops : List Op
ops = acquires_at 1 7 ∷ acquires_at 2 8 ∷ acquires_at 3 7 ∷ acquires_at 4 9 ∷ []

test_lru : (perform_all 2 ops new_pool).chans ≡ (7, 0) ∷ (9, 2) ∷ []
unfolding perform_all
test_lru = refl

test_closed : (perform_all 2 ops new_pool).closed ≡ 1 ∷ []
unfolding perform_all
test_closed = refl

-- a dead channel is replaced, and the reaper closes the idle one
test_reap :
    (perform_all 2
      (acquires_at 1 7
        ∷ acquires (λ ch. not (ch == 0)) 5 (returned tt) 7
        ∷ acquires_at 90 8
        ∷ reaps 50 (λ ch. true) 100
        ∷ [])
      new_pool).chans
    ≡ (8, 2) ∷ []
unfolding perform_all
test_reap = refl

perform_all-Sound_example : Sound 2 (perform_all 2 ops new_pool)
perform_all-Sound_example = perform_all-Sound 2 ops (omega arith)

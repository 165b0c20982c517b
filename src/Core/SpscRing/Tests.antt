-- ===== src/Core/SpscRing/Tests.antt =====
-- A run of include/optitrade/core/spsc_ring.hpp, and the theorems at that run.
use opti_trade_engine.Prelude.{ℕ, ◌+◌, ◌≡◌, refl, false, List, [], ◌∷◌, ◌++◌, some, length}
use opti_trade_engine.Core.SpscRing.{
  SpscRing, Action, push_check, push_write, push_publish, pop_check, pop_read, pop_retire, new, run,
  bit_ceil, rounded_capacity, size_approx,
}
use opti_trade_engine.Core.SpscRing.Queue.{contents, same_cell, run-queue, run-no_race}

-- Two values are pushed and one is popped, while a third is being pushed.
abbrev actions : List (Action ℕ)
actions =
    push_check 7 0
    ∷ push_write
    ∷ pop_check 0
    ∷ push_publish
    ∷ push_check 8 0
    ∷ pop_check 1
    ∷ push_write
    ∷ push_publish
    ∷ pop_read
    ∷ push_check 9 1
    ∷ pop_retire
    ∷ push_check 9 1
    ∷ []

abbrev ring : SpscRing ℕ
ring = run 0 (new 0 2) actions

two_cells : rounded_capacity 2 ≡ some 2
unfolding rounded_capacity bit_ceil
two_cells = refl

run-queue_example :
    (ring.pushed ≡ ring.popped ++ contents 0 ring)
    × (length ring.pushed ≡ length ring.popped + size_approx ring)
run-queue_example = run-queue 0 2 2 two_cells actions

run-no_race_example : same_cell ring ≡ false
run-no_race_example = run-no_race 0 2 2 two_cells actions

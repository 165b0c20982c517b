-- ===== src/Core/SlabPool/Tests.antt =====
-- A pool of two nodes, used up, given back to and used again.
use opti_trade_engine.Prelude.{ℕ, ◌≡◌, refl, List, [], ◌∷◌, some}
use opti_trade_engine.Core.SlabPool.{SlabPool, null, new, new_nodes}
use opti_trade_engine.Core.SlabPool.Refinement.{Represents}
use opti_trade_engine.Core.SlabPool.Runs.{
  Call, allocates, releases, writes, run, stack_run, run-stack_run,
}

abbrev two_nodes : SlabPool ℕ
two_nodes = record {
  nodes = record { value = 7; next = 1 } ∷ record { value = 7; next = null } ∷ [];
  free = 0;
  size = 0;
}

two_nodes-new : new 7 2 ≡ some two_nodes
unfolding new new_nodes
two_nodes-new = refl

abbrev calls : List (Call ℕ)
calls =
    allocates
    ∷ allocates
    ∷ allocates
    ∷ writes 1 9
    ∷ releases 0
    ∷ releases 0
    ∷ releases 5
    ∷ allocates
    ∷ releases 1
    ∷ []

run-stack_run_example :
    ((run 7 calls two_nodes).1 ≡ 0 ∷ 1 ∷ null ∷ 0 ∷ [])
    × Represents (run 7 calls two_nodes).0 (1 ∷ [])
unfolding stack_run
run-stack_run_example = run-stack_run 7 2 two_nodes calls two_nodes-new

-- ===== src/Graph/Reach.antt =====
-- `_reachable_from` of src/app/domain/graph/validation/structure.py. The queue is kept from its end,
-- where the source appends and pops. The loop recurs on the rounds left, and `none` is a loop that
-- has not ended in them.
pub mod Complete
use orqent.Base.{
  ℕ, zero, suc, ◌+◌, String, List, [], ◌∷◌, Option, none, some, Bool, if◌then◌else◌, length, mem,
}
use orqent.Graph.Model.{WorkflowGraph, node_keys}
use orqent.Graph.Cycles.{successors}
use orqent.Graph.Cycles.Rounds.{reverse}

-- The inner loop: the nodes that are met for the first time.
unfoldable pub absorb : List String → List String → List String → List String × List String
absorb reached queue [] = (reached, queue)
absorb reached queue (x ∷ xs) =
    let met = mem x reached in
    absorb (if met then reached else x ∷ reached) (if met then queue else x ∷ queue) xs

module _ (next : String → List String) where
  unfoldable pub spread : (fuel : ℕ) → List String → List String → Option (List String)
  unfolding absorb
  spread fuel reached [] = some reached
  spread zero reached (key ∷ queue) = none
  spread (suc fuel) reached (key ∷ queue) =
      let (reached', queue') = absorb reached queue (next key) in spread fuel reached' queue'

-- A node enters the queue once, beside those that start in it.
unfoldable pub reachable_from : {V : Type 0} → WorkflowGraph V → List String → Option (List String)
unfolding spread successors node_keys
reachable_from graph starts =
    spread (successors graph) (length (node_keys graph) + length starts) starts (reverse starts)

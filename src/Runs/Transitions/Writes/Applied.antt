-- ===== src/Runs/Transitions/Writes/Applied.antt =====
-- Every decision that `_apply` writes is one of the two kinds of write.
use orqent.Base.{◌≡◌, ok}
use orqent.Engine.Snapshot.{SchedulerDecision, start_node, set_run_status, recover_node, skip_node}
use orqent.Runs.Store.{Store}
use orqent.Runs.Transitions.{apply_one}
use orqent.Runs.Transitions.Writes.{NodeWrite, RunWrite}
use orqent.Runs.Transitions.Writes.Nodes.{
  apply_start-NodeWrite, apply_recover-NodeWrite, apply_skip-NodeWrite,
}
use orqent.Runs.Transitions.Writes.Rows.{apply_run_status-RunWrite}

-- Either kind of write, as `_apply` makes them.
pub data Write (V : Type 0) (s s' : Store V) : Type 0 where
  of_node : NodeWrite V s s' → Write V s s'
  of_run : RunWrite V s s' → Write V s s'

pub apply_one-Write :
    {V : Type 0} (d : SchedulerDecision) (s : Store V) {s' : Store V}
    → apply_one d s ≡ ok s'
    → Write V s s'
unfolding apply_one
apply_one-Write (start_node k) s h = of_node (apply_start-NodeWrite k s h).base
apply_one-Write (recover_node k) s h = of_node (apply_recover-NodeWrite k s h).base
apply_one-Write (skip_node k) s h = of_node (apply_skip-NodeWrite k s h).base
apply_one-Write (set_run_status status) s h = of_run (apply_run_status-RunWrite status s h)

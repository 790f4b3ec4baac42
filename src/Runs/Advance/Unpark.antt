-- ===== src/Runs/Advance/Unpark.antt =====
-- The transaction of `resume_run` as two guarded writes: the node's, then the run's.
use orqent.Base.{
  String, none, some, false, ◌≡◌, inl, inr, refl, arith, any, ok, >>=-eq-ok, ok-injective,
  Bool-cases,
}
use orqent.Engine.State.{
  RunStatus, NodeExecutionStatus, run_is_terminal, same_run_status, ensure_run_transition,
  ensure_node_execution_transition, run_resumed, node_started,
}
use orqent.Runs.Store.{
  Execution, Store, no_payload, about, append, enqueue, execution_of, write, outstanding,
}
use mathlib.Core.Path.{subst}
use orqent.Engine.State.{same_node_status}
use orqent.Runs.Advance.{unpark}
use orqent.Runs.Transitions.Writes.{NodeWrite, RunWrite, is_quiet}
use orqent.Runs.Transitions.Writes.Nodes.{NodeWrite-write, execution_of-found}
use orqent.Runs.Transitions.Writes.Rows.{RunWrite-append}

module _ {V : Type 0} where
  woken_row : Store V → Execution V → Execution V
  woken_row s e = record e {
    status = NodeExecutionStatus.running;
    resume_token = none;
    started_at = some s.clock;
  }

  RunWrite-enqueue :
      (s m : Store V) → is_quiet m.run.status ≡ false → RunWrite V s m → RunWrite V s (enqueue m)
  unfolding enqueue
  RunWrite-enqueue s m busy w = elim (Bool-cases (any outstanding m.tasks)) [
    | inl has_task ↦ rw has_task w
    | inr free ↦ rw free (record {
      allowed = w.allowed;
      executions = w.executions;
      graph = w.graph;
      quiet = λ h. ground arith;
      numbered = w.numbered;
    })
  ]

  RunWrite-running :
      (m : Store V)
      → ensure_run_transition m.run.status RunStatus.running ≡ ok tt
      → RunWrite V m (record m { run = record (m.run) { status = RunStatus.running } })
  unfolding run_is_terminal
  RunWrite-running m allowed = record {
    allowed = allowed;
    executions = refl;
    graph = refl;
    quiet = λ h. ground arith;
    numbered = λ h. h;
  }

  pub unpark-writes :
      (k : String) (e : Execution V) (s : Store V) {woken : Store V}
      → execution_of k s ≡ ok e
      → unpark k e s ≡ ok woken
      → (m : Store V) × NodeWrite V s m × RunWrite V m woken
  unfolding unpark woken_row append write run_is_terminal
  unpark-writes k e s found h =
      elim (Bool-cases (same_node_status e.status NodeExecutionStatus.waiting)) [
        | inr other ↦ cc (rw (other, unpark) at h)
        | inl is_parked ↦ elim (Bool-cases (same_run_status s.run.status RunStatus.suspended)) [
          | inr other ↦ cc (rw (is_parked, other, unpark) at h)
          | inl asleep ↦
              let h1 = rw (is_parked, asleep, unpark) at h in
              let (_, node_allowed, h2) =
                >>=-eq-ok (ensure_node_execution_transition e.status NodeExecutionStatus.running) _
                  h1 in
              let (_, run_allowed, h3) =
                >>=-eq-ok (ensure_run_transition s.run.status RunStatus.running) _ h2 in
              (
                write k (woken_row s e) s,
                NodeWrite-write k e (woken_row s e) s (execution_of-found k s found)
                    (rw node_allowed) (inl refl),
                subst (RunWrite V _) (ok-injective h3) (
                    RunWrite-enqueue _ _ refl (
                      RunWrite-append _ node_started (about k) _ (
                        RunWrite-append _ run_resumed no_payload _
                          (RunWrite-running (write k (woken_row s e) s) run_allowed)))),
              )
        ]
      ]

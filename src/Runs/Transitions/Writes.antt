-- ===== src/Runs/Transitions/Writes.antt =====
-- What each write of a transaction changes: one node execution, or the run's own row.
pub mod Nodes
pub mod Rows
pub mod Applied
use orqent.Base.{
  ℕ, suc, ◌+◌, String, List, [], ◌∷◌, ◌++◌, map, Option, none, some, Bool, true, false, ◌||◌, ◌≡◌,
  ◌⊎◌, inl, inr, refl, arith, max, if◌then◌else◌, any, lookup, insert, ok, ◌>>◌, ok-injective,
  >>=-eq-ok, Bool-cases,
}
use mathlib.Core.Path.{subst}
use orqent.Engine.State.{
  RunStatus, NodeExecutionStatus, RunEventType, run_is_terminal, same_run_status,
  ensure_run_transition, ensure_node_execution_transition, node_started, node_skipped, node_failed,
  node_succeeded, node_suspended,
}
use orqent.Engine.Snapshot.{SchedulerDecision, start_node, set_run_status, recover_node, skip_node}
use orqent.Engine.Invocation.{NodeResult, completed, suspended, failed}
use orqent.Runs.Store.{
  Execution, Store, RunEvent, Payload, no_payload, about, failure, parked, append,
  finish_outstanding, execution_of, write, max_seq, outstanding, TaskStatus,
}
use orqent.Runs.Transitions.{
  Outcome, result, repeat_refused, repeat_error, apply_one, apply_start, apply_skip, apply_recover,
  apply_run_status, settle, validate_resume_token, run_events, settle_tasks, log_transition,
  record_result, record_failure,
}

-- The timeline is numbered 1, 2, 3 and so on, without a gap.
abbrev pub NumberedFrom : ℕ → List RunEvent → Type 0
NumberedFrom n [] = Unit
NumberedFrom n (e ∷ es) = (e.seq ≡ n) × NumberedFrom (suc n) es

abbrev pub IsNumbered : List RunEvent → Type 0
IsNumbered es = NumberedFrom 1 es

NumberedFrom-snoc :
    (n : ℕ) (es : List RunEvent) (t : RunEventType) (p : Payload)
    → NumberedFrom (suc n) es
    → NumberedFrom
        (suc n)
        (es ++ record { seq = max n (max_seq es) + 1; event_type = t; payload = p } ∷ [])
unfolding max_seq
NumberedFrom-snoc n [] t p h = (omega arith, tt)
NumberedFrom-snoc n (e ∷ es) t p h =
    let same : max n (max e.seq (max_seq es)) ≡ max (suc n) (max_seq es) = omega arith in
    (h.0, rw same (NumberedFrom-snoc (suc n) es t p h.1))

module _ {V : Type 0} where
  pub append-IsNumbered :
      (t : RunEventType) (p : Payload) (s : Store V)
      → IsNumbered s.events
      → IsNumbered (append t p s).events
  unfolding append
  append-IsNumbered t p s h =
      let same : max 0 (max_seq s.events) ≡ max_seq s.events = omega arith in
      rw same at (NumberedFrom-snoc 0 s.events t p h)

-- A run in this state waits for nobody's queue task.
abbrev pub is_quiet : RunStatus → Bool
is_quiet status = same_run_status status RunStatus.suspended || run_is_terminal status

-- One guarded write of a node execution, and all that it leaves alone.
pub record NodeWrite (V : Type 0) (s s' : Store V) : Type 0 where
  pub key : String
  pub before : Execution V
  pub after : Execution V
  pub found : lookup key s.executions ≡ some before
  pub allowed : ensure_node_execution_transition before.status after.status ≡ ok tt
  pub kept : (after.output ≡ before.output) ⊎ (after.status ≡ NodeExecutionStatus.succeeded)
  pub executions : s'.executions ≡ insert key after s.executions
  pub run : s'.run ≡ s.run
  pub graph : s'.graph ≡ s.graph
  pub tasks : s'.tasks ≡ s.tasks
  pub numbered : IsNumbered s.events → IsNumbered s'.events

-- Such a write, with the key and the status that it reaches named.
pub record WriteOf (V : Type 0) (k : String) (target : NodeExecutionStatus) (s s' : Store V)
    : Type 0 where
  pub base : NodeWrite V s s'
  pub keyed : base.key ≡ k
  pub reached : base.after.status ≡ target

-- The statuses that what a node did can leave its execution in.
abbrev pub is_settled : NodeExecutionStatus → Bool
is_settled NodeExecutionStatus.succeeded = true
is_settled NodeExecutionStatus.failed = true
is_settled NodeExecutionStatus.waiting = true
is_settled _ = false

-- A write that ends the attempt.
pub record Closes (V : Type 0) (k : String) (s s' : Store V) : Type 0 where
  pub target : NodeExecutionStatus
  pub settled : is_settled target ≡ true
  pub written : WriteOf V k target s s'

-- One guarded write of the run's status.
pub record RunWrite (V : Type 0) (s s' : Store V) : Type 0 where
  pub allowed : ensure_run_transition s.run.status s'.run.status ≡ ok tt
  pub executions : s'.executions ≡ s.executions
  pub graph : s'.graph ≡ s.graph
  pub quiet : is_quiet s'.run.status ≡ true → any outstanding s'.tasks ≡ false
  pub numbered : IsNumbered s.events → IsNumbered s'.events

-- ===== src/Engine/State/Machine.antt =====
-- The histories that the two guards let through, and which statuses they lead between. The
-- statement names the statuses without the tables.
use orqent.Base.{true, ◌≡◌, ◌≢◌, ◌⊎◌, ◌↔◌, inl, inr, refl, arith, ok}
use orqent.Engine.State.{
  RunStatus, NodeExecutionStatus, run_is_terminal, node_is_terminal, ensure_run_transition,
  ensure_node_execution_transition,
}

-- A history of guarded writes to one node execution, the oldest status first.
pub data NodeHistory : NodeExecutionStatus → NodeExecutionStatus → Type 0 where
  here : {s : NodeExecutionStatus} → NodeHistory s s
  write :
      {s t u : NodeExecutionStatus}
      → NodeHistory s t
      → ensure_node_execution_transition t u ≡ ok tt
      → NodeHistory s u

-- A history of guarded writes to one run.
pub data RunHistory : RunStatus → RunStatus → Type 0 where
  start : {s : RunStatus} → RunHistory s s
  move : {s t u : RunStatus} → RunHistory s t → ensure_run_transition t u ≡ ok tt → RunHistory s u

pub node_stuck :
    (t u : NodeExecutionStatus)
    → node_is_terminal t ≡ true
    → ensure_node_execution_transition t u ≢ ok tt
unfolding node_is_terminal ensure_node_execution_transition
node_stuck t u h e = ground arith

pub NodeHistory-terminal :
    {s t : NodeExecutionStatus} → NodeHistory s t → node_is_terminal s ≡ true → t ≡ s
NodeHistory-terminal here h = refl
NodeHistory-terminal (write {s} {t} {u} past step) h =
    absurd (node_stuck t u (rw (NodeHistory-terminal past h) h) step)

run_stuck : (t u : RunStatus) → run_is_terminal t ≡ true → ensure_run_transition t u ≢ ok tt
unfolding run_is_terminal ensure_run_transition
run_stuck t u h e = ground arith

pub RunHistory-terminal : {s t : RunStatus} → RunHistory s t → run_is_terminal s ≡ true → t ≡ s
RunHistory-terminal start h = refl
RunHistory-terminal (move {s} {t} {u} past step) h =
    absurd (run_stuck t u (rw (RunHistory-terminal past h) h) step)

-- A node execution that is neither succeeded, failed nor skipped.
abbrev pub NodeOpen : NodeExecutionStatus → Type 0
NodeOpen NodeExecutionStatus.pending = Unit
NodeOpen NodeExecutionStatus.running = Unit
NodeOpen NodeExecutionStatus.waiting = Unit
NodeOpen NodeExecutionStatus.succeeded = ⊥
NodeOpen NodeExecutionStatus.failed = ⊥
NodeOpen NodeExecutionStatus.skipped = ⊥

-- A run that is neither completed nor failed.
abbrev pub RunOpen : RunStatus → Type 0
RunOpen RunStatus.pending = Unit
RunOpen RunStatus.running = Unit
RunOpen RunStatus.suspended = Unit
RunOpen RunStatus.completed = ⊥
RunOpen RunStatus.failed = ⊥

node_write :
    (s t u : NodeExecutionStatus)
    → (t ≡ s) ⊎ NodeOpen s
    → ensure_node_execution_transition t u ≡ ok tt
    → (u ≡ s) ⊎ NodeOpen s
unfolding ensure_node_execution_transition
node_write NodeExecutionStatus.pending t u past step = inr tt
node_write NodeExecutionStatus.running t u past step = inr tt
node_write NodeExecutionStatus.waiting t u past step = inr tt
node_write NodeExecutionStatus.succeeded t u past step = ground arith
node_write NodeExecutionStatus.failed t u past step = ground arith
node_write NodeExecutionStatus.skipped t u past step = ground arith

run_write :
    (s t u : RunStatus)
    → (t ≡ s) ⊎ (RunOpen s × (t ≢ RunStatus.pending))
    → ensure_run_transition t u ≡ ok tt
    → (u ≡ s) ⊎ (RunOpen s × (u ≢ RunStatus.pending))
unfolding ensure_run_transition
run_write RunStatus.pending t u past step = inr (tt, ground arith)
run_write RunStatus.running t u past step = inr (tt, ground arith)
run_write RunStatus.suspended t u past step = inr (tt, ground arith)
run_write RunStatus.completed t u past step = ground arith
run_write RunStatus.failed t u past step = ground arith

NodeHistory-open : {s t : NodeExecutionStatus} → NodeHistory s t → (t ≡ s) ⊎ NodeOpen s
NodeHistory-open here = inl refl
NodeHistory-open (write {s} {t} {u} past step) = node_write s t u (NodeHistory-open past) step

RunHistory-open :
    {s t : RunStatus} → RunHistory s t → (t ≡ s) ⊎ (RunOpen s × (t ≢ RunStatus.pending))
RunHistory-open start = inl refl
RunHistory-open (move {s} {t} {u} past step) = run_write s t u (RunHistory-open past) step

NodeHistory-trans :
    {s t u : NodeExecutionStatus} → NodeHistory s t → NodeHistory t u → NodeHistory s u
NodeHistory-trans past here = past
NodeHistory-trans past (write later step) = write (NodeHistory-trans past later) step

RunHistory-trans : {s t u : RunStatus} → RunHistory s t → RunHistory t u → RunHistory s u
RunHistory-trans past start = past
RunHistory-trans past (move later step) = move (RunHistory-trans past later) step

-- Every open node execution can be brought back to running, and from there anywhere.
to_running : (s : NodeExecutionStatus) → NodeOpen s → NodeHistory s NodeExecutionStatus.running
unfolding ensure_node_execution_transition
to_running NodeExecutionStatus.pending open_ = write here refl
to_running NodeExecutionStatus.running open_ = here
to_running NodeExecutionStatus.waiting open_ = write here refl
to_running NodeExecutionStatus.succeeded open_ = absurd open_
to_running NodeExecutionStatus.failed open_ = absurd open_
to_running NodeExecutionStatus.skipped open_ = absurd open_

from_running : (t : NodeExecutionStatus) → NodeHistory NodeExecutionStatus.running t
unfolding ensure_node_execution_transition
from_running NodeExecutionStatus.pending = write here refl
from_running NodeExecutionStatus.running = here
from_running NodeExecutionStatus.waiting = write here refl
from_running NodeExecutionStatus.succeeded = write here refl
from_running NodeExecutionStatus.failed = write here refl
from_running NodeExecutionStatus.skipped =
    let again : NodeHistory NodeExecutionStatus.running NodeExecutionStatus.pending =
      write here refl in
    write again refl

run_to_running : (s : RunStatus) → RunOpen s → RunHistory s RunStatus.running
unfolding ensure_run_transition
run_to_running RunStatus.pending open_ = move start refl
run_to_running RunStatus.running open_ = start
run_to_running RunStatus.suspended open_ = move start refl
run_to_running RunStatus.completed open_ = absurd open_
run_to_running RunStatus.failed open_ = absurd open_

run_from_running : (t : RunStatus) → t ≢ RunStatus.pending → RunHistory RunStatus.running t
unfolding ensure_run_transition
run_from_running RunStatus.pending started = absurd (started refl)
run_from_running RunStatus.running started = start
run_from_running RunStatus.suspended started = move start refl
run_from_running RunStatus.completed started = move start refl
run_from_running RunStatus.failed started = move start refl

-- Guarded writes lead a node execution from one status to another exactly when the two are the same or
-- the first is pending, running or waiting: succeeded, failed and skipped are final, and all else leads
-- everywhere. They lead a run to another status exactly when the first is pending, running or suspended
-- and the other is not pending: completed and failed are final, and no run becomes pending again.
pub histories_lead :
    (s t : NodeExecutionStatus) (r u : RunStatus)
    → (NodeHistory s t ↔ ((t ≡ s) ⊎ NodeOpen s))
      × (RunHistory r u ↔ ((u ≡ r) ⊎ (RunOpen r × (u ≢ RunStatus.pending))))
histories_lead s t r u = (
  (
    NodeHistory-open,
    λ h. elim h [
      | inl same ↦ rw same here
      | inr open_ ↦ NodeHistory-trans (to_running s open_) (from_running t)
    ],
  ),
  (
    RunHistory-open,
    λ h. elim h [
      | inl same ↦ rw same start
      | inr (open_, started) ↦
          RunHistory-trans (run_to_running r open_) (run_from_running u started)
    ],
  ),
)

-- ===== src/Engine/Scheduler.antt =====
-- src/app/domain/engine/scheduler.py: one tick, from a snapshot to an ordered list of decisions.
-- A missing node execution raises, as in the source, wherever a status is read.
pub mod Upstream
pub mod Decisions
use orqent.Base.{
  ℕ, zero, suc, ◌+◌, ◌-◌, ◌*◌, ◌≤◌, ◌<◌, String, List, [], ◌∷◌, ◌++◌, map, Option, none, some, Bool,
  true, false, not, ◌&&◌, ◌||◌, ◌==◌, ◌≡◌, ◌≢◌, ◌⊎◌, ◌↔◌, inl, inr, refl, sym, ap, ◌∙◌, arith,
  eq_iff, if◌then◌else◌, ltb, leb, eqb, filter, any, all, length, is_nil, mem, In, mem→In, In→mem,
  In-filter, all_of_In, Dict, is_some, lookup, has, insert, keys, lookup-insert, Result, ok, raise,
  ◌>>=◌, ◌>>◌, >>=-eq-ok, Bool-cases, Option-cases, List-cases, append-nil, append_assoc, and-left,
  and-right, length-append, length-map,
}
use orqent.Graph.Model.{GraphEdge, WorkflowGraph, incoming, node_keys}
use orqent.Engine.State.{
  RunStatus, NodeExecutionStatus, same_run_status, node_is_terminal, EngineError,
  unsupported_fan_in, missing_execution,
}
use orqent.Engine.Snapshot.{
  NodeExecutionSnapshot, RunSnapshot, SchedulerDecision, start_node, set_run_status, recover_node,
  skip_node,
}

abbrev pub is_pending : NodeExecutionStatus → Bool
is_pending NodeExecutionStatus.pending = true
is_pending _ = false

abbrev pub is_running : NodeExecutionStatus → Bool
is_running NodeExecutionStatus.running = true
is_running _ = false

abbrev pub is_waiting : NodeExecutionStatus → Bool
is_waiting NodeExecutionStatus.waiting = true
is_waiting _ = false

abbrev pub is_failed : NodeExecutionStatus → Bool
is_failed NodeExecutionStatus.failed = true
is_failed _ = false

-- A comprehension whose condition may raise.
abbrev pub filter_raising :
    {A : Type 0} → (A → Result EngineError Bool) → List A → Result EngineError (List A)
filter_raising p [] = ok []
filter_raising p (x ∷ xs) =
    p x >>= λ keep. filter_raising p xs >>= λ rest. ok (if keep then x ∷ rest else rest)

abbrev pub map_raising :
    {A B : Type 0} → (A → Result EngineError B) → List A → Result EngineError (List B)
map_raising f [] = ok []
map_raising f (x ∷ xs) = f x >>= λ y. map_raising f xs >>= λ rest. ok (y ∷ rest)

-- `_reject_unsupported_fan_in`, by the targets seen so far.
abbrev pub target_mem : GraphEdge → List GraphEdge → Bool
target_mem edge [] = false
target_mem edge (e ∷ es) =
    ((e.target_key == edge.target_key) && (e.target_handle == edge.target_handle))
    || target_mem edge es

unfoldable pub reject_fan_in : List GraphEdge → List GraphEdge → Result EngineError (Unit {0})
reject_fan_in seen [] = ok tt
reject_fan_in seen (edge ∷ edges) =
    if target_mem edge seen
    then raise (unsupported_fan_in edge.target_key edge.target_handle)
    else reject_fan_in (edge ∷ seen) edges

module _ {V : Type 0} where
  abbrev pub emitted : NodeExecutionSnapshot V → String → Bool
  emitted execution handle = elim execution.outputs [
    | none ↦ false
    | some outputs ↦ has handle outputs
  ]

  abbrev pub silent : NodeExecutionSnapshot V → String → Bool
  silent execution handle = elim execution.outputs [
    | none ↦ false
    | some outputs ↦ not (has handle outputs)
  ]

  abbrev pub live_from : NodeExecutionSnapshot V → String → Bool
  live_from execution handle = elim execution.status [
    | NodeExecutionStatus.succeeded ↦ emitted execution handle
    | _ ↦ false
  ]

  abbrev pub dead_from : NodeExecutionSnapshot V → String → Bool
  dead_from execution handle = elim execution.status [
    | NodeExecutionStatus.skipped ↦ true
    | NodeExecutionStatus.succeeded ↦ silent execution handle
    | _ ↦ false
  ]

-- The chain of tests in `_run_status`.
unfoldable pub concluded : List String → List NodeExecutionStatus → Option RunStatus
concluded starting statuses =
    if not (is_nil starting) || any is_running statuses
    then some RunStatus.running
    else if any is_waiting statuses
    then some RunStatus.suspended
    else if any is_failed statuses
    then some RunStatus.failed
    else if not (is_nil statuses) && all node_is_terminal statuses
    then some RunStatus.completed
    else none

module _ {V : Type 0} (snapshot : RunSnapshot V) where
  -- `_status`
  unfoldable pub status : String → Result EngineError NodeExecutionStatus
  status node_key = elim (lookup node_key snapshot.node_executions) [
    | none ↦ raise (missing_execution node_key)
    | some execution ↦ ok execution.status
  ]

  -- `_is_live`
  unfoldable pub is_live : GraphEdge → Bool
  is_live edge = elim (lookup edge.source_key snapshot.node_executions) [
    | none ↦ false
    | some execution ↦ live_from execution edge.source_handle
  ]

  -- `_is_dead`
  unfoldable pub is_dead : GraphEdge → Bool
  is_dead edge = elim (lookup edge.source_key snapshot.node_executions) [
    | none ↦ false
    | some execution ↦ dead_from execution edge.source_handle
  ]

  -- `_upstream_satisfied`
  unfoldable pub upstream_satisfied : String → Bool
  upstream_satisfied node_key =
      let edges = incoming snapshot.graph node_key in
      if is_nil edges
      then true
      else all (λ edge. is_live edge || is_dead edge) edges && any is_live edges

  -- `_stranded`, by the condition of its comprehension.
  abbrev pub strands : String → Result EngineError Bool
  strands node_key = status node_key >>= λ s. ok (is_running s)

  unfoldable pub stranded : Result EngineError (List String)
  stranded = filter_raising strands (node_keys snapshot.graph)

  -- `_ready`
  abbrev pub may_start : List String → String → Result EngineError Bool
  may_start recovered node_key =
      (if mem node_key recovered then ok true else (status node_key >>= λ s. ok (is_pending s)))
      >>= λ waiting. ok (waiting && upstream_satisfied node_key)

  unfoldable pub ready : List String → Result EngineError (List String)
  ready recovered = filter_raising (may_start recovered) (node_keys snapshot.graph)

  -- `_prunable`
  abbrev pub prunes : String → Result EngineError Bool
  prunes node_key = status node_key >>= λ s. ok (
      is_pending s
      && not (is_nil (incoming snapshot.graph node_key))
      && all is_dead (incoming snapshot.graph node_key))

  unfoldable pub prunable : Result EngineError (List String)
  prunable = filter_raising prunes (node_keys snapshot.graph)

  -- `_run_status`
  unfoldable pub run_status : List String → Result EngineError (Option RunStatus)
  run_status starting =
      map_raising status (node_keys snapshot.graph) >>= λ statuses. ok (concluded starting statuses)

  -- `if run_status is not None and run_status is not snapshot.status`
  abbrev pub status_decision : Option RunStatus → List SchedulerDecision
  status_decision none = []
  status_decision (some s) = if same_run_status s snapshot.status then [] else set_run_status s ∷ []

  unfoldable pub tick : Result EngineError (List SchedulerDecision)
  tick = do
    reject_fan_in [] snapshot.graph.edges
    recovered ← stranded
    skipping ← prunable
    starting ← ready recovered
    conclusion ← run_status starting
    ok (
        map recover_node recovered
        ++ (map skip_node skipping ++ (map start_node starting ++ status_decision conclusion)))

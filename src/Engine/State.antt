-- ===== src/Engine/State.antt =====
-- src/app/domain/engine/state.py and events.py: the two execution state machines as transition
-- tables, the guards that every write goes through, and the event vocabulary.
-- A table is a function into the list of legal successors. The guard's message is not modelled:
-- the exception carries the pair that it names.
pub mod Machine
use orqent.Base.{
  ℕ, zero, suc, ◌+◌, ◌-◌, ◌*◌, ◌≤◌, ◌<◌, String, List, [], ◌∷◌, ◌++◌, map, Option, none, some, Bool,
  true, false, not, ◌&&◌, ◌||◌, ◌==◌, ◌≡◌, ◌≢◌, ◌⊎◌, ◌↔◌, inl, inr, refl, sym, ap, ◌∙◌, arith,
  eq_iff, if◌then◌else◌, ltb, leb, eqb, filter, any, all, length, is_nil, mem, In, mem→In, In→mem,
  In-filter, all_of_In, Dict, is_some, lookup, has, insert, keys, lookup-insert, Result, ok, raise,
  ◌>>=◌, ◌>>◌, >>=-eq-ok, Bool-cases, Option-cases, List-cases, append-nil, append_assoc, and-left,
  and-right, length-append, length-map,
}

pub data RunStatus : Type 0 where
  pending running suspended completed failed : RunStatus

pub data NodeExecutionStatus : Type 0 where
  pending running waiting succeeded failed skipped : NodeExecutionStatus

pub data RunEventType : Type 0 where
  run_started run_suspended run_resumed run_completed run_failed : RunEventType
  node_started node_succeeded node_failed node_suspended node_skipped : RunEventType

-- `a is b` on the members of each enumeration.
abbrev pub same_run_status : RunStatus → RunStatus → Bool
same_run_status RunStatus.pending RunStatus.pending = true
same_run_status RunStatus.running RunStatus.running = true
same_run_status RunStatus.suspended RunStatus.suspended = true
same_run_status RunStatus.completed RunStatus.completed = true
same_run_status RunStatus.failed RunStatus.failed = true
same_run_status _ _ = false

abbrev pub same_node_status : NodeExecutionStatus → NodeExecutionStatus → Bool
same_node_status NodeExecutionStatus.pending NodeExecutionStatus.pending = true
same_node_status NodeExecutionStatus.running NodeExecutionStatus.running = true
same_node_status NodeExecutionStatus.waiting NodeExecutionStatus.waiting = true
same_node_status NodeExecutionStatus.succeeded NodeExecutionStatus.succeeded = true
same_node_status NodeExecutionStatus.failed NodeExecutionStatus.failed = true
same_node_status NodeExecutionStatus.skipped NodeExecutionStatus.skipped = true
same_node_status _ _ = false

-- RUN_TRANSITIONS
unfoldable pub run_transitions : RunStatus → List RunStatus
run_transitions RunStatus.pending = RunStatus.running ∷ RunStatus.completed ∷ RunStatus.failed ∷ []
run_transitions RunStatus.running =
    RunStatus.suspended ∷ RunStatus.completed ∷ RunStatus.failed ∷ []
run_transitions RunStatus.suspended = RunStatus.running ∷ []
run_transitions RunStatus.completed = []
run_transitions RunStatus.failed = []

-- NODE_EXECUTION_TRANSITIONS
unfoldable pub node_execution_transitions : NodeExecutionStatus → List NodeExecutionStatus
node_execution_transitions NodeExecutionStatus.pending =
    NodeExecutionStatus.running ∷ NodeExecutionStatus.skipped ∷ []
node_execution_transitions NodeExecutionStatus.running =
    NodeExecutionStatus.waiting ∷ NodeExecutionStatus.succeeded ∷ NodeExecutionStatus.failed
    ∷ NodeExecutionStatus.pending ∷ []
node_execution_transitions NodeExecutionStatus.waiting = NodeExecutionStatus.running ∷ []
node_execution_transitions NodeExecutionStatus.succeeded = []
node_execution_transitions NodeExecutionStatus.failed = []
node_execution_transitions NodeExecutionStatus.skipped = []

-- `RunStatus.is_terminal` and `NodeExecutionStatus.is_terminal`
unfoldable pub run_is_terminal : RunStatus → Bool
unfolding run_transitions
run_is_terminal status = is_nil (run_transitions status)

unfoldable pub node_is_terminal : NodeExecutionStatus → Bool
unfolding node_execution_transitions
node_is_terminal status = is_nil (node_execution_transitions status)

-- What the modelled code raises. Messages are left out, the values they name are kept.
pub data EngineError : Type 0 where
  invalid_run_transition : RunStatus → RunStatus → EngineError
  invalid_node_transition : NodeExecutionStatus → NodeExecutionStatus → EngineError
  unsupported_fan_in : (node_key handle : String) → EngineError
  missing_execution : (node_key : String) → EngineError
  missing_node : (node_key : String) → EngineError
  unknown_node_type : (node_key : String) → EngineError
  bad_configuration : (node_key : String) → EngineError
  bad_resume_token : (node_key : String) → EngineError
  token_taken : (token : String) → EngineError
  did_not_settle : (limit : ℕ) → EngineError
  not_found not_waiting not_suspended : EngineError
  key_error : EngineError
  interrupted : (node_key : String) → EngineError

-- `_ensure`, at each of its two tables.
unfoldable pub ensure_run_transition : RunStatus → RunStatus → Result EngineError (Unit {0})
unfolding run_transitions
ensure_run_transition current target =
    if any (same_run_status target) (run_transitions current)
    then ok tt
    else raise (invalid_run_transition current target)

unfoldable pub ensure_node_execution_transition :
    NodeExecutionStatus → NodeExecutionStatus → Result EngineError (Unit {0})
unfolding node_execution_transitions
ensure_node_execution_transition current target =
    if any (same_node_status target) (node_execution_transitions current)
    then ok tt
    else raise (invalid_node_transition current target)

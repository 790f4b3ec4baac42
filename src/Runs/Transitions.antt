-- ===== src/Runs/Transitions.antt =====
-- The writes of one transaction: `_apply` for a tick's decisions, and `_settle` with
-- `_refuse_repeat` for what a node did.
pub mod Writes
use orqent.Base.{
  ℕ, zero, suc, ◌+◌, ◌-◌, ◌*◌, ◌≤◌, ◌<◌, String, List, [], ◌∷◌, ◌++◌, map, Option, none, some, Bool,
  true, false, not, ◌&&◌, ◌||◌, ◌==◌, ◌≡◌, ◌≢◌, ◌⊎◌, ◌↔◌, inl, inr, refl, sym, ap, ◌∙◌, arith,
  eq_iff, max, codes, if◌then◌else◌, ltb, leb, eqb, filter, any, all, length, is_nil, mem, In,
  mem→In, In→mem, In-filter, all_of_In, In-append, In-map, not-In-map, Dict, is_some, lookup, has,
  insert, keys, lookup-insert, Result, ok, raise, ◌>>=◌, ◌>>◌, >>=-eq-ok, Bool-cases, Option-cases,
  List-cases, append-nil, append_assoc, and-left, and-right, length-append, length-map,
}
use orqent.Engine.State.{
  RunStatus, NodeExecutionStatus, RunEventType, run_suspended, run_resumed, run_completed,
  run_failed, node_started, node_succeeded, node_failed, node_suspended, node_skipped, EngineError,
  key_error, bad_resume_token, token_taken, same_run_status, run_is_terminal, ensure_run_transition,
  ensure_node_execution_transition,
}
use orqent.Engine.Snapshot.{SchedulerDecision, start_node, set_run_status, recover_node, skip_node}
use orqent.Engine.Invocation.{NodeResult, completed, suspended, failed}
use orqent.Runs.Store.{
  Execution, Run, Store, Payload, no_payload, about, failure, parked, append, finish_outstanding,
  execution_of, write,
}

-- `_RUN_EVENTS`: `none` is a missing key, `some none` the entry `None`.
unfoldable pub run_events : RunStatus → RunStatus → Option (Option RunEventType)
run_events RunStatus.pending RunStatus.running = some none
run_events RunStatus.suspended RunStatus.running = some (some run_resumed)
run_events RunStatus.running RunStatus.suspended = some (some run_suspended)
run_events RunStatus.pending RunStatus.completed = some (some run_completed)
run_events RunStatus.running RunStatus.completed = some (some run_completed)
run_events RunStatus.pending RunStatus.failed = some (some run_failed)
run_events RunStatus.running RunStatus.failed = some (some run_failed)
run_events _ _ = none

abbrev pub public_id_length : ℕ
public_id_length = 26

-- `_validate_resume_token`
unfoldable pub validate_resume_token : String → String → Result EngineError (Unit {0})
validate_resume_token node_key token =
    if is_nil (codes token) || ltb public_id_length (length (codes token))
    then raise (bad_resume_token node_key)
    else ok tt

-- What one invocation comes back as: `_Outcome`.
pub data Outcome (V : Type 0) : Type 0 where
  result : NodeResult V → Outcome V
  repeat_refused : Outcome V

abbrev pub repeat_error : String
repeat_error =
    "This node was interrupted and declares that it must not run more than once, so it was not attempted again."

abbrev pub quotes : (String → String → Bool) → String → Option String → Bool
quotes same token none = false
quotes same token (some held) = same held token

module _ {V : Type 0} where
  -- `run.started_at` and `run.finished_at`, which a status change may stamp.
  abbrev pub stamped : RunStatus → ℕ → Run V → Run V
  stamped status now run = record run {
    status = status;
    started_at = elim run.started_at [
      | none ↦ if same_run_status status RunStatus.running then some now else none
      | some t ↦ some t
    ];
    finished_at = if run_is_terminal status then some now else run.finished_at;
  }

  abbrev pub settle_tasks : RunStatus → Store V → Store V
  settle_tasks status store =
      if same_run_status status RunStatus.suspended || run_is_terminal status
      then finish_outstanding store
      else store

  abbrev pub log_transition : Option (Option RunEventType) → Store V → Result EngineError (Store V)
  log_transition none store = raise key_error
  log_transition (some none) store = ok store
  log_transition (some (some event_type)) store = ok (append event_type no_payload store)

  -- `case SetRunStatus(status)`
  unfoldable pub apply_run_status : RunStatus → Store V → Result EngineError (Store V)
  apply_run_status status store = ensure_run_transition store.run.status status >>= λ _.
      log_transition (run_events store.run.status status) (
        settle_tasks status
          (record store { run = stamped status store.clock store.run; clock = store.clock + 1 }))

  -- `case StartNode(node_key)`
  unfoldable pub apply_start : String → Store V → Result EngineError (Store V)
  apply_start node_key store = do
    execution ← execution_of node_key store
    ensure_node_execution_transition execution.status NodeExecutionStatus.running
    ok (
        append node_started (about node_key) (
          write node_key
            (record execution {
              status = NodeExecutionStatus.running;
              started_at = some store.clock;
            })
            store))

  -- `case RecoverNode(node_key)`
  unfoldable pub apply_recover : String → Store V → Result EngineError (Store V)
  apply_recover node_key store = do
    execution ← execution_of node_key store
    ensure_node_execution_transition execution.status NodeExecutionStatus.pending
    ok (
        write node_key
          (record execution {
            status = NodeExecutionStatus.pending;
            attempt = execution.attempt + 1;
            started_at = none;
          })
          store)

  -- `case SkipNode(node_key)`
  unfoldable pub apply_skip : String → Store V → Result EngineError (Store V)
  apply_skip node_key store = do
    execution ← execution_of node_key store
    ensure_node_execution_transition execution.status NodeExecutionStatus.skipped
    ok (
        append node_skipped (about node_key) (
          write node_key
            (record execution {
              status = NodeExecutionStatus.skipped;
              finished_at = some store.clock;
            })
            store))

  -- `_apply`
  unfoldable pub apply_one : SchedulerDecision → Store V → Result EngineError (Store V)
  apply_one (start_node node_key) store = apply_start node_key store
  apply_one (recover_node node_key) store = apply_recover node_key store
  apply_one (set_run_status status) store = apply_run_status status store
  apply_one (skip_node node_key) store = apply_skip node_key store

  unfoldable pub apply : List SchedulerDecision → Store V → Result EngineError (Store V)
  apply [] store = ok store
  apply (d ∷ ds) store = apply_one d store >>= λ next. apply ds next

  -- The unique index over `resume_token`: another row holds the token. NULLs do not collide.
  unfoldable pub held_by_other :
      (String → String → Bool) → String → String → Dict (Execution V) → Bool
  held_by_other same node_key token [] = false
  held_by_other same node_key token ((key, execution) ∷ rest) =
      (not (key == node_key) && quotes same token execution.resume_token)
      || held_by_other same node_key token rest

  unfoldable pub claim_token : String → String → Store V → Result EngineError (Unit {0})
  unfolding held_by_other
  claim_token node_key token store =
      if held_by_other store.same_token node_key token store.executions
        || any (λ held. store.same_token held token) store.foreign_tokens
      then raise (token_taken token)
      else ok tt

  abbrev pub record_failure :
      String → String → Bool → Execution V → Store V → Result EngineError (Store V)
  record_failure node_key error retryable execution store = do
    ensure_node_execution_transition execution.status NodeExecutionStatus.failed
    ok (
        append node_failed (failure node_key error retryable) (
          write node_key
            (record execution {
              status = NodeExecutionStatus.failed;
              error = some error;
              finished_at = some store.clock;
            })
            store))

  abbrev pub record_result :
      String → NodeResult V → Execution V → Store V → Result EngineError (Store V)
  record_result node_key (completed outputs) execution store = do
    ensure_node_execution_transition execution.status NodeExecutionStatus.succeeded
    ok (
        append node_succeeded (about node_key) (
          write node_key
            (record execution {
              status = NodeExecutionStatus.succeeded;
              output = some outputs;
              finished_at = some store.clock;
            })
            store))
  record_result node_key (failed error retryable) execution store =
      record_failure node_key error retryable execution store
  record_result node_key (suspended token hint) execution store = do
    validate_resume_token node_key token
    ensure_node_execution_transition execution.status NodeExecutionStatus.waiting
    claim_token node_key token store
    ok (
        append node_suspended (parked node_key hint) (
          write node_key
            (record execution { status = NodeExecutionStatus.waiting; resume_token = some token })
            store))

  -- `_settle`
  unfoldable pub settle : String → Outcome V → Store V → Result EngineError (Store V)
  settle node_key (result r) store =
      execution_of node_key store >>= λ execution. record_result node_key r execution store
  settle node_key repeat_refused store = execution_of node_key store >>= λ execution.
      record_failure node_key repeat_error false execution store

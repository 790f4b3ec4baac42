-- ===== src/Runs/Advance.antt =====
-- `_advance`, `_invoke`, `_execute` and `resume_run`. One process advances the run: between two
-- transactions of the loop the rows change by its own writes only (the queue's lease on the run).
-- The count of cycles left stands for `limit - cycles`.
mod Unpark
pub mod Rule
use orqent.Base.{
  ℕ, zero, suc, ◌+◌, ◌-◌, ◌*◌, ◌≤◌, ◌<◌, String, List, [], ◌∷◌, ◌++◌, map, Option, none, some, Bool,
  true, false, not, ◌&&◌, ◌||◌, ◌==◌, ◌≡◌, ◌≢◌, ◌⊎◌, ◌↔◌, inl, inr, refl, sym, ap, ◌∙◌, arith,
  eq_iff, max, codes, if◌then◌else◌, ltb, leb, eqb, filter, any, all, length, is_nil, mem, In,
  mem→In, In→mem, In-filter, all_of_In, In-append, In-map, not-In-map, Dict, is_some, lookup, has,
  insert, keys, lookup-insert, Result, ok, raise, ◌>>=◌, ◌>>◌, >>=-eq-ok, Bool-cases, Option-cases,
  List-cases, append-nil, append_assoc, and-left, and-right, length-append, length-map,
}
use orqent.Graph.Model.{WorkflowGraph, node, size}
use orqent.Engine.State.{
  RunStatus, NodeExecutionStatus, run_resumed, node_started, EngineError, did_not_settle, not_found,
  not_waiting, not_suspended, ensure_run_transition, ensure_node_execution_transition,
  same_run_status, same_node_status,
}
use orqent.Engine.Snapshot.{RunSnapshot, SchedulerDecision, start_node}
use orqent.Engine.Scheduler.{tick}
use orqent.Engine.Invocation.{
  SideEffect, Registry, IdempotencyKey, NodeResult, get, build_context, invoke,
}
use orqent.Runs.Store.{
  Execution, Run, Store, no_payload, about, append, enqueue, execution_of, write, snapshot,
}
use orqent.Runs.Transitions.{Outcome, result, repeat_refused, apply, settle}

abbrev pub is_at_most_once : SideEffect → Bool
is_at_most_once SideEffect.at_most_once = true
is_at_most_once _ = false

-- `[d.node_key for d in decisions if isinstance(d, StartNode)]`
unfoldable pub started : List SchedulerDecision → List String
started [] = []
started (start_node key ∷ ds) = key ∷ started ds
started (_ ∷ ds) = started ds

-- The rows, and the exception that ended the call, if one did.
abbrev pub Ended : Type 0 → Type 0
Ended V = Store V × Option EngineError

-- `if failure is not None: raise failure`, and otherwise the rest of the loop.
abbrev pub unless_failed : {V : Type 0} → Ended V → (Store V → Ended V) → Ended V
unless_failed (store, some e) rest = (store, some e)
unless_failed (store, none) rest = rest store

abbrev pub first_failure : Option EngineError → EngineError → Option EngineError
first_failure none e = some e
first_failure (some e) _ = some e

module _ {V : Type 0} where
  -- `for node_key, outcome in zip(started, outcomes)`
  unfoldable pub settle_batch :
      List (String × Result EngineError (Outcome V)) → Option EngineError → Store V → Ended V
  settle_batch [] failure store = (store, failure)
  settle_batch ((node_key, raise e) ∷ rest) failure store =
      settle_batch rest (first_failure failure e) store
  settle_batch ((node_key, ok outcome) ∷ rest) failure store =
      elim (settle node_key outcome store) [
        | raise e ↦ (store, some e)
        | ok next ↦ settle_batch rest failure next
      ]

  -- `get_by_resume_token` within the run, and `next(key for key, candidate in ...)`.
  unfoldable pub waiting_for :
      (String → String → Bool) → String → Dict (Execution V) → Option String
  waiting_for same token [] = none
  waiting_for same token ((key, e) ∷ rest) =
      let later = waiting_for same token rest in
      elim e.resume_token [ none ↦ later | some t ↦ if same t token then some key else later ]

  -- The transaction of `resume_run`.
  unfoldable pub unpark : String → Execution V → Store V → Result EngineError (Store V)
  unpark node_key execution store =
      if not (same_node_status execution.status NodeExecutionStatus.waiting)
      then raise not_waiting
      else if not (same_run_status store.run.status RunStatus.suspended)
      then raise not_suspended
      else (ensure_node_execution_transition execution.status NodeExecutionStatus.running >>= λ _.
          ensure_run_transition store.run.status RunStatus.running >>= λ _.
          let woken =
            write node_key
              (record execution {
                status = NodeExecutionStatus.running;
                resume_token = none;
                started_at = some store.clock;
              })
              store in
          ok (
            enqueue (
              append node_started (about node_key) (
                append run_resumed no_payload
                  (record woken { run = record (woken.run) { status = RunStatus.running } })))))

module _ {V : Type 0} (registry : Registry V) where
  -- `_repeat_would_be_unsafe`
  unfoldable pub repeat_would_be_unsafe : RunSnapshot V → String → ℕ → Result EngineError Bool
  repeat_would_be_unsafe view node_key attempt =
      if leb attempt 1 then ok false else elim (node view.graph node_key) [
        | none ↦ ok false
        | some n ↦ get registry n >>= λ descriptor. ok (is_at_most_once descriptor.side_effect)
      ]

  -- `_invoke`
  unfoldable pub invoke_node :
      RunSnapshot V
      → String
      → IdempotencyKey
      → (organization_public_id : String) → (resume_token : Option String) → (moment : ℕ)
      → Result EngineError (Outcome V)
  invoke_node view node_key key organization token moment =
      repeat_would_be_unsafe view node_key key.attempt >>= λ unsafe.
      if unsafe
      then ok repeat_refused
      else (build_context view registry node_key key organization token >>= λ context.
          invoke view registry node_key moment context >>= λ r. ok (result r))

  -- One call of `_invoke`, on the rows just committed: an element of the batch that `gather`
  -- awaits, or with the token the call that a resume makes.
  unfoldable pub invoke_started :
      RunSnapshot V → Option String → Store V → String → Result EngineError (Outcome V)
  invoke_started view token store node_key = execution_of node_key store >>= λ execution.
      invoke_node view node_key
        (record {
          run_id = store.run.id;
          workflow_node_id = execution.workflow_node_id;
          attempt = execution.attempt;
        })
        store.organization_public_id token store.clock

  -- One cycle: the decisions committed, then the batch invoked, then its outcomes settled.
  unfoldable pub cycle : List SchedulerDecision → Store V → Ended V
  cycle decisions store = elim (apply decisions store) [
    | raise e ↦ (store, some e)
    | ok next ↦
        settle_batch
          (map (λ key. (key, invoke_started (snapshot store) none next key)) (started decisions))
          none next
  ]

  unfoldable pub advance_from : (limit left : ℕ) → Store V → Ended V
  advance_from limit zero store = elim (tick (snapshot store)) [
    | raise e ↦ (store, some e)
    | ok [] ↦ (store, none)
    | ok (_ ∷ _) ↦ (store, some (did_not_settle limit))
  ]
  advance_from limit (suc left) store = elim (tick (snapshot store)) [
    | raise e ↦ (store, some e)
    | ok [] ↦ (store, none)
    | ok (d ∷ ds) ↦ unless_failed (cycle (d ∷ ds) store) (λ next. advance_from limit left next)
  ]

  -- `_advance`
  unfoldable pub advance : Store V → Ended V
  advance store = let limit = size store.graph + 1 in advance_from limit limit store

  -- `_execute` with the token, then `_advance`.
  abbrev pub carry_on : RunSnapshot V → String → String → Store V → Ended V
  carry_on view node_key token store =
      elim (invoke_started view (some token) store node_key >>= λ outcome.
      settle node_key outcome store) [ raise e ↦ (store, some e) | ok next ↦ advance next ]

  unfoldable pub resume_run : String → Store V → Ended V
  resume_run token store = elim (waiting_for store.same_token token store.executions) [
    | none ↦ (store, some not_found)
    | some node_key ↦
        elim (execution_of node_key store >>= λ execution. unpark node_key execution store) [
          | raise e ↦ (store, some e)
          | ok woken ↦ carry_on (snapshot store) node_key token woken
        ]
  ]

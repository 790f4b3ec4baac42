-- ===== src/Runs/Transitions/Writes/Nodes.antt =====
-- The writes of a node execution, by `_apply` and `_settle`.
use orqent.Base.{
  String, some, Bool, false, ◌≡◌, ◌⊎◌, inl, inr, refl, arith, lookup, Result, ok, raise, ◌>>◌,
  ok-injective, >>=-eq-ok,
}
use mathlib.Core.Path.{subst}
use orqent.Engine.State.{
  NodeExecutionStatus, RunEventType, EngineError, ensure_node_execution_transition, node_started,
  node_skipped, node_failed, node_succeeded, node_suspended,
}
use orqent.Engine.Invocation.{NodeResult, completed, suspended, failed}
use orqent.Runs.Store.{
  Execution, Store, Payload, about, failure, parked, append, execution_of, write,
}
use orqent.Runs.Transitions.{
  Outcome, result, repeat_refused, repeat_error, apply_start, apply_skip, apply_recover, settle,
  validate_resume_token, claim_token, record_result, record_failure,
}
use orqent.Runs.Transitions.Writes.{NodeWrite, WriteOf, Closes, append-IsNumbered}

pub execution_of-found :
    {V : Type 0} (k : String) (s : Store V) {e : Execution V}
    → execution_of k s ≡ ok e
    → lookup k s.executions ≡ some e
unfolding execution_of
execution_of-found k s h = ground arith

-- A test that a chain has passed may be left out of it.
>>-drop :
    {A : Type 0} (first second : Result EngineError (Unit {0})) (rest : Result EngineError A)
    {a : A}
    → (first >> (second >> rest)) ≡ ok a
    → (first >> rest) ≡ ok a
>>-drop (raise e) second rest h = h
>>-drop (ok u) (raise e) rest h = cc
>>-drop (ok u) (ok v) rest h = h

module _ {V : Type 0} where
  pub NodeWrite-write :
      (k : String) (before after : Execution V) (s : Store V)
      → lookup k s.executions ≡ some before
      → ensure_node_execution_transition before.status after.status ≡ ok tt
      → (after.output ≡ before.output) ⊎ (after.status ≡ NodeExecutionStatus.succeeded)
      → NodeWrite V s (write k after s)
  unfolding write
  NodeWrite-write k before after s found allowed kept = record {
    key = k;
    before = before;
    after = after;
    found = found;
    allowed = allowed;
    kept = kept;
    executions = refl;
    run = refl;
    graph = refl;
    tasks = refl;
    numbered = λ h. h;
  }

  NodeWrite-append :
      (t : RunEventType) (p : Payload) (s s' : Store V)
      → NodeWrite V s s'
      → NodeWrite V s (append t p s')
  unfolding append
  NodeWrite-append t p s s' w = record {
    key = w.key;
    before = w.before;
    after = w.after;
    found = w.found;
    allowed = w.allowed;
    kept = w.kept;
    executions = w.executions;
    run = w.run;
    graph = w.graph;
    tasks = w.tasks;
    numbered = λ h. append-IsNumbered t p s' (w.numbered h);
  }

  WriteOf-append :
      (t : RunEventType) (p : Payload) (k : String) (target : NodeExecutionStatus) (s s' : Store V)
      → WriteOf V k target s s'
      → WriteOf V k target s (append t p s')
  unfolding NodeWrite-append
  WriteOf-append t p k target s s' w = record {
    base = NodeWrite-append t p s s' w.base;
    keyed = w.keyed;
    reached = w.reached;
  }

  -- The shape that every case of `_apply` and `_settle` has.
  NodeWrite-guarded :
      (target : NodeExecutionStatus) (k : String) (before after : Execution V)
      (finish : Store V → Store V) (s : Store V) {s' : Store V}
      → (ensure_node_execution_transition before.status target >> ok (finish (write k after s)))
        ≡ ok s'
      → lookup k s.executions ≡ some before
      → after.status ≡ target
      → (after.output ≡ before.output) ⊎ (after.status ≡ NodeExecutionStatus.succeeded)
      → ((m : Store V) → WriteOf V k target s m → WriteOf V k target s (finish m))
      → WriteOf V k target s s'
  unfolding NodeWrite-write
  NodeWrite-guarded target k before after finish s h found reached kept closing =
      let (_, guarded, last) =
        >>=-eq-ok (ensure_node_execution_transition before.status target) _ h in
      subst (WriteOf V k target s) (ok-injective last) (
        closing (write k after s) (record {
          base = NodeWrite-write k before after s found (rw (reached, guarded)) kept;
          keyed = refl;
          reached = reached;
        }))

module _ {V : Type 0} (k : String) (s : Store V) {s' : Store V} where
  pub apply_start-NodeWrite : apply_start k s ≡ ok s' → WriteOf V k NodeExecutionStatus.running s s'
  unfolding apply_start
  apply_start-NodeWrite h =
      let (e, found, h1) = >>=-eq-ok (execution_of k s) _ h in
      NodeWrite-guarded NodeExecutionStatus.running k e _ (append node_started (about k)) s h1
        (execution_of-found k s found) refl (inl refl)
        (λ m. WriteOf-append node_started (about k) k _ s m)

  pub apply_skip-NodeWrite : apply_skip k s ≡ ok s' → WriteOf V k NodeExecutionStatus.skipped s s'
  unfolding apply_skip
  apply_skip-NodeWrite h =
      let (e, found, h1) = >>=-eq-ok (execution_of k s) _ h in
      NodeWrite-guarded NodeExecutionStatus.skipped k e _ (append node_skipped (about k)) s h1
        (execution_of-found k s found) refl (inl refl)
        (λ m. WriteOf-append node_skipped (about k) k _ s m)

  pub apply_recover-NodeWrite :
      apply_recover k s ≡ ok s' → WriteOf V k NodeExecutionStatus.pending s s'
  unfolding apply_recover
  apply_recover-NodeWrite h =
      let (e, found, h1) = >>=-eq-ok (execution_of k s) _ h in
      NodeWrite-guarded NodeExecutionStatus.pending k e _ (λ m. m) s h1
        (execution_of-found k s found) refl (inl refl) (λ m w. w)

  record_failure-NodeWrite :
      (error : String) (retryable : Bool) (e : Execution V)
      → lookup k s.executions ≡ some e
      → record_failure k error retryable e s ≡ ok s'
      → WriteOf V k NodeExecutionStatus.failed s s'
  record_failure-NodeWrite error retryable e found h =
      NodeWrite-guarded NodeExecutionStatus.failed k e _
        (append node_failed (failure k error retryable)) s h found refl (inl refl)
        (λ m. WriteOf-append node_failed (failure k error retryable) k _ s m)

  record_result-NodeWrite :
      (r : NodeResult V) (e : Execution V)
      → lookup k s.executions ≡ some e
      → record_result k r e s ≡ ok s'
      → Closes V k s s'
  record_result-NodeWrite (completed outputs) e found h = record {
    target = NodeExecutionStatus.succeeded;
    settled = refl;
    written =
        NodeWrite-guarded NodeExecutionStatus.succeeded k e _ (append node_succeeded (about k)) s h
          found refl (inr refl) (λ m. WriteOf-append node_succeeded (about k) k _ s m);
  }
  record_result-NodeWrite (failed error retryable) e found h = record {
    target = NodeExecutionStatus.failed;
    settled = refl;
    written = record_failure-NodeWrite error retryable e found h;
  }
  record_result-NodeWrite (suspended token hint) e found h =
      let (_, _, h1) = >>=-eq-ok (validate_resume_token k token) _ h in
      let last =
        >>-drop (ensure_node_execution_transition e.status NodeExecutionStatus.waiting)
          (claim_token k token s) _ h1 in
      record {
        target = NodeExecutionStatus.waiting;
        settled = refl;
        written =
            NodeWrite-guarded NodeExecutionStatus.waiting k e _
              (append node_suspended (parked k hint)) s last found refl (inl refl)
              (λ m. WriteOf-append node_suspended (parked k hint) k _ s m);
      }

  pub settle-NodeWrite : (o : Outcome V) → settle k o s ≡ ok s' → Closes V k s s'
  unfolding settle
  settle-NodeWrite (result r) h =
      let (e, found, h1) = >>=-eq-ok (execution_of k s) _ h in
      record_result-NodeWrite r e (execution_of-found k s found) h1
  settle-NodeWrite repeat_refused h =
      let (e, found, h1) = >>=-eq-ok (execution_of k s) _ h in
      record {
        target = NodeExecutionStatus.failed;
        settled = refl;
        written = record_failure-NodeWrite repeat_error false e (execution_of-found k s found) h1;
      }

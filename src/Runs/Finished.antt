-- ===== src/Runs/Finished.antt =====
-- A run that has reached a final status while a node can still be started. The tick starts the node
-- and asks for the run to be running again, which the guard refuses.
use orqent.Base.{
  ℕ, zero, suc, String, List, [], ◌∷◌, ◌++◌, map, some, true, ◌≡◌, ◌≢◌, inl, inr, refl, sym, ◌∙◌,
  arith, In, ok, ◌>>=◌, >>=-eq-ok, Result-cases, append_assoc,
}
use orqent.Engine.State.{
  RunStatus, NodeExecutionStatus, EngineError, run_is_terminal, ensure_run_transition,
}
use orqent.Engine.Snapshot.{SchedulerDecision, start_node, set_run_status, recover_node, skip_node}
use orqent.Runs.Store.{Store}
use orqent.Runs.Transitions.{apply_one, apply, apply_run_status}
use orqent.Graph.Model.{node_keys}
use orqent.Engine.State.{did_not_settle}
use orqent.Engine.Invocation.{Registry}
use orqent.Engine.Scheduler.{tick, concluded, run_status, status_decision, map_raising, status}
use orqent.Engine.Scheduler.Decisions.{tick-Parts, In-starting}
use orqent.Engine.State.Machine.{RunHistory-terminal}
use orqent.Runs.Store.{snapshot}
use orqent.Runs.Advance.{advance, advance_from, cycle}
use orqent.Runs.Advance.Rule.{apply-Keeps}
use orqent.Runs.Invariants.{Follows-Keeps, Follows-refl}

starting_concludes :
    (k : String) (starting : List String) (statuses : List NodeExecutionStatus)
    → In k starting
    → concluded starting statuses ≡ some RunStatus.running
unfolding concluded
starting_concludes k [] statuses m = absurd m
starting_concludes k (_ ∷ _) statuses m = refl

module _ {V : Type 0} where
  pub apply-append :
      (xs ys : List SchedulerDecision) (s : Store V)
      → apply (xs ++ ys) s ≡ (apply xs s >>= λ m. apply ys m)
  unfolding apply
  apply-append [] ys s = refl
  apply-append (d ∷ xs) ys s = elim (Result-cases (apply_one d s)) [
    | inl (e, r) ↦ rw r
    | inr (m, r) ↦ rw r (apply-append xs ys m)
  ]

  not_restarted :
      (s : Store V) {s' : Store V}
      → run_is_terminal s.run.status ≡ true
      → apply (set_run_status RunStatus.running ∷ []) s ≢ ok s'
  unfolding apply apply_one apply_run_status ensure_run_transition run_is_terminal
  not_restarted s h = ground arith

  -- Decisions that end by asking for `running` cannot be applied to a finished run.
  not_applied :
      (xs : List SchedulerDecision) (s : Store V) {s' : Store V}
      → run_is_terminal s.run.status ≡ true
      → apply (xs ++ set_run_status RunStatus.running ∷ []) s ≢ ok s'
  not_applied xs s h e =
      let (m, first, last) = >>=-eq-ok (apply xs s) _ (sym (apply-append xs _ s) ∙ e) in
      let f = apply-Keeps (Follows-Keeps s) xs s first (Follows-refl s) in
      not_restarted m (rw (RunHistory-terminal f.run h) h) last

  ends_running :
      (s : Store V) (k : String) {ds : List SchedulerDecision}
      → run_is_terminal s.run.status ≡ true
      → tick (snapshot s) ≡ ok ds
      → In (start_node k) ds
      → (xs : List SchedulerDecision) × (ds ≡ xs ++ set_run_status RunStatus.running ∷ [])
  unfolding run_status snapshot run_is_terminal
  ends_running s k final h m =
      let p = tick-Parts (snapshot s) h in
      let (statuses, _, c) =
        >>=-eq-ok (map_raising (status (snapshot s)) (node_keys s.graph)) _ p.concludes in
      let running = starting_concludes k p.starting statuses ((In-starting (snapshot s) p k).0 m) in
      let asks : status_decision (snapshot s) p.conclusion ≡ set_run_status RunStatus.running ∷ [] =
        ground arith in
      let recovering = map recover_node p.recovered in
      let skipping = map skip_node p.skipping in
      let starting = map start_node p.starting in
      (recovering ++ (skipping ++ starting), p.joined ∙ simp (asks, append_assoc))

  pub finished_not_applied :
      (s : Store V) (k : String) {ds : List SchedulerDecision} {s' : Store V}
      → run_is_terminal s.run.status ≡ true
      → tick (snapshot s) ≡ ok ds
      → In (start_node k) ds
      → apply ds s ≢ ok s'
  finished_not_applied s k final h m e =
      let (xs, split) = ends_running s k final h m in not_applied xs s final (rw split at e)

  advance_from_raises :
      (registry : Registry V) (limit left : ℕ) (s : Store V) (k : String)
      (ds : List SchedulerDecision)
      → run_is_terminal s.run.status ≡ true
      → tick (snapshot s) ≡ ok ds
      → In (start_node k) ds
      → (e : EngineError) × (advance_from registry limit left s ≡ (s, some e))
  unfolding advance_from cycle
  advance_from_raises registry limit left s k [] final h m = absurd m
  advance_from_raises registry limit zero s k (d ∷ ds) final h m =
      (did_not_settle limit, rw (h, advance_from))
  advance_from_raises registry limit (suc left) s k (d ∷ ds) final h m =
      elim (Result-cases (apply (d ∷ ds) s)) [
        | inl (e, r) ↦ (e, rw (h, advance_from) (rw (r, cycle)))
        | inr (s', r) ↦ absurd (finished_not_applied s k final h m r)
      ]

-- A call of `_advance` on a completed or failed run in which the tick would still start a node
-- raises and leaves the rows as they were, so that node is never started.
pub finished_run_is_stuck :
    {V : Type 0} (registry : Registry V) (s : Store V) (k : String) (ds : List SchedulerDecision)
    → run_is_terminal s.run.status ≡ true
    → tick (snapshot s) ≡ ok ds
    → In (start_node k) ds
    → (e : EngineError) × (advance registry s ≡ (s, some e))
unfolding advance
finished_run_is_stuck registry s k ds final h m = advance_from_raises registry _ _ s k ds final h m

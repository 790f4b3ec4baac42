-- ===== src/Runs/Transitions/Writes/Rows.antt =====
-- The write of the run's row, by `_apply`.
use orqent.Base.{
  List, [], ◌∷◌, map, Option, none, some, false, ◌≡◌, inl, inr, refl, arith, if◌then◌else◌, any, ok,
  ok-injective, >>=-eq-ok, Bool-cases,
}
use mathlib.Core.Path.{subst}
use orqent.Engine.State.{RunStatus, RunEventType, ensure_run_transition}
use orqent.Runs.Store.{
  Store, Payload, no_payload, append, finish_outstanding, outstanding, TaskStatus,
}
use orqent.Runs.Transitions.{apply_run_status, run_events, settle_tasks, log_transition}
use orqent.Runs.Transitions.Writes.{RunWrite, is_quiet, append-IsNumbered}

finished_tasks :
    (ts : List TaskStatus)
    → any outstanding (map (λ t. if outstanding t then TaskStatus.done else t) ts) ≡ false
finished_tasks [] = refl
finished_tasks (t ∷ ts) = ground (arith, finished_tasks ts)

module _ {V : Type 0} (s : Store V) where
  pub RunWrite-append :
      (t : RunEventType) (p : Payload) (m : Store V) → RunWrite V s m → RunWrite V s (append t p m)
  unfolding append
  RunWrite-append t p m w = record {
    allowed = w.allowed;
    executions = w.executions;
    graph = w.graph;
    quiet = w.quiet;
    numbered = λ h. append-IsNumbered t p m (w.numbered h);
  }

  RunWrite-logged :
      (o : Option (Option RunEventType)) (m : Store V) {s' : Store V}
      → log_transition o m ≡ ok s'
      → RunWrite V s m
      → RunWrite V s s'
  RunWrite-logged none m h w = cc
  RunWrite-logged (some none) m h w = subst (RunWrite V s) (ok-injective h) w
  RunWrite-logged (some (some t)) m h w =
      subst (RunWrite V s) (ok-injective h) (RunWrite-append t no_payload m w)

  RunWrite-settled :
      (status : RunStatus) (m : Store V)
      → ensure_run_transition s.run.status status ≡ ok tt
      → m.executions ≡ s.executions
      → m.graph ≡ s.graph
      → m.run.status ≡ status
      → m.events ≡ s.events
      → RunWrite V s (settle_tasks status m)
  unfolding finish_outstanding
  RunWrite-settled status m allowed executions graph reached events =
      elim (Bool-cases (is_quiet status)) [
        | inl quiet ↦ rw quiet (record {
          allowed = rw (reached, allowed);
          executions = executions;
          graph = graph;
          quiet = λ _. finished_tasks m.tasks;
          numbered = λ h. rw (events) h;
        })
        | inr busy ↦ rw busy (record {
          allowed = rw (reached, allowed);
          executions = executions;
          graph = graph;
          quiet = λ h. ground arith;
          numbered = λ h. rw (events) h;
        })
      ]

module _ {V : Type 0} (status : RunStatus) (s : Store V) {s' : Store V} where
  pub apply_run_status-RunWrite : apply_run_status status s ≡ ok s' → RunWrite V s s'
  unfolding apply_run_status
  apply_run_status-RunWrite h =
      let (_, guarded, h1) = >>=-eq-ok (ensure_run_transition s.run.status status) _ h in
      RunWrite-logged s (run_events s.run.status status) _ h1
        (RunWrite-settled s status _ guarded refl refl refl refl)

-- ===== src/Runs/Invariants.antt =====
-- What holds of a run's rows after every call of `_advance` and `resume_run`, whatever the runners
-- reply and also where the call raises.
use orqent.Base.{
  String, none, some, true, false, ◌==◌, ◌≡◌, ◌≢◌, inl, inr, refl, ◌∙◌, arith, eq_iff,
  if◌then◌else◌, any, lookup, lookup-insert, Bool-cases,
}
use orqent.Engine.State.{NodeExecutionStatus, node_is_terminal}
use orqent.Runs.Store.{Execution, Store, outstanding}
use mathlib.Core.Path.{subst}
use orqent.Engine.Invocation.{Registry}
use orqent.Engine.State.Machine.{NodeHistory, RunHistory, NodeHistory-terminal, node_stuck}
use orqent.Runs.Advance.{advance, resume_run}
use orqent.Runs.Advance.Rule.{Keeps, advance-Keeps, resume_run-Keeps}
use orqent.Runs.Transitions.Writes.{NodeWrite, is_quiet, IsNumbered}

pub record IsConsistent (V : Type 0) (s : Store V) : Type 0 where
  pub numbered : IsNumbered s.events
  pub silent :
      (k : String) (e : Execution V)
      → lookup k s.executions ≡ some e
      → e.status ≢ NodeExecutionStatus.succeeded
      → e.output ≡ none
  pub quiet : is_quiet s.run.status ≡ true → any outstanding s.tasks ≡ false

-- How the rows of one store have become those of another.
pub record Follows (V : Type 0) (s s' : Store V) : Type 0 where
  pub nodes :
      (k : String) (e : Execution V)
      → lookup k s.executions ≡ some e
      → (e' : Execution V) × (lookup k s'.executions ≡ some e')
        × NodeHistory e.status e'.status
        × (node_is_terminal e.status ≡ true → (e'.status ≡ e.status) × (e'.output ≡ e.output))
  pub run : RunHistory s.run.status s'.run.status
  pub graph : s'.graph ≡ s.graph

module _ {V : Type 0} where
  lookup-NodeWrite :
      {s s' : Store V} (w : NodeWrite V s s') (k : String)
      → lookup k s'.executions ≡ (if w.key == k then some w.after else lookup k s.executions)
  lookup-NodeWrite {s} w k = rw (w.executions) (lookup-insert w.key k w.after s.executions)

  -- The row that is written stands where a lookup by an equal key finds it.
  found_at :
      {s s' : Store V} (w : NodeWrite V s s') (k : String)
      → (w.key == k) ≡ true
      → lookup k s.executions ≡ some w.before
  found_at {s} w k same =
      subst (λ j. lookup j s.executions ≡ some w.before) ((eq_iff w.key k).0 same) w.found

  not_succeeded :
      {s s' : Store V} (w : NodeWrite V s s') → w.before.status ≢ NodeExecutionStatus.succeeded
  unfolding node_is_terminal
  not_succeeded w e = node_stuck w.before.status w.after.status (rw e) w.allowed

  silent-NodeWrite :
      (s s' : Store V) (w : NodeWrite V s s')
      → IsConsistent V s
      → (k : String) (e : Execution V) → lookup k s'.executions ≡ some e
      → e.status ≢ NodeExecutionStatus.succeeded
      → e.output ≡ none
  silent-NodeWrite s s' w c k e found other = elim (Bool-cases (w.key == k)) [
    | inl same ↦
        let now : e ≡ w.after = ground (arith, lookup-NodeWrite w k) in
        let before = c.silent k w.before (found_at w k same) (not_succeeded w) in
        elim w.kept [ inl kept ↦ ground arith | inr done ↦ absurd (other (ground arith)) ]
    | inr differ ↦ c.silent k e (ground (arith, lookup-NodeWrite w k)) other
  ]

  IsConsistent-Keeps : Keeps V (IsConsistent V)
  IsConsistent-Keeps = record {
    node_write = λ s s' w c. record {
      numbered = w.numbered c.numbered;
      silent = silent-NodeWrite s s' w c;
      quiet = rw (w.run, w.tasks) c.quiet;
    };
    run_write = λ s s' w c. record {
      numbered = w.numbered c.numbered;
      silent = rw (w.executions) c.silent;
      quiet = w.quiet;
    };
  }

  Follows-node : (s0 s s' : Store V) → NodeWrite V s s' → Follows V s0 s → Follows V s0 s'
  Follows-node s0 s s' w f = record {
    nodes = λ k e found.
        let (now, there, history, kept) = f.nodes k e found in
        elim (Bool-cases (w.key == k)) [
          | inl same ↦
              let was : now ≡ w.before = ground (arith, found_at w k same) in
              (
                w.after,
                ground (arith, lookup-NodeWrite w k),
                NodeHistory.write history (rw was w.allowed),
                λ final. absurd (
                    node_stuck w.before.status w.after.status
                      (rw (← was) (rw (NodeHistory-terminal history final) final)) w.allowed),
              )
          | inr differ ↦ (now, ground (arith, lookup-NodeWrite w k), history, kept)
        ];
    run = rw (w.run) f.run;
    graph = w.graph ∙ f.graph;
  }

  pub Follows-Keeps : (s0 : Store V) → Keeps V (Follows V s0)
  Follows-Keeps s0 = record {
    node_write = Follows-node s0;
    run_write = λ s s' w f. record {
      nodes = rw (w.executions) f.nodes;
      run = RunHistory.move f.run w.allowed;
      graph = w.graph ∙ f.graph;
    };
  }

-- After a call of `_advance` or `resume_run` on consistent rows they are consistent again: the
-- events are numbered 1, 2, 3, ... without a gap, an execution that has not succeeded has no
-- output, and a suspended or finished run has no outstanding queue task.
pub advance-IsConsistent :
    {V : Type 0} (registry : Registry V) (token : String) (s : Store V)
    → IsConsistent V s
    → IsConsistent V (advance registry s).0 × IsConsistent V (resume_run registry token s).0
advance-IsConsistent registry token s c = (
  advance-Keeps IsConsistent-Keeps registry s c,
  resume_run-Keeps IsConsistent-Keeps registry token s c,
)

pub Follows-refl : {V : Type 0} (s : Store V) → Follows V s s
Follows-refl s = record {
  nodes = λ k e found. (e, found, NodeHistory.here, λ _. (refl, refl));
  run = RunHistory.start;
  graph = refl;
}

-- A call of `_advance` or `resume_run` loses no node execution, moves each one and the run only
-- along writes that the guards admit, leaves the graph alone, and changes neither the status nor
-- the output of an execution that was terminal before.
pub advance_preserves :
    {V : Type 0} (registry : Registry V) (token : String) (s : Store V)
    → Follows V s (advance registry s).0 × Follows V s (resume_run registry token s).0
advance_preserves registry token s = (
  advance-Keeps (Follows-Keeps s) registry s (Follows-refl s),
  resume_run-Keeps (Follows-Keeps s) registry token s (Follows-refl s),
)

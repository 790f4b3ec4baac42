-- ===== src/Runs/Advance/Rule.antt =====
-- A proof rule: what every guarded write keeps, `_advance` and `resume_run` keep, whether they
-- return or raise.
use orqent.Base.{
  ℕ, zero, suc, String, List, [], ◌∷◌, Option, none, some, ◌≡◌, inl, inr, Result, ok, raise, ◌>>=◌,
  ok-injective, Result-cases, >>=-eq-ok, Option-cases,
}
use orqent.Engine.State.{EngineError}
use orqent.Engine.Snapshot.{SchedulerDecision}
use orqent.Runs.Store.{Store, execution_of}
use orqent.Runs.Transitions.{Outcome, apply_one, apply, settle}
use mathlib.Core.Path.{subst}
use orqent.Engine.Scheduler.{tick}
use orqent.Engine.Snapshot.{RunSnapshot}
use orqent.Engine.Invocation.{Registry}
use orqent.Runs.Store.{snapshot}
use orqent.Runs.Advance.{
  Ended, unless_failed, first_failure, invoke_started, settle_batch, cycle, advance_from, advance,
  waiting_for, unpark, carry_on, resume_run,
}
use orqent.Runs.Advance.Unpark.{unpark-writes}
use orqent.Runs.Transitions.Writes.{NodeWrite, RunWrite}
use orqent.Runs.Transitions.Writes.Nodes.{settle-NodeWrite}
use orqent.Runs.Transitions.Writes.Applied.{of_node, of_run, apply_one-Write}

pub record Keeps (V : Type 0) (P : Store V → Type 0) : Type 0 where
  pub node_write : (s s' : Store V) → NodeWrite V s s' → P s → P s'
  pub run_write : (s s' : Store V) → RunWrite V s s' → P s → P s'

module _ {V : Type 0} {P : Store V → Type 0} (keeps : Keeps V P) where
  apply_one-Keeps :
      (d : SchedulerDecision) (s : Store V) {s' : Store V} → apply_one d s ≡ ok s' → P s → P s'
  apply_one-Keeps d s h p = elim (apply_one-Write d s h) [
    | of_node w ↦ keeps.node_write s _ w p
    | of_run w ↦ keeps.run_write s _ w p
  ]

  pub apply-Keeps :
      (ds : List SchedulerDecision) (s : Store V) {s' : Store V} → apply ds s ≡ ok s' → P s → P s'
  unfolding apply
  apply-Keeps [] s h p = subst P (ok-injective h) p
  apply-Keeps (d ∷ ds) s h p =
      let (m, first, rest) = >>=-eq-ok (apply_one d s) _ h in
      apply-Keeps ds m rest (apply_one-Keeps d s first p)

  settle_batch-Keeps :
      (xs : List (String × Result EngineError (Outcome V))) (e : Option EngineError) (s : Store V)
      → P s
      → P (settle_batch xs e s).0
  unfolding settle_batch
  settle_batch-Keeps [] bad s p = p
  settle_batch-Keeps ((k, raise e) ∷ xs) bad s p = settle_batch-Keeps xs (first_failure bad e) s p
  settle_batch-Keeps ((k, ok o) ∷ xs) bad s p = elim (Result-cases (settle k o s)) [
    | inl (e, r) ↦ rw (r, settle_batch) p
    | inr (s', r) ↦
        rw (r, settle_batch)
          (settle_batch-Keeps xs bad s'
            (keeps.node_write s s' (settle-NodeWrite k s o r).written.base p))
  ]

  module _ (registry : Registry V) where
    cycle-Keeps : (ds : List SchedulerDecision) (s : Store V) → P s → P (cycle registry ds s).0
    unfolding cycle
    cycle-Keeps ds s p = elim (Result-cases (apply ds s)) [
      | inl (e, r) ↦ rw (r, cycle) p
      | inr (s', r) ↦ rw (r, cycle) (settle_batch-Keeps _ none s' (apply-Keeps ds s r p))
    ]

    unless_failed-Keeps :
        (ended : Ended V) (rest : Store V → Ended V)
        → ((s : Store V) → P s → P (rest s).0)
        → P ended.0
        → P (unless_failed ended rest).0
    unless_failed-Keeps (s, none) rest go p = go s p
    unless_failed-Keeps (s, some e) rest go p = p

    advance_from-Keeps :
        (limit left : ℕ) (s : Store V) → P s → P (advance_from registry limit left s).0
    unfolding advance_from
    advance_from-Keeps limit zero s p = elim (Result-cases (tick (snapshot s))) [
      | inl (e, r) ↦ rw (r, advance_from) p
      | inr ([], r) ↦ rw (r, advance_from) p
      | inr (d ∷ ds, r) ↦ rw (r, advance_from) p
    ]
    advance_from-Keeps limit (suc left) s p = elim (Result-cases (tick (snapshot s))) [
      | inl (e, r) ↦ rw (r, advance_from) p
      | inr ([], r) ↦ rw (r, advance_from) p
      | inr (d ∷ ds, r) ↦
          rw (r, advance_from)
            (unless_failed-Keeps (cycle registry (d ∷ ds) s) _
              (λ next q. advance_from-Keeps limit left next q) (cycle-Keeps (d ∷ ds) s p))
    ]

    pub advance-Keeps : (s : Store V) → P s → P (advance registry s).0
    unfolding advance
    advance-Keeps s p = advance_from-Keeps _ _ s p

    carry_on-Keeps :
        (view : RunSnapshot V) (k token : String) (s : Store V)
        → P s
        → P (carry_on registry view k token s).0
    carry_on-Keeps view k token s p =
        elim (Result-cases
          (invoke_started registry view (some token) s k >>= λ outcome. settle k outcome s)) [
            | inl (e, r) ↦ rw (r, carry_on) p
            | inr (s', r) ↦
                rw (r, carry_on)
                  (let (o, _, settled) =
                      >>=-eq-ok (invoke_started registry view (some token) s k) _ r in
                    advance-Keeps s'
                      (keeps.node_write s s' (settle-NodeWrite k s o settled).written.base p))
          ]

    woken-Keeps :
        (k : String) (s : Store V) {woken : Store V}
        → (execution_of k s >>= λ execution. unpark k execution s) ≡ ok woken
        → P s
        → P woken
    woken-Keeps k s h p =
        let (e, found, woke) = >>=-eq-ok (execution_of k s) _ h in
        let (m, first, second) = unpark-writes k e s found woke in
        keeps.run_write m _ second (keeps.node_write s m first p)

    pub resume_run-Keeps : (token : String) (s : Store V) → P s → P (resume_run registry token s).0
    unfolding resume_run
    resume_run-Keeps token s p = elim (Option-cases (waiting_for s.same_token token s.executions)) [
      | inl missing ↦ rw (missing, resume_run) p
      | inr (k, found) ↦
          rw (found, resume_run)
            (elim (Result-cases (execution_of k s >>= λ execution. unpark k execution s)) [
              | inl (e, r) ↦ rw (r, resume_run) p
              | inr (woken, r) ↦
                  rw (r, resume_run)
                    (carry_on-Keeps (snapshot s) k token woken (woken-Keeps k s r p))
            ])
    ]

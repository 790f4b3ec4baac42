-- ===== src/Runs/Settled.antt =====
-- What settling a node's outcome leaves behind: `_settle` and `_refuse_repeat` of
-- src/app/services/run_service.py.
use orqent.Base.{
  ℕ, ◌≤◌, ◌<◌, String, List, [], ◌∷◌, some, Bool, true, false, ◌==◌, ◌≡◌, ◌≢◌, ◌↔◌, inl, inr, refl,
  sym, ap, ◌∙◌, arith, eq_iff, if◌then◌else◌, lookup, lookup-insert, Dict, In, any, any-In,
  any_of_In, is_nil, length, codes, Result, ok, raise, >>=-eq-ok, Bool-cases, Option-cases,
  List-cases,
}
use orqent.Engine.State.{NodeExecutionStatus, ensure_node_execution_transition}
use orqent.Runs.Store.{Execution, Store, execution_of}
use orqent.Engine.Invocation.{NodeResult, completed, suspended, failed}
use orqent.Runs.Transitions.{
  Outcome, result, repeat_refused, settle, validate_resume_token, held_by_other, claim_token,
  record_result,
}
use orqent.Runs.Transitions.Writes.{WriteOf, is_settled}
use orqent.Runs.Transitions.Writes.Nodes.{settle-NodeWrite}
use mathlib.Core.Path.{subst}

-- Only a running attempt is settled.
settled_was_running :
    (before after : NodeExecutionStatus)
    → is_settled after ≡ true
    → ensure_node_execution_transition before after ≡ ok tt
    → before ≡ NodeExecutionStatus.running
unfolding ensure_node_execution_transition
settled_was_running before after settled allowed = ground arith

-- One attempt of a node has ended, and nothing else has changed but the timeline.
pub record EndsAttempt (V : Type 0) (k : String) (s s' : Store V) : Type 0 where
  pub before : Execution V
  pub after : Execution V
  pub found : lookup k s.executions ≡ some before
  pub ran : before.status ≡ NodeExecutionStatus.running
  pub left : lookup k s'.executions ≡ some after
  pub ended : is_settled after.status ≡ true
  pub others : (j : String) → k ≢ j → lookup j s'.executions ≡ lookup j s.executions
  pub run : s'.run ≡ s.run
  pub graph : s'.graph ≡ s.graph
  pub tasks : s'.tasks ≡ s.tasks

module _ {V : Type 0} where
  lookup_after :
      {k : String} {t : NodeExecutionStatus} {s s' : Store V} (w : WriteOf V k t s s') (j : String)
      → lookup j s'.executions ≡ (if k == j then some w.base.after else lookup j s.executions)
  lookup_after {k} {t} {s} w j =
      rw (w.base.executions, w.keyed) (lookup-insert k j w.base.after s.executions)

  lookup_here :
      {k : String} {t : NodeExecutionStatus} {s s' : Store V} (w : WriteOf V k t s s')
      → lookup k s'.executions ≡ some w.base.after
  lookup_here {k} w = ground (arith, lookup_after w k, eq_iff k k)

  lookup_elsewhere :
      {k : String} {t : NodeExecutionStatus} {s s' : Store V} (w : WriteOf V k t s s') (j : String)
      → k ≢ j
      → lookup j s'.executions ≡ lookup j s.executions
  lookup_elsewhere {k} w j other = ground (arith, lookup_after w j, eq_iff k j)

-- Settling what a node did, when it does not raise, ends the attempt of that node: its execution
-- was running, and is then succeeded, failed or waiting. No other execution changes, nor the run's
-- row, its graph or its queue tasks.
pub settle-EndsAttempt :
    {V : Type 0} (k : String) (o : Outcome V) (s s' : Store V)
    → settle k o s ≡ ok s'
    → EndsAttempt V k s s'
settle-EndsAttempt {V} k o s s' h =
    let closes = settle-NodeWrite k s o h in
    let w = closes.written in
    record {
      before = w.base.before;
      after = w.base.after;
      found = subst (λ j. lookup j s.executions ≡ some w.base.before) w.keyed w.base.found;
      ran =
          settled_was_running w.base.before.status w.base.after.status
            (rw (w.reached) closes.settled) w.base.allowed;
      left = lookup_here w;
      ended = rw (w.reached) closes.settled;
      others = lookup_elsewhere w;
      run = w.base.run;
      graph = w.base.graph;
      tasks = w.base.tasks;
    }

-- What the outcome asks of the rows: a node that parks itself quotes a token of 1 to 26 characters
-- that the database takes for none of those that other executions hold, of this run or of another.
abbrev pub Acceptable : {V : Type 0} → String → Outcome V → Store V → Type 0
Acceptable {V} k (result (suspended token _)) s =
    (0 < length (codes token))
    × (length (codes token) ≤ 26)
    × ((j : String) (e : Execution V) (held : String)
        → In (j, e) s.executions
        → j ≢ k
        → e.resume_token ≡ some held
        → s.same_token held token ≡ false)
    × ((held : String) → In held s.foreign_tokens → s.same_token held token ≡ false)
Acceptable _ _ _ = Unit

accepted_token :
    (k token : String)
    → (validate_resume_token k token ≡ ok tt)
      ↔ ((0 < length (codes token)) × (length (codes token) ≤ 26))
unfolding validate_resume_token
accepted_token k token = elim (List-cases (codes token)) [
  | inl e ↦ (λ h. cc (rw (e, validate_resume_token) at h), λ h. absurd (omega (arith, ap length e)))
  | inr (c, cs, e) ↦ (
    λ h. ground (arith, ap length e, ap (λ (xs : List ℕ). is_nil xs) e),
    λ h. ground (arith, ap length e, ap (λ (xs : List ℕ). is_nil xs) e),
  )
]

module _ {V : Type 0} (same : String → String → Bool) (k token : String) where
  held_by_other-clear :
      (rows : Dict (Execution V))
      → held_by_other same k token rows ≡ false
      → (j : String) (e : Execution V) (held : String) → In (j, e) rows
      → j ≢ k
      → e.resume_token ≡ some held
      → same held token ≡ false
  unfolding held_by_other
  held_by_other-clear [] h j e held m other own = absurd m
  held_by_other-clear ((i, x) ∷ rows) h j e held (inl one) other own =
      let key : j ≡ i = ap (λ (r : String × Execution V). r.0) one in
      let row : e ≡ x = ap (λ (r : String × Execution V). r.1) one in
      let quoted : x.resume_token ≡ some held =
        ap (λ (r : Execution V). r.resume_token) (sym row) ∙ own in
      ground (arith, eq_iff i k)
  held_by_other-clear ((i, x) ∷ rows) h j e held (inr m) other own =
      held_by_other-clear rows (ground arith) j e held m other own

  clear-held_by_other :
      (rows : Dict (Execution V))
      → ((j : String) (e : Execution V) (held : String)
          → In (j, e) rows
          → j ≢ k
          → e.resume_token ≡ some held
          → same held token ≡ false)
      → held_by_other same k token rows ≡ false
  unfolding held_by_other
  clear-held_by_other [] h = refl
  clear-held_by_other ((i, x) ∷ rows) h =
      let later = clear-held_by_other rows (λ j e held m. h j e held (inr m)) in
      elim (Bool-cases (i == k)) [
        | inl own ↦ rw own later
        | inr other ↦
            let apart : i ≢ k = λ e. cc ((eq_iff i k).1 e) in
            elim (Option-cases x.resume_token) [
              | inl quiet ↦ rw (other, quiet) later
              | inr (held, own) ↦
                  let differs = h i x held (inl refl) apart own in rw (other, own, differs) later
            ]
      ]

module _ {V : Type 0} (k token : String) where
  -- The unique index lets the token in exactly when no other row holds it.
  claimed_token :
      (s : Store V)
      → (claim_token k token s ≡ ok tt) ↔ (
          ((j : String) (e : Execution V) (held : String)
            → In (j, e) s.executions
            → j ≢ k
            → e.resume_token ≡ some held
            → s.same_token held token ≡ false)
          × ((held : String) → In held s.foreign_tokens → s.same_token held token ≡ false))
  unfolding claim_token
  claimed_token s = (
    λ h. elim (Bool-cases (held_by_other s.same_token k token s.executions)) [
      | inl held ↦ cc (rw (held, claim_token) at h)
      | inr free ↦ elim (Bool-cases (any (λ held. s.same_token held token) s.foreign_tokens)) [
        | inl taken ↦ cc (rw (free, taken, claim_token) at h)
        | inr apart ↦ (
          held_by_other-clear s.same_token k token s.executions free,
          λ held m. any-In (λ held. s.same_token held token) held s.foreign_tokens apart m,
        )
      ]
    ],
    λ (clear, foreign).
        let free = clear-held_by_other s.same_token k token s.executions clear in
        let apart = any_of_In (λ held. s.same_token held token) s.foreign_tokens foreign in
        rw (free, apart, claim_token) refl,
  )

abbrev succeeds : {E A : Type 0} → Result E A → Bool
succeeds (ok _) = true
succeeds (raise _) = false

value_of : {E A : Type 0} (r : Result E A) → succeeds r ≡ true → (a : A) × (r ≡ ok a)
value_of (ok a) h = (a, refl)
value_of (raise e) h = ground arith

module _ {V : Type 0} (k : String) where
  settle_accepted : (o : Outcome V) (s s' : Store V) → settle k o s ≡ ok s' → Acceptable k o s
  unfolding settle
  settle_accepted (result (completed outputs)) s s' h = tt
  settle_accepted (result (failed error retryable)) s s' h = tt
  settle_accepted repeat_refused s s' h = tt
  settle_accepted (result (suspended token hint)) s s' h =
      let (e, _, h1) = >>=-eq-ok (execution_of k s) _ h in
      let (_, valid, h2) = >>=-eq-ok (validate_resume_token k token) _ h1 in
      let (_, _, h3) =
        >>=-eq-ok (ensure_node_execution_transition e.status NodeExecutionStatus.waiting) _ h2 in
      let (_, claimed, _) = >>=-eq-ok (claim_token k token s) _ h3 in
      let (some_length, fits) = (accepted_token k token).0 valid in
      let (here, elsewhere) = (claimed_token k token s).0 claimed in
      (some_length, fits, here, elsewhere)

  execution_of-lookup :
      (s : Store V) (e : Execution V) → lookup k s.executions ≡ some e → execution_of k s ≡ ok e
  unfolding execution_of
  execution_of-lookup s e found = ground arith

  record_result_running :
      (r : NodeResult V) (s : Store V) (e : Execution V)
      → e.status ≡ NodeExecutionStatus.running
      → Acceptable k (result r) s
      → succeeds (record_result k r e s) ≡ true
  unfolding ensure_node_execution_transition
  record_result_running (completed outputs) s e running accepted = rw running refl
  record_result_running (failed error retryable) s e running accepted = rw running refl
  record_result_running (suspended token hint) s e running (some_length, fits, here, elsewhere) =
      rw
        (
          (accepted_token k token).1 (some_length, fits),
          running,
          (claimed_token k token s).1 (here, elsewhere),
        )
        refl

  settle_running :
      (o : Outcome V) (s : Store V) (e : Execution V)
      → execution_of k s ≡ ok e
      → e.status ≡ NodeExecutionStatus.running
      → Acceptable k o s
      → succeeds (settle k o s) ≡ true
  unfolding settle ensure_node_execution_transition
  settle_running (result r) s e found running accepted =
      rw found (record_result_running r s e running accepted)
  settle_running repeat_refused s e found running accepted = rw (found, running) refl

  -- Settling returns exactly when the node has an execution that is running, and the outcome, if it
  -- parks the node, carries a resume token of 1 to 26 characters that the database takes for none of those
  -- that other executions hold, of this run or of another. In every other case it raises.
  pub settle_returns :
      (o : Outcome V) (s : Store V)
      → ((s' : Store V) × (settle k o s ≡ ok s')) ↔ (
          (e : Execution V) × (lookup k s.executions ≡ some e)
          × (e.status ≡ NodeExecutionStatus.running)
          × Acceptable k o s)
  settle_returns o s = (
    λ (s', h).
        let ends = settle-EndsAttempt k o s s' h in
        (ends.before, ends.found, ends.ran, settle_accepted o s s' h),
    λ (e, found, running, accepted).
        value_of (settle k o s)
          (settle_running o s e (execution_of-lookup s e found) running accepted),
  )

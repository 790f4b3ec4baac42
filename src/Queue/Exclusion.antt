-- ===== src/Queue/Exclusion.antt =====
-- A lease that is in force keeps every other worker away from its task.
use orqent.Base.{
  Unique-In, row_count, update_rows, update_rows-In, ℕ, ◌+◌, ◌<◌, String, List, [], ◌∷◌, none, some,
  Bool, true, false, ◌||◌, eqb, any, All, In, In-append, ◌≡◌, ◌≢◌, ◌⊎◌, sym, arith, Bool-cases,
  Option-cases, inl, inr, eq_iff, eqb→eq,
}
use mathlib.Core.Path.{subst}
use orqent.Runs.Store.{TaskStatus}
use orqent.Queue.Leases.{WorkerId, seconds}
use orqent.Queue.Soundness.{IsSound, same_id}
use orqent.Queue.Selection.{Chosen, Selects, eligible-Selects}
use orqent.Queue.Histories.{
  Call, enqueues, claims, extends, releases, requeues, finishes, serve, serve_all, serve-IsSound,
}
use orqent.Queue.{
  QueueTask, Table, same_public_id, same_pending, is_leased, is_due, is_lapsed, eligible, owned_row,
  own, expires_by, extend, release, requeue, claim, candidate, take_over, claimed_row, lease_to,
  returned, outstanding_of, finish_outstanding, enqueue, fresh_task,
}

same_id_symm : (a b : QueueTask) → same_id a b ≡ true → same_id b a ≡ true
same_id_symm a b h = ground arith

-- A candidate is due, or it was leased and its lease has lapsed and no free task is due.
pub candidate_cases :
    (now : ℕ) (held : ℕ → Bool) (table : Table) (task : QueueTask)
    → candidate now held table ≡ some task
    → Chosen (is_due now) held table.rows task
      ⊎ (Chosen (is_lapsed now) held table.rows task × Selects (is_due now) held table.rows none)
unfolding candidate
candidate_cases now held table task h =
    let fresh = eligible-Selects (is_due now) held table.rows in
    let lapsed = eligible-Selects (is_lapsed now) held table.rows in
    elim (Option-cases (eligible (is_due now) held table.rows)) [
      | inl e ↦
          let taken : eligible (is_lapsed now) held table.rows ≡ some task = ground arith in
          inr (
            subst (Selects (is_lapsed now) held table.rows) taken lapsed,
            subst (Selects (is_due now) held table.rows) e fresh,
          )
      | inr (row, e) ↦
          let taken : eligible (is_due now) held table.rows ≡ some task = ground arith in
          inl (subst (Selects (is_due now) held table.rows) taken fresh)
    ]

-- Without a candidate no free task is due or has a lapsed lease.
pub candidate_none :
    (now : ℕ) (held : ℕ → Bool) (table : Table)
    → candidate now held table ≡ none
    → Selects (is_due now) held table.rows none × Selects (is_lapsed now) held table.rows none
unfolding candidate
candidate_none now held table h =
    let fresh = eligible-Selects (is_due now) held table.rows in
    let lapsed = eligible-Selects (is_lapsed now) held table.rows in
    let no_fresh : eligible (is_due now) held table.rows ≡ none = ground arith in
    let no_lapsed : eligible (is_lapsed now) held table.rows ≡ none = ground arith in
    (
      subst (Selects (is_due now) held table.rows) no_fresh fresh,
      subst (Selects (is_lapsed now) held table.rows) no_lapsed lapsed,
    )

member :
    (table : Table) (task : QueueTask) (now : ℕ) (held : ℕ → Bool)
    → candidate now held table ≡ some task
    → In task table.rows
member table task now held taken = elim (candidate_cases now held table task taken) [
  | inl chosen ↦ chosen.member
  | inr (chosen, _) ↦ chosen.member
]

-- The row is leased under that name until that moment.
pub record LeasedUntil (name : String) (moment : ℕ) (row : QueueTask) : Type 0 where
  pub leased : is_leased row.status ≡ true
  pub by : row.locked_by ≡ some name
  pub until : row.lease_expires_at ≡ some moment

-- A call that is not the holder's, is made before the lease lapses if it claims, and does not close
-- the task's run.
abbrev pub Spares : String → ℕ → QueueTask → Call → Type 0
Spares name moment row (enqueues public_id run_id organization_id run_after) = Unit
Spares name moment row (claims worker now lease_seconds held) = now < moment
Spares name moment row (extends task_id worker expires_at) = worker.value ≢ name
Spares name moment row (releases task_id worker) = worker.value ≢ name
Spares name moment row (requeues task_id worker run_after) = worker.value ≢ name
Spares name moment row (finishes run_id organization_id) = row.run_id ≢ run_id

untouched_In :
    (matches : QueueTask → Bool) (change : QueueTask → QueueTask) (row : QueueTask)
    (rows : List QueueTask)
    → matches row ≡ false
    → In row rows
    → In row (update_rows matches change rows)
untouched_In matches change row rows e m = rw e at (update_rows-In matches change row rows m)

module _ (name : String) (moment : ℕ) (row : QueueTask) (lease : LeasedUntil name moment row) where
  not_due : (now : ℕ) → is_due now row ≡ false
  not_due now = let l = lease.leased in ground arith

  not_lapsed : (now : ℕ) → now < moment → is_lapsed now row ≡ false
  not_lapsed now h = let u = lease.until in rw u (ground arith)

  not_owned :
      (task_id : String) (worker : WorkerId) (extra : QueueTask → Bool)
      → worker.value ≢ name
      → owned_row task_id worker extra row ≡ false
  not_owned task_id worker extra other =
      let b = lease.by in ground (arith, eq_iff name worker.value)

  not_candidate :
      (table : Table) (task : QueueTask) (now : ℕ) (held : ℕ → Bool)
      → now < moment
      → candidate now held table ≡ some task
      → row ≢ task
  not_candidate table task now held early taken same =
      let due = not_due now in
      let lapsed = not_lapsed now early in
      elim (candidate_cases now held table task taken) [
        | inl chosen ↦ let fits = subst (λ r. is_due now r ≡ true) (sym same) chosen.matching in cc
        | inr (chosen, _) ↦
            let fits = subst (λ r. is_lapsed now r ≡ true) (sym same) chosen.matching in cc
      ]

  not_claimed :
      (table : Table) (task : QueueTask) (now : ℕ) (held : ℕ → Bool)
      → IsSound table
      → In row table.rows
      → now < moment
      → candidate now held table ≡ some task
      → claimed_row task.id row ≡ false
  not_claimed table task now held s m early taken = elim (Bool-cases (claimed_row task.id row)) [
    | inr e ↦ e
    | inl e ↦ absurd (
        not_candidate table task now held early taken (
          Unique-In same_id same_id_symm row task table.rows s.ids m
            (member table task now held taken) (ground arith)))
  ]

  take_over-In :
      (worker : WorkerId) (now expires_at : ℕ) (task : QueueTask) (table : Table)
      → claimed_row task.id row ≡ false
      → In row table.rows
      → In row (take_over worker now expires_at task table).1.rows
  unfolding take_over
  take_over-In worker now expires_at task table other m =
      elim (Bool-cases (eqb (row_count (claimed_row task.id) table.rows) 1)) [
        | inr e ↦ rw e m
        | inl e ↦ elim (Option-cases (table.run_public_id task.run_id)) [
          | inl f ↦ rw (e, f) m
          | inr (key, f) ↦
              rw (e, f)
                (untouched_In (claimed_row task.id) (lease_to worker now expires_at) row table.rows
                  other m)
        ]
      ]

  claim-In :
      (worker : WorkerId) (now lease_seconds : ℕ) (held : ℕ → Bool) (table : Table)
      → IsSound table
      → now < moment
      → In row table.rows
      → In row (claim worker now lease_seconds held table).1.rows
  unfolding claim
  claim-In worker now lease_seconds held table s h m =
      elim (Option-cases (candidate now held table)) [
        | inl e ↦ rw (e, claim) m
        | inr (task, e) ↦
            rw (e, claim)
              (take_over-In worker now (now + seconds lease_seconds) task table
                (not_claimed table task now held s m h e) m)
      ]

  own-In :
      (task_id : String) (worker : WorkerId) (change : QueueTask → QueueTask)
      (extra : QueueTask → Bool) (table : Table)
      → worker.value ≢ name
      → In row table.rows
      → In row (own task_id worker change extra table).1.rows
  unfolding own
  own-In task_id worker change extra table other m =
      untouched_In (owned_row task_id worker extra) change row table.rows
        (not_owned task_id worker extra other) m

  serve-In :
      (call : Call) (table : Table)
      → IsSound table
      → Spares name moment row call
      → In row table.rows
      → In row (serve call table).rows
  unfolding serve enqueue claim extend release requeue finish_outstanding own
  serve-In (enqueues public_id run_id organization_id run_after) table s h m =
      let task = fresh_task table.next_id public_id run_id organization_id run_after in
      elim (Bool-cases (any (λ r. same_pending r task || same_public_id r task) table.rows)) [
        | inl e ↦ rw e m
        | inr e ↦ rw e ((In-append row table.rows (task ∷ [])).1 (inl m))
      ]
  serve-In (claims worker now lease_seconds held) table s h m =
      claim-In worker now lease_seconds held table s h m
  serve-In (extends task_id worker expires_at) table s h m =
      own-In task_id worker (λ r. record r { lease_expires_at = some expires_at })
        (expires_by expires_at) table h m
  serve-In (releases task_id worker) table s h m =
      own-In task_id worker (λ r. record r { status = TaskStatus.done }) (λ r. true) table h m
  serve-In (requeues task_id worker run_after) table s h m =
      own-In task_id worker (returned run_after) (λ r. true) table h m
  serve-In (finishes run_id organization_id) table s h m =
      untouched_In (outstanding_of run_id organization_id)
        (λ r. record r { status = TaskStatus.done }) row table.rows
        (ground (arith, eqb→eq row.run_id run_id)) m

  -- While a lease is in force, its task's row stays as it is in every history in which the holder
  -- makes no call, all claims are made before the lease lapses, and the run is not closed: no other
  -- worker takes the task over, prolongs its lease, releases it or hands it back.
  pub lease_is_exclusive :
      (calls : List Call) (table : Table)
      → IsSound table
      → All (Spares name moment row) calls
      → In row table.rows
      → In row (serve_all calls table).rows
  unfolding serve_all
  lease_is_exclusive [] table s h m = m
  lease_is_exclusive (call ∷ calls) table s (here, later) m =
      lease_is_exclusive calls (serve call table) (serve-IsSound call s) later
        (serve-In call table s here m)

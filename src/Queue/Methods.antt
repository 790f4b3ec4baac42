-- ===== src/Queue/Methods.antt =====
-- Each method of the queue keeps the table sound.
use orqent.Base.{
  All-snoc, All-weaken, Unique-snoc, row_count, ℕ, ◌+◌, ◌<◌, String, List, [], ◌∷◌, Option, some,
  Bool, true, false, ◌||◌, eqb, any, All, ◌≡◌, refl, arith, Bool-cases, Option-cases, inl, inr,
}
use orqent.Runs.Store.{TaskStatus}
use orqent.Queue.Leases.{WorkerId, seconds}
use orqent.Queue.{
  QueueTask, Table, same_pending, same_public_id, is_leased, fresh_task, enqueue, claimed_row,
  lease_to, claim, candidate, take_over, owned_row, returned, expires_by, extend, release, requeue,
  outstanding_of, finish_outstanding,
}
use orqent.Queue.Soundness.{same_id, Columns, HasColumns, IsSound, Update, update-IsSound}

Columns-extended :
    (status : TaskStatus) (locked_by : Option String) (locked_at expires_at : Option ℕ) (moment : ℕ)
    → is_leased status ≡ true
    → Columns status locked_by locked_at expires_at
    → Columns status locked_by locked_at (some moment)
Columns-extended TaskStatus.leased locked_by locked_at expires_at moment h (by, at, until) =
    (by, at, refl)
Columns-extended status locked_by locked_at expires_at moment h columns = cc

claimed-Update :
    (worker : WorkerId) (now expires_at id : ℕ)
    → Update (claimed_row id) (lease_to worker now expires_at)
claimed-Update worker now expires_at id = record {
  id = λ row. refl;
  public_id = λ row. refl;
  run_id = λ row. refl;
  open_only = λ row h. ground arith;
  columns = λ row h c. (refl, refl, refl);
}

module _ (task_id : String) (worker : WorkerId) where
  extend-Update :
      (expires_at : ℕ)
      → Update
          (owned_row task_id worker (expires_by expires_at))
          (λ row. record row { lease_expires_at = some expires_at })
  extend-Update expires_at = record {
    id = λ row. refl;
    public_id = λ row. refl;
    run_id = λ row. refl;
    open_only = λ row h. ground arith;
    columns = λ row h.
        Columns-extended row.status row.locked_by row.locked_at row.lease_expires_at expires_at
          (ground arith);
  }

  release-Update :
      Update
        (owned_row task_id worker (λ row. true))
        (λ row. record row { status = TaskStatus.done })
  release-Update = record {
    id = λ row. refl;
    public_id = λ row. refl;
    run_id = λ row. refl;
    open_only = λ row h. ground arith;
    columns = λ row h c. tt;
  }

  requeue-Update : (moment : ℕ) → Update (owned_row task_id worker (λ row. true)) (returned moment)
  requeue-Update moment = record {
    id = λ row. refl;
    public_id = λ row. refl;
    run_id = λ row. refl;
    open_only = λ row h. ground arith;
    columns = λ row h c. (refl, refl, refl);
  }

finish-Update :
    (run_id organization_id : ℕ)
    → Update
        (outstanding_of run_id organization_id)
        (λ row. record row { status = TaskStatus.done })
finish-Update run_id organization_id = record {
  id = λ row. refl;
  public_id = λ row. refl;
  run_id = λ row. refl;
  open_only = λ row h. ground arith;
  columns = λ row h c. tt;
}

module _ {table : Table} (s : IsSound table) where
  pub extend-IsSound :
      (task_id : String) (worker : WorkerId) (moment : ℕ)
      → IsSound (extend task_id worker moment table).1
  unfolding extend
  extend-IsSound task_id worker moment =
      update-IsSound _ _ (extend-Update task_id worker moment) table s

  pub release-IsSound :
      (task_id : String) (worker : WorkerId) → IsSound (release task_id worker table).1
  unfolding release
  release-IsSound task_id worker = update-IsSound _ _ (release-Update task_id worker) table s

  pub requeue-IsSound :
      (task_id : String) (worker : WorkerId) (moment : ℕ)
      → IsSound (requeue task_id worker moment table).1
  unfolding requeue
  requeue-IsSound task_id worker moment =
      update-IsSound _ _ (requeue-Update task_id worker moment) table s

  pub finish_outstanding-IsSound :
      (run_id organization_id : ℕ) → IsSound (finish_outstanding run_id organization_id table).1
  unfolding finish_outstanding
  finish_outstanding-IsSound run_id organization_id =
      update-IsSound _ _ (finish-Update run_id organization_id) table s

  take_over-IsSound :
      (worker : WorkerId) (now expires_at : ℕ) (task : QueueTask)
      → IsSound (take_over worker now expires_at task table).1
  unfolding take_over
  take_over-IsSound worker now expires_at task =
      elim (Bool-cases (eqb (row_count (claimed_row task.id) table.rows) 1)) [
        | inr e ↦ rw e s
        | inl e ↦ elim (Option-cases (table.run_public_id task.run_id)) [
          | inl f ↦ rw (e, f) s
          | inr (k, f) ↦
              rw (e, f) (update-IsSound _ _ (claimed-Update worker now expires_at task.id) table s)
        ]
      ]

  pub claim-IsSound :
      (worker : WorkerId) (now lease_seconds : ℕ) (held : ℕ → Bool)
      → IsSound (claim worker now lease_seconds held table).1
  unfolding claim
  claim-IsSound worker now lease_seconds held = elim (Option-cases (candidate now held table)) [
    | inl e ↦ rw (e, claim) s
    | inr (task, e) ↦
        rw (e, claim) (take_over-IsSound worker now (now + seconds lease_seconds) task)
  ]

any-split :
    (p q : QueueTask → Bool) (rows : List QueueTask)
    → any (λ row. p row || q row) rows ≡ false
    → (any p rows ≡ false) × (any q rows ≡ false)
any-split p q [] h = (refl, refl)
any-split p q (row ∷ rows) h =
    let (left, right) = any-split p q rows (ground arith) in (ground arith, ground arith)

below-free :
    (n : ℕ) (task : QueueTask) (rows : List QueueTask)
    → task.id ≡ n
    → All (λ row. row.id < n) rows
    → any (λ row. same_id row task) rows ≡ false
below-free n task [] same below = refl
below-free n task (row ∷ rows) same (here, later) =
    ground (arith, below-free n task rows same later)

pub enqueue-IsSound :
    (public_id : String) (run_id organization_id moment : ℕ) {table : Table}
    → IsSound table
    → IsSound (enqueue public_id run_id organization_id moment table)
unfolding enqueue
enqueue-IsSound public_id run_id organization_id moment {table} s =
    let task = fresh_task table.next_id public_id run_id organization_id moment in
    let below =
      All-weaken (λ row. row.id < table.next_id) (λ row. row.id < table.next_id + 1)
        (λ row h. omega arith) table.rows s.below in
    elim (Bool-cases (any (λ row. same_pending row task || same_public_id row task) table.rows)) [
      | inl e ↦ rw e (record {
        pending = s.pending;
        public_ids = s.public_ids;
        ids = s.ids;
        below = below;
        columns = s.columns;
      })
      | inr e ↦
          let (pending, public_ids) =
            any-split (λ row. same_pending row task) (λ row. same_public_id row task) table.rows
              e in
          rw e (record {
            pending = Unique-snoc same_pending table.rows task pending s.pending;
            public_ids = Unique-snoc same_public_id table.rows task public_ids s.public_ids;
            ids =
                Unique-snoc same_id table.rows task
                  (below-free table.next_id task table.rows refl s.below) s.ids;
            below =
                All-snoc (λ row. row.id < table.next_id + 1) table.rows task below (omega arith);
            columns = All-snoc HasColumns table.rows task s.columns (refl, refl, refl);
          })
    ]

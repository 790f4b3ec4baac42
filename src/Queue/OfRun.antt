-- ===== src/Queue/OfRun.antt =====
-- The queue's table as the run service sees it: the tasks of one run, which Runs.Store keeps beside
-- the run's other rows.
use orqent.Base.{
  All-snoc, update_rows, update_rows-All, ℕ, String, List, [], ◌∷◌, ◌++◌, map, Bool, true, false,
  ◌||◌, eqb, eqb→eq, if◌then◌else◌, any, All, ◌≡◌, ◌==◌, refl, ap, ◌∙◌, arith, Bool-cases, inl, inr,
}
use orqent.Runs.Store
use orqent.Runs.Store.{Store, TaskStatus, outstanding}
use orqent.Queue.{
  QueueTask, Table, fresh_task, same_pending, same_public_id, enqueue, outstanding_of,
  finish_outstanding,
}

abbrev pub tasks_of : ℕ → List QueueTask → List TaskStatus
tasks_of run_id [] = []
tasks_of run_id (row ∷ rows) =
    if eqb row.run_id run_id then row.status ∷ tasks_of run_id rows else tasks_of run_id rows

-- The table and a store of the run hold the same tasks of it, all under one tenant.
pub record Agree {V : Type 0} (run_id organization_id : ℕ) (table : Table) (store : Store V)
    : Type 0 where
  pub tasks : tasks_of run_id table.rows ≡ store.tasks
  pub tenant : All (λ row. row.run_id ≡ run_id → row.organization_id ≡ organization_id) table.rows

module _ (run_id organization_id : ℕ) where
  pending-outstanding :
      (task : QueueTask) (rows : List QueueTask)
      → task.run_id ≡ run_id
      → outstanding task.status ≡ true
      → any (λ row. same_pending row task) rows ≡ any outstanding (tasks_of run_id rows)
  pending-outstanding task [] same waiting = refl
  pending-outstanding task (row ∷ rows) same waiting =
      ground (arith, pending-outstanding task rows same waiting)

  tasks_of-snoc :
      (task : QueueTask) (rows : List QueueTask)
      → task.run_id ≡ run_id
      → tasks_of run_id (rows ++ task ∷ []) ≡ tasks_of run_id rows ++ task.status ∷ []
  tasks_of-snoc task [] same = ground arith
  tasks_of-snoc task (row ∷ rows) same = ground (arith, tasks_of-snoc task rows same)

  tasks_of-finished :
      (rows : List QueueTask)
      → All (λ row. row.run_id ≡ run_id → row.organization_id ≡ organization_id) rows
      → tasks_of run_id (
          update_rows
            (outstanding_of run_id organization_id)
            (λ row. record row { status = TaskStatus.done })
            rows)
        ≡ map (λ t. if outstanding t then TaskStatus.done else t) (tasks_of run_id rows)
  unfolding update_rows
  tasks_of-finished [] tenant = refl
  tasks_of-finished (row ∷ rows) (here, later) = elim (Bool-cases (eqb row.run_id run_id)) [
    | inl e ↦
        let same = here (eqb→eq row.run_id run_id e) in ground (arith, tasks_of-finished rows later)
    | inr e ↦ ground (arith, tasks_of-finished rows later)
  ]

  any-or :
      (p q : QueueTask → Bool) (rows : List QueueTask)
      → any q rows ≡ false
      → any (λ row. p row || q row) rows ≡ any p rows
  any-or p q [] h = refl
  any-or p q (row ∷ rows) h = ground (arith, any-or p q rows)

  module _ {V : Type 0} (table : Table) (store : Store V)
      (agree : Agree run_id organization_id table store) where
    finish-Agree :
        Agree run_id organization_id
          (finish_outstanding run_id organization_id table).1
          (Store.finish_outstanding store)
    unfolding finish_outstanding Store.finish_outstanding
    finish-Agree = record {
      tasks =
          tasks_of-finished table.rows agree.tenant
          ∙ ap (map (λ t. if outstanding t then TaskStatus.done else t)) agree.tasks;
      tenant =
          update_rows-All (outstanding_of run_id organization_id)
            (λ row. record row { status = TaskStatus.done })
            (λ row. row.run_id ≡ run_id → row.organization_id ≡ organization_id)
            (λ row h same. ground arith) table.rows agree.tenant;
    }

    enqueue-Agree :
        (public_id : String) (moment : ℕ)
        → any (λ row. row.public_id == public_id) table.rows ≡ false
        → Agree run_id organization_id
            (enqueue public_id run_id organization_id moment table)
            (Store.enqueue store)
    unfolding enqueue Store.enqueue
    enqueue-Agree public_id moment free =
        let task = fresh_task table.next_id public_id run_id organization_id moment in
        let collides =
          any-or (λ row. same_pending row task) (λ row. same_public_id row task) table.rows free
          ∙ pending-outstanding task table.rows refl refl
          ∙ ap (any outstanding) agree.tasks in
        elim (Bool-cases (any outstanding store.tasks)) [
          | inl e ↦ rw (collides, e) (record { tasks = agree.tasks; tenant = agree.tenant })
          | inr e ↦
              rw (collides, e)
                (record {
                  tasks =
                      tasks_of-snoc task table.rows refl
                      ∙ ap (λ ts. ts ++ TaskStatus.queued ∷ []) agree.tasks;
                  tenant =
                      All-snoc (λ row. row.run_id ≡ run_id → row.organization_id ≡ organization_id)
                        table.rows task agree.tenant (λ same. refl);
                })
        ]

    -- Enqueuing a run on the queue's table and on the run's own rows agree, when the new identifier
    -- is not taken, and so do finishing its outstanding tasks on both.
    pub queue_refines_store :
        (public_id : String) (moment : ℕ)
        → any (λ row. row.public_id == public_id) table.rows ≡ false
        → Agree run_id organization_id
            (enqueue public_id run_id organization_id moment table)
            (Store.enqueue store)
          × Agree run_id organization_id
              (finish_outstanding run_id organization_id table).1
              (Store.finish_outstanding store)
    queue_refines_store public_id moment free = (enqueue-Agree public_id moment free, finish-Agree)

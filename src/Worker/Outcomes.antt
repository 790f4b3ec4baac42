-- ===== src/Worker/Outcomes.antt =====
-- How a claimed task ends.
use orqent.Base.{Bool, true, false, In, ◌≡◌, refl, if◌then◌else◌}
use orqent.Engine.State.{RunStatus}
use orqent.Runs.Store.{TaskStatus}
use orqent.Queue.Leases.{WorkerId, ClaimedTask}
use orqent.Queue.{QueueTask, Table}
use orqent.Queue.Soundness.{IsSound}
use orqent.Queue.Ownership.{holds, stale_worker_writes_nothing, holder_writes}
use orqent.Worker.{TaskOutcome, released, settled, lease_lost, settle_task, is_resting}

-- How settling ends by whether the heartbeat lost the lease and whether the worker holds it.
abbrev pub Settled : WorkerId → QueueTask → RunStatus → Bool → Table → TaskOutcome × Table → Type 0
Settled worker row status true table result = result ≡ (lease_lost, table)
Settled worker row status false table result =
    (holds worker row ≡ true
      → (result.0 ≡ released) × In (record row { status = TaskStatus.done }) result.1.rows)
    × (holds worker row ≡ false
        → result ≡ (if is_resting status then settled else lease_lost, table))

module _ (worker : WorkerId) (task : ClaimedTask) (row : QueueTask) (table : Table)
    (s : IsSound table) (m : In row table.rows) (named : task.task_id ≡ row.public_id) where
  -- Settling a claimed task whose heartbeat lost the lease changes nothing and ends as lost. Else a
  -- worker that still holds the lease releases the task, which is done; and one that does not hold
  -- it changes nothing, and its task ends as settled if the run is suspended or finished and as
  -- lost if the run is not.
  pub settle_task_lem :
      (status : RunStatus) (lost : Bool)
      → Settled worker row status lost table (settle_task worker task status lost table)
  unfolding settle_task
  settle_task_lem status true = refl
  settle_task_lem status false = (
    λ held.
        let (applied, done, _, _) = holder_writes s row m worker 0 held in
        rw (named, applied) (refl, done),
    λ stale.
        let (refused, _, _) = stale_worker_writes_nothing s row m worker 0 stale in
        rw (named, refused) refl,
  )

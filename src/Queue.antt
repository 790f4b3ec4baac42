-- ===== src/Queue.antt =====
-- The durable task queue: src/app/infrastructure/queue/mysql_task_queue.py over the table of
-- src/app/infrastructure/db/models/queue_task.py, with queue_task_repository.py. Each method is one
-- transaction, and the database runs transactions one after another but for the row locks, which
-- `claim` takes as an argument: the rows that other open transactions hold, and that SKIP LOCKED
-- steps over. Moments are whole microseconds, as in the columns.
pub mod Leases
pub mod Soundness
pub mod Methods
pub mod Histories
pub mod Selection
pub mod Exclusion
pub mod Ownership
pub mod Claiming
pub mod OfRun
use orqent.Base.{
  touched, update_rows, row_count, ℕ, ◌+◌, ◌<◌, String, List, [], ◌∷◌, ◌++◌, map, Option, none,
  some, Bool, true, false, not, ◌&&◌, ◌||◌, ◌==◌, if◌then◌else◌, ltb, leb, eqb, filter, any, length,
  is_some,
}
use orqent.Runs.Store.{TaskStatus, outstanding}
use Leases.{WorkerId, Lease, ClaimedTask, seconds}

pub record QueueTask : Type 0 where
  pub id : ℕ
  pub public_id : String
  pub run_id : ℕ
  pub organization_id : ℕ
  pub status : TaskStatus
  pub run_after : ℕ
  pub locked_by : Option String
  pub locked_at : Option ℕ
  pub lease_expires_at : Option ℕ
  pub attempts : ℕ

-- The rows with the next value of AUTO_INCREMENT, and the public identifiers of the runs.
pub record Table : Type 0 where
  pub rows : List QueueTask
  pub next_id : ℕ
  pub run_public_id : ℕ → Option String

abbrev pub is_queued : TaskStatus → Bool
is_queued TaskStatus.queued = true
is_queued _ = false

abbrev pub is_leased : TaskStatus → Bool
is_leased TaskStatus.leased = true
is_leased _ = false

-- The unique index on `pending_key`, which is the run while the task is outstanding.
abbrev pub same_pending : QueueTask → QueueTask → Bool
same_pending a b = outstanding a.status && outstanding b.status && eqb a.run_id b.run_id

-- The unique index on `public_id`.
abbrev pub same_public_id : QueueTask → QueueTask → Bool
same_public_id a b = a.public_id == b.public_id

abbrev pub fresh_task : ℕ → String → ℕ → ℕ → ℕ → QueueTask
fresh_task id public_id run_id organization_id moment = record {
  id = id;
  public_id = public_id;
  run_id = run_id;
  organization_id = organization_id;
  status = TaskStatus.queued;
  run_after = moment;
  locked_by = none;
  locked_at = none;
  lease_expires_at = none;
  attempts = 0;
}

-- `QueueTaskRepository.enqueue`, with the identifier that the mixin generates and the moment that
-- `run_after` or the clock gives. A violated unique index undoes the insert and is swallowed.
unfoldable pub enqueue : String → ℕ → ℕ → ℕ → Table → Table
enqueue public_id run_id organization_id moment table =
    let task = fresh_task table.next_id public_id run_id organization_id moment in
    if any (λ row. same_pending row task || same_public_id row task) table.rows
    then record table { next_id = table.next_id + 1 }
    else record table { rows = table.rows ++ task ∷ []; next_id = table.next_id + 1 }

-- `ORDER BY run_after, id`
abbrev pub earlier : QueueTask → QueueTask → Bool
earlier a b = ltb a.run_after b.run_after || (eqb a.run_after b.run_after && ltb a.id b.id)

abbrev pub prefer : QueueTask → Option QueueTask → Option QueueTask
prefer row none = some row
prefer row (some other) = if earlier other row then some other else some row

-- `_eligible`: the first row that matches and that no other transaction holds.
unfoldable pub eligible : (QueueTask → Bool) → (ℕ → Bool) → List QueueTask → Option QueueTask
eligible matches held [] = none
eligible matches held (row ∷ rows) =
    let best = eligible matches held rows in
    if matches row && not (held row.id) then prefer row best else best

-- A comparison with NULL does not hold.
abbrev pub lapsed_by : ℕ → Option ℕ → Bool
lapsed_by now none = false
lapsed_by now (some expires_at) = leb expires_at now

abbrev pub is_due : ℕ → QueueTask → Bool
is_due now row = is_queued row.status && leb row.run_after now

abbrev pub is_lapsed : ℕ → QueueTask → Bool
is_lapsed now row = is_leased row.status && lapsed_by now row.lease_expires_at

abbrev pub lease_to : WorkerId → ℕ → ℕ → QueueTask → QueueTask
lease_to worker now expires_at row = record row {
  status = TaskStatus.leased;
  locked_by = some worker.value;
  locked_at = some now;
  lease_expires_at = some expires_at;
  attempts = row.attempts + 1;
}

abbrev pub claimed_row : ℕ → QueueTask → Bool
claimed_row id row = eqb row.id id && outstanding row.status

-- Fresh work first, then the work of a worker that is presumed dead.
unfoldable pub candidate : ℕ → (ℕ → Bool) → Table → Option QueueTask
unfolding eligible
candidate now held table =
    let fresh = eligible (is_due now) held table.rows in
    let lapsed = eligible (is_lapsed now) held table.rows in if is_some fresh then fresh else lapsed

-- The second half of `claim`, on the row that the select has locked.
unfoldable pub take_over : WorkerId → ℕ → ℕ → QueueTask → Table → Option ClaimedTask × Table
unfolding update_rows row_count
take_over worker now expires_at task table =
    if not (eqb (row_count (claimed_row task.id) table.rows) 1)
    then (none, table)
    else elim (table.run_public_id task.run_id) [
      | none ↦ (none, table)
      | some run_public_id ↦ (
        some (record {
          task_id = task.public_id;
          run_id = run_public_id;
          organization_id = task.organization_id;
          lease = record { owner = worker; expires_at = expires_at };
          attempts = task.attempts + 1;
        }),
        record table {
          rows = update_rows (claimed_row task.id) (lease_to worker now expires_at) table.rows;
        },
      )
    ]

-- `claim`
unfoldable pub claim : WorkerId → ℕ → ℕ → (ℕ → Bool) → Table → Option ClaimedTask × Table
unfolding candidate take_over
claim worker now lease_seconds held table = elim (candidate now held table) [
  | none ↦ (none, table)
  | some task ↦ take_over worker now (now + seconds lease_seconds) task table
]

abbrev pub locked_to : String → Option String → Bool
locked_to name none = false
locked_to name (some other) = other == name

-- The WHERE clause of `_own`, with names compared exactly: the columns hold
-- generated names, `worker-` or nothing before a ULID, on which their collation does so too.
abbrev pub owned_row : String → WorkerId → (QueueTask → Bool) → QueueTask → Bool
owned_row task_id worker extra row =
    (row.public_id == task_id)
    && is_leased row.status
    && locked_to worker.value row.locked_by
    && extra row

-- `_own`
unfoldable pub own :
    String → WorkerId → (QueueTask → QueueTask) → (QueueTask → Bool) → Table → Bool × Table
unfolding update_rows row_count
own task_id worker values extra table = (
  eqb (row_count (owned_row task_id worker extra) table.rows) 1,
  record table { rows = update_rows (owned_row task_id worker extra) values table.rows },
)

abbrev pub expires_by : ℕ → QueueTask → Bool
expires_by moment row = lapsed_by moment row.lease_expires_at

-- `extend`, `release` and `requeue`
unfoldable pub extend : String → WorkerId → ℕ → Table → Bool × Table
unfolding own
extend task_id worker expires_at table =
    own task_id worker (λ row. record row { lease_expires_at = some expires_at })
      (expires_by expires_at) table

unfoldable pub release : String → WorkerId → Table → Bool × Table
unfolding own
release task_id worker table =
    own task_id worker (λ row. record row { status = TaskStatus.done }) (λ row. true) table

-- Indistinguishable from a row that was never claimed, but for the attempts.
abbrev pub returned : ℕ → QueueTask → QueueTask
returned run_after row = record row {
  status = TaskStatus.queued;
  run_after = run_after;
  locked_by = none;
  locked_at = none;
  lease_expires_at = none;
}

unfoldable pub requeue : String → WorkerId → ℕ → Table → Bool × Table
unfolding own
requeue task_id worker run_after table = own task_id worker (returned run_after) (λ row. true) table

abbrev pub outstanding_of : ℕ → ℕ → QueueTask → Bool
outstanding_of run_id organization_id row =
    eqb row.run_id run_id && eqb row.organization_id organization_id && outstanding row.status

-- `QueueTaskRepository.finish_outstanding`
unfoldable pub finish_outstanding : ℕ → ℕ → Table → ℕ × Table
unfolding update_rows row_count
finish_outstanding run_id organization_id table = (
  row_count (outstanding_of run_id organization_id) table.rows,
  record table {
    rows =
        update_rows (outstanding_of run_id organization_id)
          (λ row. record row { status = TaskStatus.done }) table.rows;
  },
)

-- ===== src/Queue/Histories.antt =====
-- Histories of the queue: the transactions that workers and use cases make, one after another.
use orqent.Base.{ℕ, String, List, [], ◌∷◌, Bool}
use orqent.Queue.Leases.{WorkerId}
use orqent.Queue.{Table, enqueue, claim, extend, release, requeue, finish_outstanding}
use orqent.Queue.Soundness.{IsSound}
use orqent.Queue.Methods.{
  enqueue-IsSound, claim-IsSound, extend-IsSound, release-IsSound, requeue-IsSound,
  finish_outstanding-IsSound,
}

pub data Call : Type 0 where
  enqueues : (public_id : String) (run_id organization_id moment : ℕ) → Call
  claims : (worker : WorkerId) (now lease_seconds : ℕ) (held : ℕ → Bool) → Call
  extends : (task_id : String) (worker : WorkerId) (expires_at : ℕ) → Call
  releases : (task_id : String) (worker : WorkerId) → Call
  requeues : (task_id : String) (worker : WorkerId) (run_after : ℕ) → Call
  finishes : (run_id organization_id : ℕ) → Call

unfoldable pub serve : Call → Table → Table
unfolding enqueue claim extend release requeue finish_outstanding
serve (enqueues public_id run_id organization_id moment) table =
    enqueue public_id run_id organization_id moment table
serve (claims worker now lease_seconds held) table = (claim worker now lease_seconds held table).1
serve (extends task_id worker expires_at) table = (extend task_id worker expires_at table).1
serve (releases task_id worker) table = (release task_id worker table).1
serve (requeues task_id worker run_after) table = (requeue task_id worker run_after table).1
serve (finishes run_id organization_id) table = (finish_outstanding run_id organization_id table).1

unfoldable pub serve_all : List Call → Table → Table
unfolding serve
serve_all [] table = table
serve_all (call ∷ calls) table = serve_all calls (serve call table)

pub serve-IsSound : (call : Call) {table : Table} → IsSound table → IsSound (serve call table)
unfolding serve
serve-IsSound (enqueues public_id run_id organization_id moment) s =
    enqueue-IsSound public_id run_id organization_id moment s
serve-IsSound (claims worker now lease_seconds held) s =
    claim-IsSound s worker now lease_seconds held
serve-IsSound (extends task_id worker expires_at) s = extend-IsSound s task_id worker expires_at
serve-IsSound (releases task_id worker) s = release-IsSound s task_id worker
serve-IsSound (requeues task_id worker run_after) s = requeue-IsSound s task_id worker run_after
serve-IsSound (finishes run_id organization_id) s =
    finish_outstanding-IsSound s run_id organization_id

-- Every history of the queue keeps its table sound: a run has at most one outstanding task, no two
-- tasks share an identifier, and the three lease columns are NULL together while a task is queued
-- and set together while it is leased.
pub serve_all-IsSound :
    (calls : List Call) {table : Table} → IsSound table → IsSound (serve_all calls table)
unfolding serve_all
serve_all-IsSound [] s = s
serve_all-IsSound (call ∷ calls) s = serve_all-IsSound calls (serve-IsSound call s)

-- ===== src/Examples/Dispatch.antt =====
-- Small runs of the queue and its worker, and the theorems at those inputs.
use orqent.Base.{
  row_count, update_rows, ℕ, ◌+◌, String, List, [], ◌∷◌, map, Option, none, some, Bool, true, false,
  any, In, is_some, ◌≡◌, ◌⊎◌, refl, inl, inr, arith, ok, ◌==◌, ◌≢◌, eq_iff,
}
use orqent.Engine.State.{RunStatus}
use orqent.Runs.Store
use orqent.Runs.Store.{Store, TaskStatus}
use orqent.Queue.Leases.{WorkerId, ClaimedTask, FixedLeasePolicy, fixed_lease_policy}
use orqent.Queue.{
  QueueTask, Table, enqueue, claim, candidate, take_over, eligible, own, extend, release, requeue,
  finish_outstanding, is_due, is_lapsed,
}
use orqent.Queue.Soundness.{IsSound}
use orqent.Queue.Histories.{Call, enqueues, claims, releases, serve, serve_all, serve_all-IsSound}
use orqent.Queue.Selection.{Selects}
use orqent.Queue.Exclusion.{LeasedUntil, lease_is_exclusive}
use orqent.Queue.Ownership.{holds, stale_worker_writes_nothing}
use orqent.Queue.Claiming.{Handed, claim_hands_out}
use orqent.Queue.OfRun.{Agree, queue_refines_store}
use orqent.Worker.{Pulse, heartbeat, settle_task}
use orqent.Worker.Outcomes.{Settled, settle_task_lem}
use orqent.Worker.Heartbeat.{Timely, Kept, heartbeat_keeps_lease}

abbrev alice : WorkerId
alice = record { value = "alice" }

abbrev bob : WorkerId
bob = record { value = "bob" }

abbrev nobody : ℕ → Bool
nobody _ = false

abbrev no_tasks : Table
no_tasks = record { rows = []; next_id = 1; run_public_id = λ _. some "run" }

no_tasks-IsSound : IsSound no_tasks
no_tasks-IsSound = record { pending = tt; public_ids = tt; ids = tt; below = tt; columns = tt }

-- Two runs are queued, the second due first, and alice claims.
abbrev first_calls : List Call
first_calls =
    enqueues "T1" 7 1 100
    ∷ enqueues "T2" 8 1 90
    ∷ enqueues "T3" 8 1 95
    ∷ claims alice 200 30 nobody
    ∷ []

queue_program : Unit {0}
unfolding serve_all serve enqueue claim candidate take_over eligible row_count update_rows own
    extend release requeue finish_outstanding
queue_program = tt

served : Table
unfolding queue_program
served = serve_all first_calls no_tasks

abbrev waiting_row : QueueTask
waiting_row = record {
  id = 1;
  public_id = "T1";
  run_id = 7;
  organization_id = 1;
  status = TaskStatus.queued;
  run_after = 100;
  locked_by = none;
  locked_at = none;
  lease_expires_at = none;
  attempts = 0;
}

abbrev leased_row : QueueTask
leased_row = record {
  id = 2;
  public_id = "T2";
  run_id = 8;
  organization_id = 1;
  status = TaskStatus.leased;
  run_after = 90;
  locked_by = some "alice";
  locked_at = some 200;
  lease_expires_at = some 30_000_200;
  attempts = 1;
}

-- The second signal for run 8 is absorbed.
served_rows : served.rows ≡ waiting_row ∷ leased_row ∷ []
unfolding queue_program served
served_rows = refl

-- A lapsed lease is reclaimed only once nothing is due.
reclaimed :
    map {B = String × Option String}
      (λ row. (row.public_id, row.locked_by))
      (serve_all
        (claims bob 30_000_200 30 nobody ∷ claims bob 30_000_200 30 nobody ∷ [])
        served).rows
    ≡ ("T1", some "bob") ∷ ("T2", some "bob") ∷ []
unfolding queue_program served
reclaimed = refl

served-IsSound : IsSound served
unfolding served
served-IsSound = serve_all-IsSound first_calls no_tasks-IsSound

serve_all-IsSound_example : IsSound (serve_all first_calls no_tasks)
serve_all-IsSound_example = serve_all-IsSound first_calls no_tasks-IsSound

leased_there : In leased_row served.rows
unfolding queue_program served
leased_there = inr (inl refl)

leased_row-LeasedUntil : LeasedUntil "alice" 30_000_200 leased_row
leased_row-LeasedUntil = record { leased = refl; by = refl; until = refl }

bob-ne-alice : bob.value ≢ "alice"
bob-ne-alice e = ground (arith, eq_iff bob.value "alice")

abbrev rival_calls : List Call
rival_calls =
    claims bob 30_000_199 30 nobody ∷ claims bob 30_000_199 30 nobody ∷ releases "T2" bob ∷ []

lease_is_exclusive_example : In leased_row (serve_all rival_calls served).rows
lease_is_exclusive_example =
    lease_is_exclusive "alice" 30_000_200 leased_row leased_row-LeasedUntil rival_calls served
      served-IsSound (omega arith, (omega arith, (bob-ne-alice, tt))) leased_there

runs_known :
    (row : QueueTask) → In row served.rows → is_some (served.run_public_id row.run_id) ≡ true
unfolding queue_program served
runs_known row m = refl

claim_hands_out_example :
    ((claim bob 300 30 nobody served ≡ (none, served))
      × Selects (is_due 300) nobody served.rows none
      × Selects (is_lapsed 300) nobody served.rows none)
    ⊎ ((row : QueueTask) × (run : String) × Handed bob 300 30 nobody served served-IsSound row run)
claim_hands_out_example = claim_hands_out bob 300 30 nobody served served-IsSound runs_known

bob_is_stale : holds bob leased_row ≡ false
bob_is_stale = refl

stale_worker_writes_nothing_example :
    (release "T2" bob served ≡ (false, served))
    × (extend "T2" bob 400 served ≡ (false, served))
    × (requeue "T2" bob 400 served ≡ (false, served))
stale_worker_writes_nothing_example =
    stale_worker_writes_nothing served-IsSound leased_row leased_there bob 400 bob_is_stale

abbrev task_2 : ClaimedTask
task_2 = record {
  task_id = "T2";
  run_id = "run";
  organization_id = 1;
  lease = record { owner = alice; expires_at = 30_000_200 };
  attempts = 1;
}

settle_task_lem_example :
    Settled bob leased_row RunStatus.suspended false served
      (settle_task bob task_2 RunStatus.suspended false served)
settle_task_lem_example =
    settle_task_lem bob task_2 leased_row served served-IsSound leased_there refl
      RunStatus.suspended false

abbrev policy : FixedLeasePolicy
policy = record { ttl = 30_000_000; interval = 10_000_000 }

policy_valid : fixed_lease_policy 30 10 ≡ ok policy
unfolding fixed_lease_policy
policy_valid = refl

abbrev pulses : List Pulse
pulses =
    record { others = claims bob 400 30 nobody ∷ []; now = 10_000_200 }
    ∷ record { others = []; now = 21_000_000 }
    ∷ []

pulses-Timely : Timely policy alice leased_row 200 pulses
pulses-Timely = omega arith

heartbeat_keeps_lease_example :
    Kept policy alice leased_row
      (21_000_000 + 30_000_000)
      (heartbeat policy alice task_2 task_2.lease pulses served)
heartbeat_keeps_lease_example =
    heartbeat_keeps_lease policy alice task_2 leased_row 200 pulses served served-IsSound
      leased_there leased_row-LeasedUntil refl refl pulses-Timely

abbrev run_store : Store ℕ
run_store = record {
  graph = record {
    nodes = [];
    edges = [];
    by_key = [];
    adjacency = record { outgoing_of = []; incoming_of = [] };
  };
  organization_public_id = "org";
  run = record {
    id = 8;
    status = RunStatus.running;
    trigger_payload = none;
    started_at = none;
    finished_at = none;
  };
  executions = [];
  events = [];
  tasks = TaskStatus.leased ∷ [];
  foreign_tokens = [];
  same_token = λ held token. held == token;
  clock = 0;
}

run_store-Agree : Agree 8 1 served run_store
unfolding queue_program served
run_store-Agree = record { tasks = refl; tenant = (λ e. refl, (λ e. refl, tt)) }

identifier_free : any (λ row. row.public_id == "T4") served.rows ≡ false
unfolding queue_program served
identifier_free = refl

queue_refines_store_example :
    Agree 8 1 (enqueue "T4" 8 1 500 served) (Store.enqueue run_store)
    × Agree 8 1 (finish_outstanding 8 1 served).1 (Store.finish_outstanding run_store)
queue_refines_store_example =
    queue_refines_store 8 1 served run_store run_store-Agree "T4" 500 identifier_free

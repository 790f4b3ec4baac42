-- ===== src/Worker.antt =====
-- src/app/infrastructure/worker/loop.py: a process that claims tasks and advances their runs. What
-- the other processes do to the queue meanwhile, and this worker's advance itself, are the calls
-- between one awakening of the heartbeat and the next. Cancelling the heartbeat ends their list.
pub mod Outcomes
pub mod Heartbeat
use orqent.Base.{
  ℕ, ◌-◌, ◌/◌, List, [], ◌∷◌, Option, none, some, Bool, true, false, not, ◌||◌, if◌then◌else◌,
  Result, ok, raise, ◌>>=◌,
}
use orqent.Engine.State.{RunStatus, run_is_terminal, same_run_status}
use orqent.Queue.Leases.{
  WorkerId, Lease, ClaimedTask, FixedLeasePolicy, LeaseError, lease_for, should_extend, extended_to,
}
use orqent.Queue.{Table, claim, extend, release}
use orqent.Queue.Histories.{Call, serve_all}

pub data TaskOutcome : Type 0 where
  released settled lease_lost failed : TaskOutcome

-- An awakening of the heartbeat, and the calls since the one before.
pub record Pulse : Type 0 where
  pub others : List Call
  pub now : ℕ

abbrev pub is_resting : RunStatus → Bool
is_resting status = same_run_status status RunStatus.suspended || run_is_terminal status

-- The calls of the awakenings that a heartbeat which has stopped does not live to see.
unfoldable pub elapse : List Pulse → Table → Table
elapse [] table = table
elapse (pulse ∷ pulses) table = elapse pulses (serve_all pulse.others table)

-- `_settle`
unfoldable pub settle_task : WorkerId → ClaimedTask → RunStatus → Bool → Table → TaskOutcome × Table
settle_task worker task run_status lost table =
    if lost
    then (lease_lost, table)
    else let (applied, after) = release task.task_id worker table in
      (if applied then released else if is_resting run_status then settled else lease_lost, after)

module _ (policy : FixedLeasePolicy) (worker : WorkerId) where
  -- `_heartbeat`: whether the lease was lost.
  unfoldable pub heartbeat :
      ClaimedTask → Lease → List Pulse → Table → Result LeaseError (Bool × Table)
  unfolding elapse
  heartbeat task lease [] table = ok (false, table)
  heartbeat task lease (pulse ∷ pulses) table =
      let reached = serve_all pulse.others table in
      let expires_at = lease_for policy pulse.now in
      elim (should_extend policy lease pulse.now) [
        | false ↦ heartbeat task lease pulses reached
        | true ↦
            let (applied, after) = extend task.task_id worker expires_at reached in
            elim applied [
              | false ↦ ok (true, elapse pulses after)
              | true ↦ extended_to expires_at lease >>= λ longer. heartbeat task longer pulses after
            ]
      ]

  -- `process`. No status stands for an advance that raised. `last` are the calls between the last
  -- awakening and the end of the advance.
  unfoldable pub process :
      ClaimedTask
      → Option RunStatus
      → List Pulse
      → List Call
      → Table
      → Result LeaseError (TaskOutcome × Table)
  unfolding heartbeat settle_task
  process task advanced pulses last table =
      heartbeat task task.lease pulses table >>= λ (lost, beaten).
      let reached = serve_all last beaten in
      elim advanced [
        | none ↦ ok (failed, reached)
        | some run_status ↦ ok (settle_task worker task run_status lost reached)
      ]

  -- `_claim`
  unfoldable pub claim_one : ℕ → (ℕ → Bool) → Table → Option ClaimedTask × Table
  claim_one now held table = claim worker now ((lease_for policy now - now) / 1_000_000) held table

  -- One pass of the loop of `run`, with what happens during it.
  pub record Round : Type 0 where
    pub others : List Call
    pub now : ℕ
    pub held : ℕ → Bool
    pub advanced : ClaimedTask → Option RunStatus
    pub pulses : List Pulse
    pub last : List Call

  -- `run`, until `stop` ends the rounds.
  unfoldable pub run : List Round → Table → Result LeaseError Table
  unfolding claim_one process
  run [] table = ok table
  run (round ∷ rounds) table =
      let (claimed, taken) = claim_one round.now round.held (serve_all round.others table) in
      elim claimed [
        | none ↦ run rounds taken
        | some task ↦
            process task (round.advanced task) round.pulses round.last taken >>= λ (_, after).
            run rounds after
      ]

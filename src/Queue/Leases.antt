-- ===== src/Queue/Leases.antt =====
-- src/app/domain/value_objects/lease.py and src/app/infrastructure/worker/lease_policy.py: who may
-- work on a task, until when, and when a worker renews. Moments and durations are whole
-- microseconds.
use orqent.Base.{
  ℕ, ◌+◌, ◌-◌, ◌*◌, String, Bool, not, ◌&&◌, ◌||◌, ◌==◌, codes, strip, is_nil, length,
  if◌then◌else◌, ltb, leb, Result, ok, raise,
}

-- `timedelta(seconds=n)`
abbrev pub seconds : ℕ → ℕ
seconds n = n * 1_000_000

pub data LeaseError : Type 0 where
  blank_worker_id long_worker_id earlier_moment bad_ttl bad_interval : LeaseError

abbrev pub max_worker_id_length : ℕ
max_worker_id_length = 64

pub record WorkerId : Type 0 where
  pub value : String

-- `WorkerId.__post_init__`
unfoldable pub worker_id : String → Result LeaseError WorkerId
unfolding strip
worker_id value =
    if is_nil (codes value) || is_nil (strip (codes value))
    then raise blank_worker_id
    else if ltb max_worker_id_length (length (codes value))
    then raise long_worker_id
    else ok (record { value = value })

pub record Lease : Type 0 where
  pub owner : WorkerId
  pub expires_at : ℕ

unfoldable pub is_held_by : WorkerId → Lease → Bool
is_held_by worker lease = lease.owner.value == worker.value

unfoldable pub is_expired_at : ℕ → Lease → Bool
is_expired_at moment lease = leb lease.expires_at moment

unfoldable pub is_current_at : ℕ → Lease → Bool
unfolding is_expired_at
is_current_at moment lease = not (is_expired_at moment lease)

unfoldable pub is_reclaimable_at : ℕ → Lease → Bool
unfolding is_expired_at
is_reclaimable_at moment lease = is_expired_at moment lease

unfoldable pub extended_to : ℕ → Lease → Result LeaseError Lease
extended_to expires_at lease =
    if ltb expires_at lease.expires_at
    then raise earlier_moment
    else ok (record lease { expires_at = expires_at })

-- What a successful claim yields.
pub record ClaimedTask : Type 0 where
  pub task_id : String
  pub run_id : String
  pub organization_id : ℕ
  pub lease : Lease
  pub attempts : ℕ

pub record FixedLeasePolicy : Type 0 where
  pub ttl : ℕ
  pub interval : ℕ

-- `FixedLeasePolicy.__init__`
unfoldable pub fixed_lease_policy : ℕ → ℕ → Result LeaseError FixedLeasePolicy
fixed_lease_policy ttl_seconds heartbeat_interval_seconds =
    if leb ttl_seconds 0
    then raise bad_ttl
    else if not (ltb 0 heartbeat_interval_seconds && ltb heartbeat_interval_seconds ttl_seconds)
    then raise bad_interval
    else ok (record { ttl = seconds ttl_seconds; interval = seconds heartbeat_interval_seconds })

unfoldable pub lease_for : FixedLeasePolicy → ℕ → ℕ
lease_for policy now = now + policy.ttl

-- A lease that has lapsed already has nothing left, and is to be extended.
unfoldable pub should_extend : FixedLeasePolicy → Lease → ℕ → Bool
should_extend policy lease now = leb (lease.expires_at - now) (policy.ttl - policy.interval)

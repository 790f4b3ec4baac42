-- ===== src/Worker/Heartbeat.antt =====
-- How the heartbeat keeps a lease in force.
use orqent.Base.{
  ℕ, ◌+◌, ◌≤◌, ◌<◌, String, List, [], ◌∷◌, Option, some, Bool, true, false, All, In, Result, ok,
  ◌≡◌, refl, arith, ap, sym, ◌∙◌, eq_iff, ltb, leb,
}
use mathlib.Core.Path.{subst}
use orqent.Queue.Leases.{
  WorkerId, Lease, ClaimedTask, FixedLeasePolicy, LeaseError, lease_for, should_extend, extended_to,
}
use orqent.Queue.{QueueTask, Table, extend, is_leased}
use orqent.Queue.Soundness.{IsSound}
use orqent.Queue.Methods.{extend-IsSound}
use orqent.Queue.Histories.{serve_all, serve_all-IsSound}
use orqent.Queue.Ownership.{holds, holder_extends}
use orqent.Queue.Exclusion.{Spares, LeasedUntil, lease_is_exclusive}
use orqent.Worker.{Pulse, heartbeat}

module _ (policy : FixedLeasePolicy) (worker : WorkerId) where
  -- Every awakening comes at least an interval and less than a lease after the one before, and the
  -- other calls meanwhile spare the task.
  abbrev pub Timely : QueueTask → ℕ → List Pulse → Type 0
  Timely row renewed [] = Unit
  Timely row renewed (pulse ∷ pulses) =
      (renewed + policy.interval ≤ pulse.now)
      × (pulse.now < renewed + policy.ttl)
      × All (Spares worker.value (renewed + policy.ttl) row) pulse.others
      × Timely row pulse.now pulses

  -- The moment of the last awakening.
  abbrev pub last_renewal : ℕ → List Pulse → ℕ
  last_renewal renewed [] = renewed
  last_renewal renewed (pulse ∷ pulses) = last_renewal pulse.now pulses

  abbrev pub leased_until : QueueTask → ℕ → QueueTask
  leased_until row moment = record row { lease_expires_at = some moment }

  -- The heartbeat has kept the lease, and the row says so.
  pub record Kept (row : QueueTask) (moment : ℕ) (result : Result LeaseError (Bool × Table))
      : Type 0 where
    pub table : Table
    pub returned : result ≡ ok (false, table)
    pub member : In (record row { lease_expires_at = some moment }) table.rows

  should_renew :
      (lease : Lease) (renewed now : ℕ)
      → lease.expires_at ≡ renewed + policy.ttl
      → renewed + policy.interval ≤ now
      → should_extend policy lease now ≡ true
  unfolding should_extend
  should_renew lease renewed now expiry late = ground arith

  renewed_lease :
      (lease : Lease) (renewed now : ℕ)
      → lease.expires_at ≡ renewed + policy.ttl
      → renewed ≤ now
      → extended_to (lease_for policy now) lease
        ≡ ok (record lease { expires_at = now + policy.ttl })
  unfolding extended_to lease_for
  renewed_lease lease renewed now expiry late =
      let forth : ltb (now + policy.ttl) lease.expires_at ≡ false = ground arith in rw forth refl

  heartbeat_beat :
      (task : ClaimedTask) (lease longer : Lease) (pulse : Pulse) (pulses : List Pulse)
      (table : Table)
      → should_extend policy lease pulse.now ≡ true
      → (extend task.task_id worker (lease_for policy pulse.now) (serve_all pulse.others table)).0
        ≡ true
      → extended_to (lease_for policy pulse.now) lease ≡ ok longer
      → heartbeat policy worker task lease (pulse ∷ pulses) table
        ≡ heartbeat policy worker task longer pulses
            (extend task.task_id worker
              (lease_for policy pulse.now)
              (serve_all pulse.others table)).1
  unfolding heartbeat
  heartbeat_beat task lease longer pulse pulses table renew applied extended =
      rw (renew, applied, extended, heartbeat) refl

  le→leb : (a b : ℕ) → a ≤ b → leb a b ≡ true
  le→leb a b h = ground arith

  heartbeat_renews :
      (task : ClaimedTask) (lease : Lease) (row : QueueTask) (renewed : ℕ) (pulses : List Pulse)
      (table : Table)
      → IsSound table
      → In (leased_until row (renewed + policy.ttl)) table.rows
      → is_leased row.status ≡ true
      → row.locked_by ≡ some worker.value
      → task.task_id ≡ row.public_id
      → lease.expires_at ≡ renewed + policy.ttl
      → Timely row renewed pulses
      → Kept row
          (last_renewal renewed pulses + policy.ttl)
          (heartbeat policy worker task lease pulses table)
  unfolding heartbeat lease_for
  heartbeat_renews task lease row renewed [] table s m leased by named expiry timely = record {
    table = table;
    returned = refl;
    member = m;
  }
  heartbeat_renews task lease row renewed (pulse ∷ pulses) table s m leased by named expiry
        (late, early, spared, timely) =
      let current = leased_until row (renewed + policy.ttl) in
      let reached = serve_all pulse.others table in
      let sound = serve_all-IsSound pulse.others s in
      let there =
        lease_is_exclusive worker.value (renewed + policy.ttl) current
          (record { leased = leased; by = by; until = refl }) pulse.others table s spared m in
      let held : holds worker current ≡ true = ground (arith, eq_iff worker.value worker.value) in
      let (applied, longer) =
        holder_extends sound current there worker (pulse.now + policy.ttl) held
          (le→leb (renewed + policy.ttl) (pulse.now + policy.ttl) (omega arith)) in
      let moment = pulse.now + policy.ttl in
      let mine = λ (key : String). extend key worker moment reached in
      let applied_here = subst (λ key. (mine key).0 ≡ true) (sym named) applied in
      let longer_here =
        subst (λ key. In (leased_until row moment) (mine key).1.rows) (sym named) longer in
      let next = record lease { expires_at = moment } in
      let rest =
        heartbeat_renews task next row pulse.now pulses (mine task.task_id).1
          (extend-IsSound sound task.task_id worker moment) longer_here leased by named refl
          timely in
      record {
        table = rest.table;
        returned =
            heartbeat_beat task lease next pulse pulses table
              (should_renew lease renewed pulse.now expiry late) applied_here
              (renewed_lease lease renewed pulse.now expiry (omega arith))
            ∙ rest.returned;
        member = rest.member;
      }

  -- A worker that has leased a task at `renewed` for the policy's duration, and whose heartbeat
  -- wakes up at least an interval and less than the duration after each renewal, keeps the lease:
  -- the heartbeat neither raises nor reports a loss, and the lease lasts for the policy's duration
  -- from the last awakening. The calls of others meanwhile may be any but a closing of the run, and
  -- a claim must come before the moment when the lease would lapse.
  pub heartbeat_keeps_lease :
      (task : ClaimedTask) (row : QueueTask) (renewed : ℕ) (pulses : List Pulse) (table : Table)
      → IsSound table
      → In row table.rows
      → LeasedUntil worker.value (renewed + policy.ttl) row
      → task.task_id ≡ row.public_id
      → task.lease.expires_at ≡ renewed + policy.ttl
      → Timely row renewed pulses
      → Kept row
          (last_renewal renewed pulses + policy.ttl)
          (heartbeat policy worker task task.lease pulses table)
  heartbeat_keeps_lease task row renewed pulses table s m leased named expiry timely =
      heartbeat_renews task task.lease row renewed pulses table s
        (subst (λ r. In r table.rows)
          (ap (λ (o : Option ℕ). record row { lease_expires_at = o }) leased.until) m)
        leased.leased leased.by named expiry timely

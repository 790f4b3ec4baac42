-- ===== src/Queue/Ownership.antt =====
-- Only the worker that holds a task's lease writes to it.
use orqent.Base.{
  Unique, any-In, row_count, touched, update_rows, update_rows-In, ℕ, suc, String, List, [], ◌∷◌,
  some, Bool, true, false, ◌&&◌, if◌then◌else◌, any, In, ◌≡◌, refl, sym, ap, ◌∙◌, arith, Bool-cases,
  inl, inr, ◌==◌, eq_iff,
}
use mathlib.Core.Path.{subst}
use orqent.Runs.Store.{TaskStatus}
use orqent.Queue.Leases.{WorkerId}
use orqent.Queue.Soundness.{IsSound}
use orqent.Queue.{
  QueueTask, Table, same_public_id, is_leased, locked_to, owned_row, own, expires_by, extend,
  release, requeue, returned,
}

-- The worker that holds the row's lease.
abbrev pub holds : WorkerId → QueueTask → Bool
holds worker row = is_leased row.status && locked_to worker.value row.locked_by

module _ (task_id : String) (worker : WorkerId) (extra : QueueTask → Bool)
    (change : QueueTask → QueueTask) where
  -- Rows with another identifier are left alone.
  record Untouched (rows : List QueueTask) : Type 0 where
    count : row_count (owned_row task_id worker extra) rows ≡ 0
    same : update_rows (owned_row task_id worker extra) change rows ≡ rows

  Untouched-cons :
      (row : QueueTask) (rows : List QueueTask)
      → owned_row task_id worker extra row ≡ false
      → Untouched rows
      → Untouched (row ∷ rows)
  unfolding row_count update_rows
  Untouched-cons row rows h u = record { count = rw h u.count; same = rw h (ap (◌∷◌ row) u.same) }

  Untouched-others :
      (row : QueueTask) (rows : List QueueTask)
      → row.public_id ≡ task_id
      → any (same_public_id row) rows ≡ false
      → Untouched rows
  unfolding row_count update_rows
  Untouched-others row [] h others = record { count = refl; same = refl }
  Untouched-others row (first ∷ rows) h others =
      let different : (row.public_id == first.public_id) ≡ false = ground arith in
      Untouched-cons first rows
        (ground (arith, eq_iff row.public_id first.public_id, eq_iff first.public_id task_id))
        (Untouched-others row rows h (ground arith))

  record Decided (row : QueueTask) (rows : List QueueTask) : Type 0 where
    count :
        row_count (owned_row task_id worker extra) rows
        ≡ (if owned_row task_id worker extra row then 1 else 0)
    same :
        owned_row task_id worker extra row ≡ false
        → update_rows (owned_row task_id worker extra) change rows ≡ rows

  Decided-here :
      (row : QueueTask) (rows : List QueueTask)
      → row.public_id ≡ task_id
      → any (same_public_id row) rows ≡ false
      → Decided row (row ∷ rows)
  unfolding row_count update_rows
  Decided-here row rows h others =
      let u = Untouched-others row rows h others in
      elim (Bool-cases (owned_row task_id worker extra row)) [
        | inl e ↦ record { count = rw e (ap suc u.count); same = λ f. ground arith }
        | inr e ↦ record { count = rw e u.count; same = λ f. rw e (ap (◌∷◌ row) u.same) }
      ]

  Decided-later :
      (row first : QueueTask) (rows : List QueueTask)
      → owned_row task_id worker extra first ≡ false
      → Decided row rows
      → Decided row (first ∷ rows)
  unfolding row_count update_rows
  Decided-later row first rows e d = record {
    count = rw e d.count;
    same = λ f. rw e (ap (◌∷◌ first) (d.same f));
  }

  Decided-In :
      (row : QueueTask) (rows : List QueueTask)
      → row.public_id ≡ task_id
      → Unique same_public_id rows
      → In row rows
      → Decided row rows
  Decided-In row [] h unique m = absurd m
  Decided-In row (first ∷ rows) h (others, unique) (inl same) =
      subst (λ r. Decided r (first ∷ rows)) (sym same)
        (Decided-here first rows (ap (λ (r : QueueTask). r.public_id) (sym same) ∙ h) others)
  Decided-In row (first ∷ rows) h (others, unique) (inr m) =
      let different = any-In (same_public_id first) row rows others m in
      Decided-later row first rows
        (ground (arith, eq_iff first.public_id row.public_id, eq_iff first.public_id task_id))
        (Decided-In row rows h unique m)

  own_decides :
      (row : QueueTask) (table : Table)
      → IsSound table
      → In row table.rows
      → row.public_id ≡ task_id
      → ((own task_id worker change extra table).0 ≡ owned_row task_id worker extra row)
        × (owned_row task_id worker extra row ≡ false
            → own task_id worker change extra table ≡ (false, table))
        × In
            (touched (owned_row task_id worker extra) change row)
            (own task_id worker change extra table).1.rows
  unfolding own
  own_decides row table s m h =
      let d = Decided-In row table.rows h s.public_ids m in
      (
        rw (d.count) (ground arith),
        λ e. let same = d.same e in rw (d.count, e, same) refl,
        update_rows-In _ change row table.rows m,
      )

module _ {table : Table} (s : IsSound table) (row : QueueTask) (m : In row table.rows)
    (worker : WorkerId) where
  -- A worker that does not hold the lease of a task, because the lease was reclaimed, or the task
  -- was finished or handed back, is told so by `extend`, `release` and `requeue`, and none of them
  -- changes the table.
  pub stale_worker_writes_nothing :
      (moment : ℕ)
      → holds worker row ≡ false
      → (release row.public_id worker table ≡ (false, table))
        × (extend row.public_id worker moment table ≡ (false, table))
        × (requeue row.public_id worker moment table ≡ (false, table))
  unfolding release extend requeue
  stale_worker_writes_nothing moment stale = (
    (own_decides row.public_id worker (λ r. true) _ row table s m refl).1 (ground arith),
    (own_decides row.public_id worker (expires_by moment) _ row table s m refl).1 (ground arith),
    (own_decides row.public_id worker (λ r. true) _ row table s m refl).1 (ground arith),
  )

  -- The holder's `release` succeeds and leaves the task done, and its `requeue` succeeds and leaves
  -- it queued from the moment given, with the lease columns cleared and the attempts kept.
  pub holder_writes :
      (moment : ℕ)
      → holds worker row ≡ true
      → ((release row.public_id worker table).0 ≡ true)
        × In (record row { status = TaskStatus.done }) (release row.public_id worker table).1.rows
        × ((requeue row.public_id worker moment table).0 ≡ true)
        × In (returned moment row) (requeue row.public_id worker moment table).1.rows
  unfolding release requeue
  holder_writes moment held =
      let owned : owned_row row.public_id worker (λ r. true) row ≡ true =
        ground (arith, eq_iff row.public_id row.public_id) in
      let (done_count, _, done) =
        own_decides row.public_id worker (λ r. true) (λ r. record r { status = TaskStatus.done })
          row table s m refl in
      let (back_count, _, back) =
        own_decides row.public_id worker (λ r. true) (returned moment) row table s m refl in
      (done_count ∙ owned, rw owned at done, back_count ∙ owned, rw owned at back)

  -- The holder's heartbeat prolongs the lease, unless it would end earlier.
  pub holder_extends :
      (moment : ℕ)
      → holds worker row ≡ true
      → expires_by moment row ≡ true
      → ((extend row.public_id worker moment table).0 ≡ true)
        × In
            (record row { lease_expires_at = some moment })
            (extend row.public_id worker moment table).1.rows
  unfolding extend
  holder_extends moment held later =
      let owned : owned_row row.public_id worker (expires_by moment) row ≡ true =
        ground (arith, eq_iff row.public_id row.public_id) in
      let (count, _, longer) =
        own_decides row.public_id worker (expires_by moment)
          (λ r. record r { lease_expires_at = some moment }) row table s m refl in
      (count ∙ owned, rw owned at longer)

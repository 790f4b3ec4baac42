-- ===== src/Queue/Soundness.antt =====
-- What every transaction on the queue's table keeps: the three unique columns, and the lease
-- columns that are set together or not at all.
use orqent.Base.{
  Unique, touched, update_rows, update_rows-All, update_rows-Unique, ℕ, ◌<◌, String, Option, none,
  Bool, true, eqb, All, is_some, ◌≡◌, arith, Bool-cases, inl, inr,
}
use orqent.Runs.Store.{TaskStatus, outstanding}
use orqent.Queue.{QueueTask, Table, same_pending, same_public_id}

abbrev pub same_id : QueueTask → QueueTask → Bool
same_id a b = eqb a.id b.id

-- The lease columns are NULL together while queued and set together while leased.
abbrev pub Columns : TaskStatus → Option String → Option ℕ → Option ℕ → Type 0
Columns TaskStatus.queued locked_by locked_at expires_at =
    (locked_by ≡ none) × (locked_at ≡ none) × (expires_at ≡ none)
Columns TaskStatus.leased locked_by locked_at expires_at =
    (is_some locked_by ≡ true) × (is_some locked_at ≡ true) × (is_some expires_at ≡ true)
Columns TaskStatus.done locked_by locked_at expires_at = Unit

abbrev pub HasColumns : QueueTask → Type 0
HasColumns row = Columns row.status row.locked_by row.locked_at row.lease_expires_at

pub record IsSound (table : Table) : Type 0 where
  pub pending : Unique same_pending table.rows
  pub public_ids : Unique same_public_id table.rows
  pub ids : Unique same_id table.rows
  pub below : All (λ row. row.id < table.next_id) table.rows
  pub columns : All HasColumns table.rows

-- An UPDATE that keeps the keys, touches outstanding rows only, and sets the lease columns right.
pub record Update (matches : QueueTask → Bool) (change : QueueTask → QueueTask) : Type 0 where
  pub id : (row : QueueTask) → (change row).id ≡ row.id
  pub public_id : (row : QueueTask) → (change row).public_id ≡ row.public_id
  pub run_id : (row : QueueTask) → (change row).run_id ≡ row.run_id
  pub open_only : (row : QueueTask) → matches row ≡ true → outstanding row.status ≡ true
  pub columns : (row : QueueTask) → matches row ≡ true → HasColumns row → HasColumns (change row)

module _ (matches : QueueTask → Bool) (change : QueueTask → QueueTask)
    (u : Update matches change) where
  touched-same_id :
      (a b : QueueTask)
      → same_id (touched matches change a) (touched matches change b) ≡ true
      → same_id a b ≡ true
  touched-same_id a b h = ground (arith, u.id a, u.id b)

  touched-same_public_id :
      (a b : QueueTask)
      → same_public_id (touched matches change a) (touched matches change b) ≡ true
      → same_public_id a b ≡ true
  touched-same_public_id a b h = ground (arith, u.public_id a, u.public_id b)

  touched-same_pending :
      (a b : QueueTask)
      → same_pending (touched matches change a) (touched matches change b) ≡ true
      → same_pending a b ≡ true
  touched-same_pending a b h = ground (arith, u.run_id a, u.run_id b, u.open_only a, u.open_only b)

  touched-HasColumns : (row : QueueTask) → HasColumns row → HasColumns (touched matches change row)
  touched-HasColumns row h = elim (Bool-cases (matches row)) [
    | inl e ↦ rw e (u.columns row e h)
    | inr e ↦ rw e h
  ]

  touched-below : (n : ℕ) (row : QueueTask) → row.id < n → (touched matches change row).id < n
  touched-below n row h = ground (arith, u.id row)

  pub update-IsSound :
      (table : Table)
      → IsSound table
      → IsSound (record table { rows = update_rows matches change table.rows })
  update-IsSound table s = record {
    pending =
        update_rows-Unique matches change same_pending touched-same_pending table.rows s.pending;
    public_ids =
        update_rows-Unique matches change same_public_id touched-same_public_id table.rows
          s.public_ids;
    ids = update_rows-Unique matches change same_id touched-same_id table.rows s.ids;
    below =
        update_rows-All matches change (λ row. row.id < table.next_id) (touched-below table.next_id)
          table.rows s.below;
    columns = update_rows-All matches change HasColumns touched-HasColumns table.rows s.columns;
  }

-- ===== src/Queue/Claiming.antt =====
-- What `claim` hands out, and when it hands out nothing.
use orqent.Base.{
  Unique, any-In, row_count, update_rows, update_rows-In, ℕ, suc, ◌+◌, String, List, [], ◌∷◌, none,
  some, Bool, true, false, eqb, any, In, is_some, ◌≡◌, ◌⊎◌, refl, sym, ap, arith, Option-cases, inl,
  inr,
}
use mathlib.Core.Path.{subst}
use orqent.Runs.Store.{outstanding}
use orqent.Queue.Leases.{WorkerId, ClaimedTask, seconds}
use orqent.Queue.Soundness.{IsSound, same_id}
use orqent.Queue.Selection.{Chosen, Selects}
use orqent.Queue.Ownership.{}
use orqent.Queue.Exclusion.{candidate_cases, candidate_none}
use orqent.Queue.{
  QueueTask, Table, is_due, is_lapsed, candidate, claim, take_over, claimed_row, lease_to,
}

count_others :
    (row : QueueTask) (rows : List QueueTask)
    → any (same_id row) rows ≡ false
    → row_count (claimed_row row.id) rows ≡ 0
unfolding row_count
count_others row [] h = refl
count_others row (first ∷ rows) h =
    let rest = count_others row rows (ground arith) in
    let other : claimed_row row.id first ≡ false = ground arith in rw other rest

count_own :
    (row : QueueTask) (rows : List QueueTask)
    → Unique same_id rows
    → outstanding row.status ≡ true
    → In row rows
    → row_count (claimed_row row.id) rows ≡ 1
unfolding row_count
count_own row [] unique h m = absurd m
count_own row (first ∷ rows) (others, unique) h (inl same) =
    let apart = subst (λ (r : QueueTask). any (same_id r) rows ≡ false) (sym same) others in
    let rest = count_others row rows apart in
    let open_first = subst (λ (r : QueueTask). outstanding r.status ≡ true) same h in
    let here : claimed_row row.id first ≡ true =
      subst (λ (r : QueueTask). claimed_row row.id r ≡ true) same (ground arith) in
    rw here (ap suc rest)
count_own row (first ∷ rows) (others, unique) h (inr m) =
    let apart = any-In (same_id first) row rows others m in
    let other : claimed_row row.id first ≡ false = ground arith in
    rw other (count_own row rows unique h m)

abbrev pub handed_task : WorkerId → ℕ → QueueTask → String → ClaimedTask
handed_task worker expires_at row run = record {
  task_id = row.public_id;
  run_id = run;
  organization_id = row.organization_id;
  lease = record { owner = worker; expires_at = expires_at };
  attempts = row.attempts + 1;
}

module _ (worker : WorkerId) (now lease_seconds : ℕ) (held : ℕ → Bool) (table : Table)
    (s : IsSound table) where
  taken_open :
      (row : QueueTask)
      → candidate now held table ≡ some row
      → In row table.rows × (outstanding row.status ≡ true)
  taken_open row taken = elim (candidate_cases now held table row taken) [
    | inl chosen ↦ let fits = chosen.matching in (chosen.member, ground arith)
    | inr (chosen, _) ↦ let fits = chosen.matching in (chosen.member, ground arith)
  ]

  taken_once :
      (row : QueueTask)
      → candidate now held table ≡ some row
      → eqb (row_count (claimed_row row.id) table.rows) 1 ≡ true
  taken_once row taken =
      let (m, still_open) = taken_open row taken in
      rw (count_own row table.rows s.ids still_open m) refl

  abbrev pub taken_table : QueueTask → Table
  taken_table row = record table {
    rows =
        update_rows (claimed_row row.id) (lease_to worker now (now + seconds lease_seconds))
          table.rows;
  }

  take_over_lem :
      (row : QueueTask) (run : String)
      → eqb (row_count (claimed_row row.id) table.rows) 1 ≡ true
      → table.run_public_id row.run_id ≡ some run
      → take_over worker now (now + seconds lease_seconds) row table
        ≡ (some (handed_task worker (now + seconds lease_seconds) row run), taken_table row)
  unfolding take_over
  take_over_lem row run once known = rw (once, known, take_over) refl

  claim_lem :
      (row : QueueTask) (run : String)
      → candidate now held table ≡ some row
      → table.run_public_id row.run_id ≡ some run
      → claim worker now lease_seconds held table
        ≡ (some (handed_task worker (now + seconds lease_seconds) row run), taken_table row)
  unfolding claim
  claim_lem row run taken known =
      rw (taken, claim) (take_over_lem row run (taken_once row taken) known)

  leased_after :
      (row : QueueTask)
      → candidate now held table ≡ some row
      → In (lease_to worker now (now + seconds lease_seconds) row) (taken_table row).rows
  leased_after row taken =
      let (m, still_open) = taken_open row taken in
      let own : claimed_row row.id row ≡ true = ground arith in
      rw own at (
        update_rows-In (claimed_row row.id) (lease_to worker now (now + seconds lease_seconds)) row
          table.rows m)

  claim-none :
      candidate now held table ≡ none → claim worker now lease_seconds held table ≡ (none, table)
  unfolding claim
  claim-none h = rw (h, claim) refl

  -- A task that is handed out, and what the claim returns and leaves.
  pub record Handed (row : QueueTask) (run : String) : Type 0 where
    pub eligible :
        Chosen (is_due now) held table.rows row
        ⊎ (Chosen (is_lapsed now) held table.rows row × Selects (is_due now) held table.rows none)
    pub claimed :
        claim worker now lease_seconds held table
        ≡ (some (handed_task worker (now + seconds lease_seconds) row run), taken_table row)
    pub leased : In (lease_to worker now (now + seconds lease_seconds) row) (taken_table row).rows

  -- With every task's run in the database, a claim hands out nothing exactly when no free task is
  -- due or has a lapsed lease, and the table stays as it was. Otherwise it hands out the free task
  -- that is due and comes first by `run_after` and `id`, or, if none is due, the first whose lease
  -- has lapsed; it counts the attempt and leases the task to the worker from now on.
  pub claim_hands_out :
      ((row : QueueTask) → In row table.rows → is_some (table.run_public_id row.run_id) ≡ true)
      → ((claim worker now lease_seconds held table ≡ (none, table))
          × Selects (is_due now) held table.rows none
          × Selects (is_lapsed now) held table.rows none)
        ⊎ ((row : QueueTask) × (run : String) × Handed row run)
  claim_hands_out runs = elim (Option-cases (candidate now held table)) [
    | inl e ↦
        let (no_fresh, no_lapsed) = candidate_none now held table e in
        inl (claim-none e, no_fresh, no_lapsed)
    | inr (row, e) ↦
        let known = runs row (taken_open row e).0 in
        elim (Option-cases (table.run_public_id row.run_id)) [
          | inl missing ↦ ground arith
          | inr (run, k) ↦ inr (
            row,
            run,
            record {
              eligible = candidate_cases now held table row e;
              claimed = claim_lem row run e k;
              leased = leased_after row e;
            },
          )
        ]
  ]

-- ===== src/Schedules/Draining.antt =====
-- The dispatcher's rounds at one moment: every schedule that is due fires once, and then it idles.
use orqent.Base.{
  ℕ, zero, suc, ◌+◌, ◌<◌, String, List, [], ◌∷◌, some, Bool, true, false, ltb, leb, eqb, any,
  any-In, length, In, Unique, update_rows, update_rows-Unique, row_count, row_count_none,
  update_rows_idle, raise, ◌≡◌, ◌⊎◌, refl, sym, ap, ◌∙◌, arith, Bool-cases, Option-cases, inl, inr,
  length-append,
}
use mathlib.Core.Path.{subst}
use orqent.Runs.Creation.{Catalogue, Database, RunRow, Identifiers, furnish}
use orqent.Schedules.{
  Schedule, DueSchedule, DispatchError, Timetable, Clockwork, has_schedule_id, published_by, fires,
  advance_to, dispatch_one, dispatch_once, drain,
}
use orqent.Schedules.Claims.{Fired, idle, failed, fired, dispatch_one_cases}

-- The primary key.
abbrev pub same_schedule : Schedule → Schedule → Bool
same_schedule a b = eqb b.id a.id

module _ {C : Type 0} (catalogue : Catalogue C) (held : ℕ → Bool) (now next : ℕ)
    (later : ltb now next ≡ true) (due : DueSchedule) where
  -- The row that fired is not due again.
  moved_on : (row : Schedule) → fires catalogue held now (record row { next_run_at = next }) ≡ false
  unfolding fires
  moved_on row = elim (Option-cases (published_by catalogue (record row { next_run_at = next }))) [
    | inl e ↦ rw (e, fires) refl
    | inr (_, e) ↦ let ahead : leb next now ≡ false = ground arith in rw (e, ahead, fires) refl
  ]

  pub advance_to-row_count :
      (rows : List Schedule)
      → Unique same_schedule rows
      → In due.schedule rows
      → fires catalogue held now due.schedule ≡ true
      → row_count (fires catalogue held now) rows
        ≡ suc (row_count (fires catalogue held now) (advance_to next due rows))
  unfolding update_rows row_count
  advance_to-row_count [] unique m h = absurd m
  advance_to-row_count (row ∷ rows) (apart, unique) (inl same) h =
      let alone = subst (λ (s : Schedule). any (same_schedule s) rows ≡ false) (sym same) apart in
      let counts = subst (λ (s : Schedule). fires catalogue held now s ≡ true) same h in
      let rest =
        update_rows_idle (has_schedule_id due.schedule.id) (λ r. record r { next_run_at = next })
          rows alone in
      let own : eqb row.id due.schedule.id ≡ true =
        rw (ap (λ (s : Schedule). s.id) same) ground arith in
      rw (rest, own, moved_on row, counts) refl
  advance_to-row_count (row ∷ rows) (apart, unique) (inr m) h =
      let other : eqb row.id due.schedule.id ≡ false =
        (let no = any-In (same_schedule row) due.schedule rows apart m in ground arith) in
      let rest = advance_to-row_count rows unique m h in
      rw other (elim (Bool-cases (fires catalogue held now row)) [
        | inl e ↦ rw (e, rest) refl
        | inr e ↦ rw (e, rest) refl
      ])

-- How many schedules the claim's statement would select.
abbrev pub waiting : {V C : Type 0} → (ℕ → Bool) → ℕ → Timetable V C → ℕ
waiting held now state = row_count (fires state.db.catalogue held now) state.schedules

module _ {V C : Type 0} (clockwork : Clockwork V C) (ids : Identifiers) (held : ℕ → Bool)
    (now : ℕ) where
  -- The dispatcher stands still: nothing is due, or the next claim fails again.
  abbrev pub Still : Timetable V C → Type 0
  Still state =
      (waiting held now state ≡ 0)
      ⊎ ((e : DispatchError) × (dispatch_one clockwork ids held now state ≡ (state, raise e)))

module _ {V C : Type 0} (clockwork : Clockwork V C) (ids : Identifiers) (held : ℕ → Bool) (now : ℕ)
    (strictly_after : (cron : String) (next : ℕ)
      → clockwork.get_next cron now ≡ some next
      → ltb now next ≡ true) where
  Fired-catalogue :
      (state after : Timetable V C) (row : RunRow V)
      → Fired clockwork ids held now state after row
      → after.db.catalogue ≡ state.db.catalogue
  unfolding furnish
  Fired-catalogue state after row f = ap (λ (d : Database V C). d.catalogue) f.created.written

  Fired-runs :
      (state after : Timetable V C) (row : RunRow V)
      → Fired clockwork ids held now state after row
      → length after.db.runs ≡ length state.db.runs + 1
  unfolding furnish
  Fired-runs state after row f =
      ap (λ (d : Database V C). length d.runs) f.created.written
      ∙ length-append state.db.runs (row ∷ [])

  Fired-waiting :
      (state after : Timetable V C) (row : RunRow V)
      → Unique same_schedule state.schedules
      → Fired clockwork ids held now state after row
      → waiting held now state ≡ suc (waiting held now after)
  Fired-waiting state after row unique f =
      advance_to-row_count state.db.catalogue held now f.next
        (strictly_after f.due.cron f.next f.computed) f.due state.schedules unique f.listed
        f.selected
      ∙ ap suc (rw (Fired-catalogue state after row f, f.advanced) refl)

  Fired-Unique :
      (state after : Timetable V C) (row : RunRow V)
      → Unique same_schedule state.schedules
      → Fired clockwork ids held now state after row
      → Unique same_schedule after.schedules
  Fired-Unique state after row unique f = rw f.advanced (
      update_rows-Unique (has_schedule_id f.due.schedule.id)
        (λ r. record r { next_run_at = f.next }) same_schedule (λ a b h. ground arith)
        state.schedules unique)

  -- Rounds at one moment come to an end: with more fuel than schedules are due, the dispatcher
  -- fires until it stands still, each round that fires takes one schedule off the due ones and adds
  -- one run, and it stands still only when none is due or the next claim fails. The cron library
  -- answers with later moments, and the schedules have different identifiers.
  pub drain_lem :
      (fuel : ℕ) (state : Timetable V C)
      → Unique same_schedule state.schedules
      → waiting held now state < fuel
      → (n : ℕ) × (after : Timetable V C) × (drain clockwork ids held fuel now state
          ≡ some (n, after))
        × (waiting held now state ≡ n + waiting held now after)
        × (length after.db.runs ≡ length state.db.runs + n)
        × Still clockwork ids held now after
  unfolding drain dispatch_once
  drain_lem zero state unique enough = ground arith
  drain_lem (suc fuel) state unique enough =
      elim (dispatch_one_cases clockwork ids held now state) [
        | idle none_due same ↦ (
          0,
          state,
          rw same refl,
          ground arith,
          ground arith,
          inl (row_count_none _ state.schedules none_due),
        )
        | failed e same ↦ (0, state, rw same refl, ground arith, ground arith, inr (e, same))
        | fired after row same f ↦
            let one = Fired-waiting state after row unique f in
            let (n, last, reached, spent, grown, still) =
              drain_lem fuel after (Fired-Unique state after row unique f) (ground arith) in
            (
              suc n,
              last,
              rw (same, reached) refl,
              ground arith,
              (let first = Fired-runs state after row f in ground arith),
              still,
            )
      ]

-- ===== src/Schedules/Claims.antt =====
-- What one dispatch does to the state, on each of its outcomes.
use orqent.Base.{
  ℕ, String, List, [], ◌∷◌, none, some, Bool, true, false, any, In, find_row, find_row-some, ok,
  raise, ◌≡◌, refl, ◌∙◌, arith, Bool-cases, Option-cases, inl, inr,
}
use orqent.Runs.Creation.{Workflow, WorkflowNode, RunRow, Identifiers}
use orqent.Runs.Created.{Created, materialize_cases}
use orqent.Schedules.{
  Schedule, DueSchedule, DispatchError, invalid_config, bad_date, creation, Timetable, Clockwork,
  published_by, fires, claim_due, occurrence_payload, advance_to, fire, dispatch_one,
}

find_row-none :
    {A : Type 0} (matches : A → Bool) (rows : List A)
    → find_row matches rows ≡ none
    → any matches rows ≡ false
unfolding find_row
find_row-none matches [] h = refl
find_row-none matches (row ∷ rows) h = elim (Bool-cases (matches row)) [
  | inl e ↦ ground arith
  | inr e ↦ ground (arith, find_row-none matches rows)
]

module _ {V C : Type 0} (clockwork : Clockwork V C) (ids : Identifiers) (held : ℕ → Bool) (now : ℕ)
    (state : Timetable V C) where
  -- One schedule has fired, once, and is next due later.
  pub record Fired (after : Timetable V C) (row : RunRow V) : Type 0 where
    pub due : DueSchedule
    pub listed : In due.schedule state.schedules
    pub selected : fires state.db.catalogue held now due.schedule ≡ true
    pub node : WorkflowNode C
    pub workflow : Workflow
    pub joined : published_by state.db.catalogue due.schedule ≡ some (workflow, node)
    pub cron : clockwork.cron_of node.config ≡ some due.cron
    pub next : ℕ
    pub computed : clockwork.get_next due.cron now ≡ some next
    pub advanced : after.schedules ≡ advance_to next due state.schedules
    pub created :
        Created ids now workflow.public_id due.schedule.organization_id
          (some (occurrence_payload clockwork due))
          state.db
          row
          after.db

  -- The three outcomes.
  pub data Ending : Type 0 where
    idle :
        any (fires state.db.catalogue held now) state.schedules ≡ false
        → dispatch_one clockwork ids held now state ≡ (state, ok none)
        → Ending
    failed :
        (e : DispatchError) → dispatch_one clockwork ids held now state ≡ (state, raise e) → Ending
    fired :
        (after : Timetable V C) (row : RunRow V)
        → dispatch_one clockwork ids held now state ≡ (after, ok (some row))
        → Fired after row
        → Ending

  fire_outcome :
      (schedule : Schedule) (workflow : Workflow) (node : WorkflowNode C) (cron : String) (next : ℕ)
      → In schedule state.schedules
      → fires state.db.catalogue held now schedule ≡ true
      → published_by state.db.catalogue schedule ≡ some (workflow, node)
      → clockwork.cron_of node.config ≡ some cron
      → clockwork.get_next cron now ≡ some next
      → dispatch_one clockwork ids held now state
        ≡ fire clockwork ids held now
            (record { schedule = schedule; workflow_public_id = workflow.public_id; cron = cron })
            state
      → Ending
  unfolding fire
  fire_outcome schedule workflow node cron next listed selected j c g claimed =
      let due : DueSchedule = record {
        schedule = schedule;
        workflow_public_id = workflow.public_id;
        cron = cron;
      } in
      elim (materialize_cases ids now workflow.public_id schedule.organization_id
        (some (occurrence_payload clockwork due)) state.db) [
          | inl (e, m) ↦ failed (creation e) (claimed ∙ rw (g, m, fire) refl)
          | inr (row, db, m, made) ↦
              let after : Timetable V C = record {
                db = db;
                schedules = advance_to next due state.schedules;
              } in
              fired after row (claimed ∙ rw (g, m, fire) refl) (record {
                due = due;
                listed = listed;
                selected = selected;
                node = node;
                workflow = workflow;
                joined = j;
                cron = c;
                next = next;
                computed = g;
                advanced = refl;
                created = made;
              })
        ]

  pub dispatch_one_cases : Ending
  unfolding dispatch_one claim_due fire fires
  dispatch_one_cases =
      elim (Option-cases (find_row (fires state.db.catalogue held now) state.schedules)) [
        | inl h ↦ idle (find_row-none _ state.schedules h) (rw (h, dispatch_one, claim_due) refl)
        | inr (schedule, h) ↦
            let (listed, selected) = find_row-some _ state.schedules schedule h in
            elim (Option-cases (published_by state.db.catalogue schedule)) [
              | inl j ↦
                  let no : fires state.db.catalogue held now schedule ≡ false =
                    rw (j, fires) refl in
                  cc
              | inr ((workflow, node), j) ↦ elim (Option-cases (clockwork.cron_of node.config)) [
                | inl c ↦ failed invalid_config (rw (h, j, c, dispatch_one, claim_due) refl)
                | inr (cron, c) ↦ elim (Option-cases (clockwork.get_next cron now)) [
                  | inl g ↦ failed bad_date (rw (h, j, c, g, dispatch_one, claim_due, fire) refl)
                  | inr (next, g) ↦
                      fire_outcome schedule workflow node cron next listed selected j c g
                        (rw (h, j, c, dispatch_one, claim_due) refl)
                ]
              ]
            ]
      ]

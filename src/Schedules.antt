-- ===== src/Schedules.antt =====
-- Dispatching due schedules: src/app/services/schedule_dispatch_service.py over the table of
-- src/app/infrastructure/db/models/schedule.py with schedule_repository.py, and the loop of
-- src/app/infrastructure/dispatcher/loop.py. A dispatch is one transaction. Moments are whole
-- microseconds of UTC, as in the columns. The cron library, the validation of a node's
-- configuration and the rendering of a moment are arguments, and so are the rows that other open
-- transactions hold, which SKIP LOCKED steps over.
pub mod Claims
pub mod Draining
use orqent.Base.{
  ℕ, zero, suc, is_some, ◌+◌, String, List, [], ◌∷◌, Option, none, some, Bool, true, false, not,
  ◌&&◌, if◌then◌else◌, leb, eqb, update_rows, find_row, Dict, Result, ok, raise,
}
use orqent.Runs.Creation.{
  Workflow, WorkflowVersion, WorkflowNode, Catalogue, Database, RunRow, Identifiers, CreateError,
  materialize,
}

pub record Schedule : Type 0 where
  pub id : ℕ
  pub organization_id : ℕ
  pub workflow_node_id : ℕ
  pub next_run_at : ℕ

pub record DueSchedule : Type 0 where
  pub schedule : Schedule
  pub workflow_public_id : String
  pub cron : String

pub data DispatchError : Type 0 where
  invalid_config bad_date : DispatchError
  creation : (error : CreateError) → DispatchError

pub record Timetable (V C : Type 0) : Type 0 where
  pub db : Database V C
  pub schedules : List Schedule

-- `cron_of` is `ScheduleTriggerConfig.model_validate(config).cron` and `get_next` croniter's, with
-- `none` where they raise; `isoformat` renders a moment into the payload.
pub record Clockwork (V C : Type 0) : Type 0 where
  pub cron_of : C → Option String
  pub get_next : String → ℕ → Option ℕ
  pub isoformat : ℕ → V

abbrev pub has_schedule_id : ℕ → Schedule → Bool
has_schedule_id id row = eqb row.id id

abbrev pub active_in : WorkflowVersion → Workflow → Bool
active_in version workflow = elim workflow.active_version_id [
  | none ↦ false
  | some active ↦ eqb active version.id && not (is_some workflow.deleted_at)
]

module _ {C : Type 0} where
  -- The joins of `claim_due`, with the conditions on the joined rows.
  unfoldable pub published_by : Catalogue C → Schedule → Option (Workflow × WorkflowNode C)
  published_by catalogue schedule =
      elim (find_row (λ (n : WorkflowNode C). eqb n.id schedule.workflow_node_id) catalogue.nodes) [
        | none ↦ none
        | some node ↦ elim (find_row (λ v. eqb v.id node.workflow_version_id) catalogue.versions) [
          | none ↦ none
          | some version ↦ elim (find_row (λ w. eqb w.id version.workflow_id) catalogue.workflows) [
            | none ↦ none
            | some workflow ↦ if active_in version workflow then some (workflow, node) else none
          ]
        ]
      ]

  -- Whether the claim's statement selects a row: due, published and not locked.
  unfoldable pub fires : Catalogue C → (ℕ → Bool) → ℕ → Schedule → Bool
  fires catalogue held now schedule = elim (published_by catalogue schedule) [
    | none ↦ false
    | some _ ↦ leb schedule.next_run_at now && not (held schedule.id)
  ]

-- `is not None`, or the except clause.
abbrev pub has_fired : {A : Type 0} → Result DispatchError (Option A) → Bool
has_fired (raise _) = false
has_fired (ok none) = false
has_fired (ok (some _)) = true

abbrev pub one_more : {A : Type 0} → Option (ℕ × A) → Option (ℕ × A)
one_more none = none
one_more (some (n, after)) = some (suc n, after)

-- The payload of a scheduled run.
abbrev pub occurrence_payload : {V C : Type 0} → Clockwork V C → DueSchedule → Dict V
occurrence_payload clockwork due =
    ("scheduled_for", clockwork.isoformat due.schedule.next_run_at) ∷ []

-- `due.schedule.next_run_at = ...`
abbrev pub advance_to : ℕ → DueSchedule → List Schedule → List Schedule
advance_to next due schedules =
    update_rows (has_schedule_id due.schedule.id) (λ row. record row { next_run_at = next })
      schedules

module _ {V C : Type 0} (clockwork : Clockwork V C) (ids : Identifiers) (held : ℕ → Bool) where
  -- `claim_due`, on the schedules in the order of the scan.
  unfoldable pub claim_due : ℕ → Timetable V C → Result DispatchError (Option DueSchedule)
  claim_due now state = elim (find_row (fires state.db.catalogue held now) state.schedules) [
    | none ↦ ok none
    | some schedule ↦ elim (published_by state.db.catalogue schedule) [
      | none ↦ ok none
      | some (workflow, node) ↦ elim (clockwork.cron_of node.config) [
        | none ↦ raise invalid_config
        | some cron ↦ ok (
            some (record {
              schedule = schedule;
              workflow_public_id = workflow.public_id;
              cron = cron;
            }))
      ]
    ]
  ]

  -- The body of `dispatch_one` after the claim: `create_scheduled_run` is `materialize` in the
  -- caller's transaction, and the commit ends it.
  unfoldable pub fire :
      ℕ → DueSchedule → Timetable V C → Timetable V C × Result DispatchError (Option (RunRow V))
  fire now due state = elim (clockwork.get_next due.cron now) [
    | none ↦ (state, raise bad_date)
    | some next ↦
        elim (materialize ids now due.workflow_public_id due.schedule.organization_id
          (some (occurrence_payload clockwork due)) state.db) [
            | raise e ↦ (state, raise (creation e))
            | ok (run, db) ↦
                (record { db = db; schedules = advance_to next due state.schedules }, ok (some run))
          ]
  ]

  unfoldable pub dispatch_one :
      ℕ → Timetable V C → Timetable V C × Result DispatchError (Option (RunRow V))
  dispatch_one now state = elim (claim_due now state) [
    | raise e ↦ (state, raise e)
    | ok none ↦ (state, ok none)
    | ok (some due) ↦ fire now due state
  ]

  -- `_dispatch_once`: a failure is logged and counts as nothing to do.
  unfoldable pub dispatch_once : ℕ → Timetable V C → Timetable V C × Bool
  dispatch_once now state = let outcome = dispatch_one now state in (outcome.0, has_fired outcome.1)

  -- The rounds of `run` up to the first idle wait, at one moment: how many fired, and the state.
  -- `none` is fuel that ran out.
  unfoldable pub drain : (fuel : ℕ) → ℕ → Timetable V C → Option (ℕ × Timetable V C)
  drain zero now state = none
  drain (suc fuel) now state =
      let outcome = dispatch_once now state in
      let rest = drain fuel now outcome.0 in
      if outcome.1 then one_more rest else some (0, outcome.0)

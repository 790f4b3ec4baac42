-- ===== src/Runs/Creation.antt =====
-- Creating a run: `_materialize` and `_create` of src/app/services/run_service.py, over the tables
-- that they read and write. A public identifier is what the mixin generates, here a function of the
-- next value of AUTO_INCREMENT. A transaction that raises is rolled back.
use orqent.Base.{
  ℕ, ◌+◌, String, List, [], ◌∷◌, ◌++◌, map, Option, none, some, Bool, true, false, not, ◌&&◌, ◌==◌,
  if◌then◌else◌, eqb, filter, any, length, is_some, Dict, find_row, Result, ok, raise,
}
use orqent.Engine.State.{RunStatus, NodeExecutionStatus, RunEventType}
use orqent.Runs.Store.{Run, Execution, RunEvent, Payload, max_seq}
use orqent.Queue.{Table}
use orqent.Queue

pub data VersionStatus : Type 0 where
  draft published archived : VersionStatus

pub record Workflow : Type 0 where
  pub id : ℕ
  pub public_id : String
  pub organization_id : ℕ
  pub active_version_id : Option ℕ
  pub deleted_at : Option ℕ

pub record WorkflowVersion : Type 0 where
  pub id : ℕ
  pub workflow_id : ℕ
  pub status : VersionStatus

pub record WorkflowNode (C : Type 0) : Type 0 where
  pub id : ℕ
  pub workflow_version_id : ℕ
  pub node_key : String
  pub config : C

-- The rows of `runs`, `node_executions` and `run_events`: what one run's store keeps of them, and
-- the columns that say whose they are.
pub record RunRow (V : Type 0) : Type 0 where
  pub public_id : String
  pub organization_id : ℕ
  pub workflow_id : ℕ
  pub workflow_version_id : ℕ
  pub run : Run V

pub record ExecutionRow (V : Type 0) : Type 0 where
  pub organization_id : ℕ
  pub run_id : ℕ
  pub execution : Execution V

pub record EventRow : Type 0 where
  pub organization_id : ℕ
  pub run_id : ℕ
  pub event : RunEvent

-- What publishing writes and creating a run only reads.
pub record Catalogue (C : Type 0) : Type 0 where
  pub workflows : List Workflow
  pub versions : List WorkflowVersion
  pub nodes : List (WorkflowNode C)

pub record Database (V C : Type 0) : Type 0 where
  pub catalogue : Catalogue C
  pub runs : List (RunRow V)
  pub next_run_id : ℕ
  pub executions : List (ExecutionRow V)
  pub next_execution_id : ℕ
  pub events : List EventRow
  pub queue : Table

pub data CreateError : Type 0 where
  not_found conflict integrity_error : CreateError

pub record Identifiers : Type 0 where
  pub run : ℕ → String
  pub task : ℕ → String

abbrev pub is_published : VersionStatus → Bool
is_published VersionStatus.published = true
is_published _ = false

abbrev pub named : String → ℕ → Workflow → Bool
named public_id organization_id row =
    row.public_id == public_id
    && eqb row.organization_id organization_id
    && not (is_some row.deleted_at)

-- `RunEventRepository.next_seq`, and the event of `_materialize`.
abbrev pub events_of : ℕ → List EventRow → List RunEvent
events_of run_id rows = map (λ (r : EventRow). r.event) (filter (λ r. eqb r.run_id run_id) rows)

abbrev pub first_event : ℕ → ℕ → List EventRow → EventRow
first_event organization_id run_id rows = record {
  organization_id = organization_id;
  run_id = run_id;
  event = record {
    seq = max_seq (events_of run_id rows) + 1;
    event_type = RunEventType.run_started;
    payload = Payload.no_payload;
  };
}

module _ {V : Type 0} where
  abbrev pub new_run : ℕ → Option (Dict V) → Run V
  new_run id trigger_payload = record {
    id = id;
    status = RunStatus.pending;
    trigger_payload = trigger_payload;
    started_at = none;
    finished_at = none;
  }

  abbrev pub new_execution : ℕ → ℕ → Execution V
  new_execution id workflow_node_id = record {
    id = id;
    workflow_node_id = workflow_node_id;
    status = NodeExecutionStatus.pending;
    attempt = 1;
    output = none;
    error = none;
    resume_token = none;
    started_at = none;
    finished_at = none;
  }

  -- `uow.runs.add`: the row, unless its public identifier is taken.
  unfoldable pub add_run : RunRow V → List (RunRow V) → Result CreateError (List (RunRow V))
  add_run row rows =
      if any (λ r. r.public_id == row.public_id) rows
      then raise integrity_error
      else ok (rows ++ row ∷ [])

module _ {C : Type 0} where
  -- `_workflow`
  unfoldable pub workflow_of : ℕ → String → Catalogue C → Result CreateError Workflow
  workflow_of organization_id public_id catalogue =
      elim (find_row (named public_id organization_id) catalogue.workflows) [
        | none ↦ raise not_found
        | some workflow ↦ ok workflow
      ]

  -- `_published_version`
  unfoldable pub published_version : Workflow → Catalogue C → Result CreateError WorkflowVersion
  published_version workflow catalogue = elim workflow.active_version_id [
    | none ↦ raise conflict
    | some active ↦ elim (find_row (λ row. eqb row.id active) catalogue.versions) [
      | none ↦ raise conflict
      | some version ↦ if is_published version.status then ok version else raise conflict
    ]
  ]

  -- `list_nodes`, on a table in the order of its ids.
  abbrev pub list_nodes : ℕ → Catalogue C → List (WorkflowNode C)
  list_nodes version_id catalogue =
      filter (λ node. eqb node.workflow_version_id version_id) catalogue.nodes

  module _ {V : Type 0} where
    -- One row for each node, with ids counted up from the first.
    unfoldable pub execution_rows :
        (organization_id run_id first_id : ℕ) → List (WorkflowNode C) → List (ExecutionRow V)
    execution_rows organization_id run_id first_id [] = []
    execution_rows organization_id run_id first_id (node ∷ nodes) =
        record {
          organization_id = organization_id;
          run_id = run_id;
          execution = new_execution first_id node.id;
        }
        ∷ execution_rows organization_id run_id (first_id + 1) nodes

    -- The writes of `_materialize` once the run's row is in.
    unfoldable pub furnish :
        Identifiers → ℕ → RunRow V → List (RunRow V) → Database V C → Database V C
    furnish ids moment row rows db =
        let nodes = list_nodes row.workflow_version_id db.catalogue in
        record db {
          runs = rows;
          next_run_id = db.next_run_id + 1;
          executions =
              db.executions
              ++ execution_rows row.organization_id row.run.id db.next_execution_id nodes;
          next_execution_id = db.next_execution_id + length nodes;
          events = db.events ++ first_event row.organization_id row.run.id db.events ∷ [];
          queue =
              Queue.enqueue (ids.task db.queue.next_id) row.run.id row.organization_id moment
                db.queue;
        }

    abbrev pub run_row :
        Identifiers → Workflow → WorkflowVersion → ℕ → Option (Dict V) → Database V C → RunRow V
    run_row ids workflow version organization_id trigger_payload db = record {
      public_id = ids.run db.next_run_id;
      organization_id = organization_id;
      workflow_id = workflow.id;
      workflow_version_id = version.id;
      run = new_run db.next_run_id trigger_payload;
    }

    unfoldable pub insert_run :
        Identifiers → ℕ → RunRow V → Database V C → Result CreateError (RunRow V × Database V C)
    insert_run ids moment row db = elim (add_run row db.runs) [
      | raise e ↦ raise e
      | ok rows ↦ ok (row, furnish ids moment row rows db)
    ]

    -- `_materialize`; `moment` is what the clock gives for the task's `run_after`.
    unfoldable pub materialize :
        Identifiers
        → ℕ
        → String
        → ℕ
        → Option (Dict V)
        → Database V C
        → Result CreateError (RunRow V × Database V C)
    materialize ids moment workflow_public_id organization_id trigger_payload db =
        elim (workflow_of organization_id workflow_public_id db.catalogue) [
          | raise e ↦ raise e
          | ok workflow ↦ elim (published_version workflow db.catalogue) [
            | raise e ↦ raise e
            | ok version ↦
                insert_run ids moment
                  (run_row ids workflow version organization_id trigger_payload db) db
          ]
        ]

    -- `_create` for the tenant of a trigger's registration: `create_triggered_run`.
    unfoldable pub create_triggered_run :
        Identifiers
        → ℕ
        → String
        → ℕ
        → Option (Dict V)
        → Database V C
        → Database V C × Result CreateError (RunRow V)
    create_triggered_run ids moment workflow_public_id organization_id trigger_payload db =
        elim (materialize ids moment workflow_public_id organization_id trigger_payload db) [
          | raise e ↦ (db, raise e)
          | ok (row, after) ↦ (after, ok row)
        ]

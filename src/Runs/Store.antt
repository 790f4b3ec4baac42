-- ===== src/Runs/Store.antt =====
-- The rows that belong to one run: `runs`, `node_executions`, `run_events` and `queue_tasks`
-- (src/app/infrastructure/db/models), and the writes of run_event_repository.py and
-- queue_task_repository.py. The clock is a number that moves on with every write of a row.
use orqent.Base.{
  ℕ, ◌+◌, String, List, [], ◌∷◌, ◌++◌, map, Option, none, some, Bool, true, false, max,
  if◌then◌else◌, any, Dict, lookup, insert, Result, ok, raise,
}
use orqent.Graph.Model.{WorkflowGraph}
use orqent.Engine.State.{RunStatus, NodeExecutionStatus, RunEventType, EngineError, key_error}
use orqent.Engine.Snapshot.{NodeExecutionSnapshot, RunSnapshot}

pub record Execution (V : Type 0) : Type 0 where
  pub id : ℕ
  pub workflow_node_id : ℕ
  pub status : NodeExecutionStatus
  pub attempt : ℕ
  pub output : Option (Dict V)
  pub error : Option String
  pub resume_token : Option String
  pub started_at : Option ℕ
  pub finished_at : Option ℕ

pub record Run (V : Type 0) : Type 0 where
  pub id : ℕ
  pub status : RunStatus
  pub trigger_payload : Option (Dict V)
  pub started_at : Option ℕ
  pub finished_at : Option ℕ

pub data Payload : Type 0 where
  no_payload : Payload
  about : (node_key : String) → Payload
  failure : (node_key error : String) (retryable : Bool) → Payload
  parked : (node_key : String) (hint : Option String) → Payload

pub record RunEvent : Type 0 where
  pub seq : ℕ
  pub event_type : RunEventType
  pub payload : Payload

pub data TaskStatus : Type 0 where
  queued leased done : TaskStatus

-- `foreign_tokens` are the resume tokens that the executions of other runs hold, and `same_token` says
-- which tokens the database takes for equal: its collation, not the text alone, decides that.
pub record Store (V : Type 0) : Type 0 where
  pub graph : WorkflowGraph V
  pub organization_public_id : String
  pub run : Run V
  pub executions : Dict (Execution V)
  pub events : List RunEvent
  pub tasks : List TaskStatus
  pub foreign_tokens : List String
  pub same_token : String → String → Bool
  pub clock : ℕ

abbrev pub outstanding : TaskStatus → Bool
outstanding TaskStatus.done = false
outstanding _ = true

-- `SELECT coalesce(max(seq), 0)`
unfoldable pub max_seq : List RunEvent → ℕ
max_seq [] = 0
max_seq (e ∷ es) = max e.seq (max_seq es)

module _ {V : Type 0} where
  -- `_append`, with `next_seq` and `append` of the event repository.
  unfoldable pub append : RunEventType → Payload → Store V → Store V
  append event_type payload store = record store {
    events =
        store.events
        ++ record { seq = max_seq store.events + 1; event_type = event_type; payload = payload }
          ∷ [];
  }

  -- `QueueTaskRepository.enqueue`: an outstanding task absorbs the new one.
  unfoldable pub enqueue : Store V → Store V
  enqueue store =
      if any outstanding store.tasks
      then store
      else record store { tasks = store.tasks ++ TaskStatus.queued ∷ [] }

  -- `QueueTaskRepository.finish_outstanding`
  unfoldable pub finish_outstanding : Store V → Store V
  finish_outstanding store = record store {
    tasks = map (λ t. if outstanding t then TaskStatus.done else t) store.tasks;
  }

  -- `executions[node_key]`
  unfoldable pub execution_of : String → Store V → Result EngineError (Execution V)
  execution_of node_key store = elim (lookup node_key store.executions) [
    | none ↦ raise key_error
    | some execution ↦ ok execution
  ]

  -- The row written back.
  unfoldable pub write : String → Execution V → Store V → Store V
  write node_key execution store = record store {
    executions = insert node_key execution store.executions;
    clock = store.clock + 1;
  }

  abbrev pub seen_as : Dict (Execution V) → Dict (NodeExecutionSnapshot V)
  seen_as [] = []
  seen_as ((key, e) ∷ rest) =
      (key, record { node_key = key; status = e.status; attempt = e.attempt; outputs = e.output })
      ∷ seen_as rest

  -- `_snapshot`
  unfoldable pub snapshot : Store V → RunSnapshot V
  snapshot store = record {
    status = store.run.status;
    graph = store.graph;
    node_executions = seen_as store.executions;
    trigger_payload = store.run.trigger_payload;
  }

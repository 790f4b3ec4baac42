-- ===== src/Engine/Snapshot.antt =====
-- src/app/domain/engine/snapshot.py: the persisted state that one scheduler tick may read, and
-- the decisions that it may take. `V` is the type of the values that nodes emit.
use orqent.Base.{ℕ, String, Option, Dict}
use orqent.Engine.State.{RunStatus, NodeExecutionStatus}
use orqent.Graph.Model.{WorkflowGraph}

pub record NodeExecutionSnapshot (V : Type 0) : Type 0 where
  pub node_key : String
  pub status : NodeExecutionStatus
  pub attempt : ℕ
  pub outputs : Option (Dict V)

pub record RunSnapshot (V : Type 0) : Type 0 where
  pub status : RunStatus
  pub graph : WorkflowGraph V
  pub node_executions : Dict (NodeExecutionSnapshot V)
  pub trigger_payload : Option (Dict V)

pub data SchedulerDecision : Type 0 where
  start_node : String → SchedulerDecision
  set_run_status : RunStatus → SchedulerDecision
  recover_node : String → SchedulerDecision
  skip_node : String → SchedulerDecision

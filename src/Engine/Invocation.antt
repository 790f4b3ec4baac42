-- ===== src/Engine/Invocation.antt =====
-- src/app/domain/engine/invocation.py, with the node contract of src/app/domain/nodes (result.py,
-- runner.py, and SideEffect of descriptor.py): the inputs of a node, its context, its invocation.
-- The catalogue behind the registry port and the runners are the parameter `Registry`. A runner's
-- reply may depend on the moment of the call. The idempotency key is the triple that the source
-- joins by colons.
use orqent.Base.{
  ℕ, String, List, [], ◌∷◌, Option, none, some, Bool, false, Dict, lookup, insert, Result, ok,
  raise, ◌>>=◌,
}
use orqent.Graph.Model.{GraphNode, GraphEdge, node, incoming}
use orqent.Engine.State.{
  EngineError, missing_node, unknown_node_type, bad_configuration, interrupted,
}
use orqent.Engine.Snapshot.{RunSnapshot}

pub data SideEffect : Type 0 where
  pure idempotent at_least_once at_most_once : SideEffect

pub data NodeResult (V : Type 0) : Type 0 where
  completed : (outputs : Dict V) → NodeResult V
  suspended : (resume_token : String) (hint : Option String) → NodeResult V
  failed : (error : String) (retryable : Bool) → NodeResult V

pub record IdempotencyKey : Type 0 where
  pub run_id : ℕ
  pub workflow_node_id : ℕ
  pub attempt : ℕ

pub record NodeRunContext (V : Type 0) : Type 0 where
  pub config : Dict V
  pub inputs : Dict V
  pub idempotency_key : IdempotencyKey
  pub trigger_payload : Dict V
  pub organization_public_id : String
  pub resume_token : Option String

-- What comes back from `await runner.run(context)`: a result, an `Exception`, or a
-- `BaseException` that is no `Exception`.
pub data Reply (V : Type 0) : Type 0 where
  returns : NodeResult V → Reply V
  escapes : (error : String) → Reply V
  stops : Reply V

-- `config_model` accepts stored JSON, with its defaults filled in, or refuses it.
pub record Descriptor (V : Type 0) : Type 0 where
  pub side_effect : SideEffect
  pub config_model : Dict V → Option (Dict V)

pub record Registry (V : Type 0) : Type 0 where
  pub find : (node_type : String) (version : ℕ) → Option (Descriptor V)
  pub run : (node_type : String) (version moment : ℕ) → NodeRunContext V → Reply V

module _ {V : Type 0} where
  -- One round of the loop of `resolve_inputs`.
  abbrev pub carry : RunSnapshot V → GraphEdge → Dict V → Dict V
  carry snapshot edge inputs = elim (lookup edge.source_key snapshot.node_executions) [
    | none ↦ inputs
    | some upstream ↦ elim upstream.outputs [
      | none ↦ inputs
      | some outputs ↦ elim (lookup edge.source_handle outputs) [
        | none ↦ inputs
        | some value ↦ insert edge.target_handle value inputs
      ]
    ]
  ]

  unfoldable pub resolve_from : RunSnapshot V → List GraphEdge → Dict V → Dict V
  resolve_from snapshot [] inputs = inputs
  resolve_from snapshot (edge ∷ edges) inputs =
      resolve_from snapshot edges (carry snapshot edge inputs)

  unfoldable pub resolve_inputs : RunSnapshot V → String → Dict V
  resolve_inputs snapshot node_key = resolve_from snapshot (incoming snapshot.graph node_key) []

  -- `registry.get`, which raises where `find` has nothing.
  abbrev pub get : Registry V → GraphNode V → Result EngineError (Descriptor V)
  get registry n = elim (registry.find n.node_type n.version) [
    | none ↦ raise (unknown_node_type n.key)
    | some descriptor ↦ ok descriptor
  ]

  abbrev pub find_node : RunSnapshot V → String → Result EngineError (GraphNode V)
  find_node snapshot node_key = elim (node snapshot.graph node_key) [
    | none ↦ raise (missing_node node_key)
    | some n ↦ ok n
  ]

  abbrev pub configured : GraphNode V → Descriptor V → Result EngineError (Dict V)
  configured n descriptor = elim (descriptor.config_model n.config) [
    | none ↦ raise (bad_configuration n.key)
    | some config ↦ ok config
  ]

  abbrev pub payload_of : Option (Dict V) → Dict V
  payload_of none = []
  payload_of (some payload) = payload

  unfoldable pub build_context :
      RunSnapshot V
      → Registry V
      → String
      → IdempotencyKey
      → (organization_public_id : String) → (resume_token : Option String)
      → Result EngineError (NodeRunContext V)
  build_context snapshot registry node_key key organization token = do
    n ← find_node snapshot node_key
    descriptor ← get registry n
    config ← configured n descriptor
    ok (record {
      config = config;
      inputs = resolve_inputs snapshot node_key;
      idempotency_key = key;
      trigger_payload = payload_of snapshot.trigger_payload;
      organization_public_id = organization;
      resume_token = token;
    })

  abbrev pub outcome_of : String → Reply V → Result EngineError (NodeResult V)
  outcome_of node_key (returns result) = ok result
  outcome_of node_key (escapes error) = ok (failed error false)
  outcome_of node_key stops = raise (interrupted node_key)

  unfoldable pub invoke :
      RunSnapshot V
      → Registry V
      → String
      → (moment : ℕ) → NodeRunContext V
      → Result EngineError (NodeResult V)
  invoke snapshot registry node_key moment context = do
    n ← find_node snapshot node_key
    descriptor ← get registry n
    outcome_of node_key (registry.run n.node_type n.version moment context)

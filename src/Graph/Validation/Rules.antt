-- ===== src/Graph/Validation/Rules.antt =====
-- Which graphs may be published, stated of the nodes, the edges and the catalogue alone.
use orqent.Base.{ℕ, String, List, [], Option, none, some, Bool, true, false, filter, All, In, ◌≡◌}
use orqent.Graph.Model.{GraphNode, GraphEdge}
use orqent.Graph.Model.Edges.{arrives}
use orqent.Graph.Handles.{compatible}
use orqent.Graph.Cycles.Joins.{Trail}
use orqent.Graph.Validation.{InputHandle, OutputHandle, Declaration, output_of, input_of}
use orqent.Graph.Validation.Clean.{Fed}

module _ {V : Type 0} (find : String → ℕ → Option (Declaration V)) (nodes : List (GraphNode V))
    (edges : List GraphEdge) where
  -- The node of a key, and what the catalogue declares of its type.
  pub record Resolved (key : String) : Type 0 where
    pub node : GraphNode V
    pub listed : In node nodes
    pub keyed : node.key ≡ key
    pub declaration : Declaration V
    pub declared : find node.node_type node.version ≡ some declaration

  -- An edge joins a declared output to a declared input that accepts what it carries.
  pub record Drawn (edge : GraphEdge) : Type 0 where
    pub source : Resolved edge.source_key
    pub target : Resolved edge.target_key
    pub output : OutputHandle
    pub input : InputHandle
    pub leaves_by : output_of source.declaration edge.source_handle ≡ some output
    pub enters_by : input_of target.declaration edge.target_handle ≡ some input
    pub flows : compatible output.type input.type ≡ true

  -- A node of a known type with an accepted configuration, each input with the right number of edges.
  pub record Complete (node : GraphNode V) : Type 0 where
    pub declaration : Declaration V
    pub declared : find node.node_type node.version ≡ some declaration
    pub configured : declaration.config_errors node.config ≡ []
    pub fed : All (Fed (filter (arrives node.key) edges)) declaration.inputs

  abbrev pub starts : GraphNode V → Bool
  starts node = elim (find node.node_type node.version) [ none ↦ false | some d ↦ d.is_trigger ]

  pub record Publishable : Type 0 where
    pub complete : (n : GraphNode V) → In n nodes → Complete n
    pub drawn : (e : GraphEdge) → In e edges → Drawn e
    pub acyclic : (x : String) → ¬ Trail edges x x
    pub trigger : GraphNode V
    pub listed : In trigger nodes
    pub starting : starts trigger ≡ true
    pub alone : (n : GraphNode V) → In n nodes → starts n ≡ true → n ≡ trigger
    pub unentered : filter (arrives trigger.key) edges ≡ []

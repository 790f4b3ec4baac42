-- ===== src/Graph/Validation.antt =====
-- src/app/domain/graph/validation: the four stages and what blocks publishing; handles of nodes from
-- src/app/domain/nodes/handles.py and src/app/domain/nodes/descriptor.py.
-- The catalogue of node types is a parameter: what it declares of a type and a version, and where
-- that type's model refuses a configuration (Pydantic's errors by location). A cycle search or a
-- traversal that does not end is an error of `validate_graph`, and so is an empty cycle.
pub mod Clean
pub mod Resolution
pub mod Nodes
pub mod Rules
pub mod Publishable
pub mod Report
use orqent.Base.{
  ℕ, suc, String, List, [], ◌∷◌, ◌++◌, map, Option, none, some, Bool, true, false, not, ◌&&◌, ◌||◌,
  ◌==◌, if◌then◌else◌, ltb, eqb, length, filter, any, is_nil, is_some, has, mem, Dict, lookup,
  insert, Result, ok, raise, ◌>>=◌, find_row,
}
use orqent.Graph.Model.{GraphNode, GraphEdge, WorkflowGraph, incoming}
use orqent.Graph.Handles.{HandleType, compatible}
use orqent.Graph.Issues.{Severity, IssueCode, ValidationIssue, is_error, at_node, at_edge, sorted}
use orqent.Graph.Cycles.{SearchError, find_cycles}
use orqent.Graph.Reach.{reachable_from}

pub data Arity : Type 0 where
  single many : Arity

pub record InputHandle : Type 0 where
  pub name : String
  pub type : HandleType
  pub arity : Arity
  pub required : Bool

pub record OutputHandle : Type 0 where
  pub name : String
  pub type : HandleType

-- `NodeDescriptor`, as far as validation reads it.
pub record Declaration (V : Type 0) : Type 0 where
  pub is_trigger : Bool
  pub deprecated : Bool
  pub inputs : List InputHandle
  pub outputs : List OutputHandle
  pub config_errors : Dict V → List (List String)

abbrev pub is_single : Arity → Bool
is_single single = true
is_single many = false

-- `_translate`
abbrev pub translate : String → List String → ValidationIssue
translate key location = record {
  code = IssueCode.invalid_config;
  severity = Severity.error;
  node_key = some key;
  edge = none;
  field = some ("nodes" ∷ key ∷ "config" ∷ location);
}

module _ {V : Type 0} where
  -- `_resolve`
  unfoldable pub resolve :
      (String → ℕ → Option (Declaration V))
      → Dict (Declaration V)
      → List ValidationIssue
      → List (GraphNode V)
      → Dict (Declaration V) × List ValidationIssue
  resolve find descriptors issues [] = (descriptors, issues)
  resolve find descriptors issues (node ∷ nodes) = elim (find node.node_type node.version) [
    | none ↦
        resolve find descriptors
          (issues ++ at_node IssueCode.unknown_node_type Severity.error node.key ∷ []) nodes
    | some d ↦
        resolve find (insert node.key d descriptors)
          (if d.deprecated
            then issues ++ at_node IssueCode.deprecated_node_type Severity.warning node.key ∷ []
            else issues)
          nodes
  ]

  -- `descriptor.output(name)` and `descriptor.input(name)`
  abbrev pub output_of : Declaration V → String → Option OutputHandle
  output_of d name = find_row (λ (h : OutputHandle). h.name == name) d.outputs

  abbrev pub input_of : Declaration V → String → Option InputHandle
  input_of d name = find_row (λ (h : InputHandle). h.name == name) d.inputs

  module _ (descriptors : Dict (Declaration V)) where
    abbrev pub config_of : GraphNode V → List ValidationIssue
    config_of node = elim (lookup node.key descriptors) [
      | none ↦ []
      | some d ↦ map (translate node.key) (d.config_errors node.config)
    ]

    -- `validate_config`
    unfoldable pub validate_config : List (GraphNode V) → List ValidationIssue
    validate_config [] = []
    validate_config (node ∷ nodes) = config_of node ++ validate_config nodes

    abbrev pub unknown_output : GraphEdge → List ValidationIssue
    unknown_output edge = elim (lookup edge.source_key descriptors) [
      | none ↦ []
      | some d ↦ elim (output_of d edge.source_handle) [
        | none ↦ at_edge IssueCode.unknown_handle edge.source_key edge ∷ []
        | some _ ↦ []
      ]
    ]

    abbrev pub unknown_input : GraphEdge → List ValidationIssue
    unknown_input edge = elim (lookup edge.target_key descriptors) [
      | none ↦ []
      | some d ↦ elim (input_of d edge.target_handle) [
        | none ↦ at_edge IssueCode.unknown_handle edge.target_key edge ∷ []
        | some _ ↦ []
      ]
    ]

    abbrev pub source_of : GraphEdge → Option OutputHandle
    source_of edge = elim (lookup edge.source_key descriptors) [
      | none ↦ none
      | some d ↦ output_of d edge.source_handle
    ]

    abbrev pub target_of : GraphEdge → Option InputHandle
    target_of edge = elim (lookup edge.target_key descriptors) [
      | none ↦ none
      | some d ↦ input_of d edge.target_handle
    ]

    abbrev pub incompatible : GraphEdge → List ValidationIssue
    incompatible edge = elim (source_of edge) [
      | none ↦ []
      | some source ↦ elim (target_of edge) [
        | none ↦ []
        | some target ↦
            if compatible source.type target.type
            then []
            else at_edge IssueCode.incompatible_types edge.target_key edge ∷ []
      ]
    ]

    -- `_check_edge` and the first loop of `validate_handles`
    unfoldable pub check_edges : List GraphEdge → List ValidationIssue
    check_edges [] = []
    check_edges (edge ∷ edges) =
        (unknown_output edge ++ (unknown_input edge ++ incompatible edge)) ++ check_edges edges

-- `Counter(edge.target_handle for edge in ...)[name]`
abbrev pub connections : String → List GraphEdge → ℕ
connections name edges = length (filter (λ (e : GraphEdge). e.target_handle == name) edges)

-- The loop of `_check_inputs`.
unfoldable pub check_inputs : String → List GraphEdge → List InputHandle → List ValidationIssue
check_inputs key edges [] = []
check_inputs key edges (handle ∷ handles) =
    let count = connections handle.name edges in
    ((if is_single handle.arity && ltb 1 count
        then at_node IssueCode.arity_violation Severity.error key ∷ []
        else [])
      ++ (if handle.required && eqb count 0
          then at_node IssueCode.required_input_missing Severity.error key ∷ []
          else []))
    ++ check_inputs key edges handles

-- `_check_cycles`: `cycle[0]` is the anchor.
unfoldable pub check_cycles : List (List String) → Result SearchError (List ValidationIssue)
check_cycles [] = ok []
check_cycles ([] ∷ cycles) = raise SearchError.index_error
check_cycles ((key ∷ _) ∷ cycles) = check_cycles cycles >>= λ issues.
    ok (at_node IssueCode.cycle_detected Severity.error key ∷ issues)

module _ {V : Type 0} (graph : WorkflowGraph V) where
  -- The last loop of `_check_triggers`.
  unfoldable pub triggers_entered : List String → List ValidationIssue
  unfolding incoming
  triggers_entered [] = []
  triggers_entered (key ∷ keys) =
      (if is_nil (incoming graph key)
        then []
        else at_node IssueCode.trigger_has_input Severity.error key ∷ [])
      ++ triggers_entered keys

  -- `_check_triggers`
  unfoldable pub check_triggers : List String → List ValidationIssue
  unfolding triggers_entered
  check_triggers [] =
      record {
        code = IssueCode.no_trigger;
        severity = Severity.error;
        node_key = none;
        edge = none;
        field = none;
      }
      ∷ []
  check_triggers (key ∷ []) = triggers_entered (key ∷ [])
  check_triggers (key ∷ next ∷ keys) =
      map (at_node IssueCode.multiple_triggers Severity.error) (key ∷ next ∷ keys)
      ++ triggers_entered (key ∷ next ∷ keys)

  module _ (descriptors : Dict (Declaration V)) where
    -- The second loop of `validate_handles`.
    unfoldable pub check_nodes : List (GraphNode V) → List ValidationIssue
    unfolding check_inputs incoming
    check_nodes [] = []
    check_nodes (node ∷ nodes) =
        elim (lookup node.key descriptors) [
          | none ↦ []
          | some d ↦ check_inputs node.key (incoming graph node.key) d.inputs
        ]
        ++ check_nodes nodes

    unfoldable pub validate_handles : List ValidationIssue
    unfolding check_edges check_nodes
    validate_handles = check_edges descriptors graph.edges ++ check_nodes graph.nodes

    abbrev pub starts_run : GraphNode V → Bool
    starts_run node = elim (lookup node.key descriptors) [ none ↦ false | some d ↦ d.is_trigger ]

    -- `_trigger_keys`
    unfoldable pub trigger_keys : List (GraphNode V) → List String
    trigger_keys nodes = map (λ (n : GraphNode V). n.key) (filter starts_run nodes)

    abbrev pub is_stray : List String → GraphNode V → Bool
    is_stray reached node = not (mem node.key reached) && has node.key descriptors

    abbrev pub stray : GraphNode V → ValidationIssue
    stray node = at_node IssueCode.unreachable_node Severity.warning node.key

    -- `_check_reachability`
    unfoldable pub check_reachability : List String → Result SearchError (List ValidationIssue)
    unfolding reachable_from
    check_reachability [] = ok []
    check_reachability (key ∷ keys) = elim (reachable_from graph (key ∷ keys)) [
      | none ↦ raise SearchError.out_of_fuel
      | some reached ↦ ok (map stray (filter (is_stray reached) graph.nodes))
    ]

    unfoldable pub validate_structure : Result SearchError (List ValidationIssue)
    unfolding find_cycles check_cycles trigger_keys check_triggers check_reachability
    validate_structure = do
      cycles ← find_cycles graph
      loops ← check_cycles cycles
      unreached ← check_reachability (trigger_keys graph.nodes)
      ok (loops ++ (check_triggers (trigger_keys graph.nodes) ++ unreached))

  -- `validate_graph`: the issues of the report.
  unfoldable pub validate_graph :
      (String → ℕ → Option (Declaration V)) → Result SearchError (List ValidationIssue)
  unfolding resolve validate_config validate_handles validate_structure sorted
  validate_graph find =
      let (descriptors, unresolved) = resolve find [] [] graph.nodes in
      validate_structure descriptors >>= λ shape. ok (
        sorted (
          unresolved
          ++ (validate_config descriptors graph.nodes ++ (validate_handles descriptors ++ shape))))

-- `ValidationReport.is_valid`
abbrev pub is_valid : List ValidationIssue → Bool
is_valid issues = not (any is_error issues)

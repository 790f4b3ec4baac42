-- ===== src/Graph/Validation/Clean.antt =====
-- What makes each stage report an error, item by item; warnings count for nothing.
use orqent.Base.{
  ◌≤◌, ◌<◌, String, List, [], ◌∷◌, ◌++◌, map, none, some, Bool, true, false, ◌&&◌, ◌||◌,
  if◌then◌else◌, ltb, eqb, filter, any, is_nil, Dict, lookup, All, ok, ◌≡◌, ◌↔◌, refl, ap, ◌∙◌,
  arith, inl, inr, Bool-cases, Option-cases, List-cases,
}
use orqent.Graph.Model.{GraphNode, GraphEdge, WorkflowGraph, workflow_graph, incoming}
use orqent.Graph.Handles.{compatible}
use orqent.Graph.Issues.{
  Severity, IssueCode, ValidationIssue, is_error, at_node, key_lt, put, sorted,
}
use orqent.Graph.Validation.{
  InputHandle, OutputHandle, Declaration, is_single, translate, config_of, validate_config,
  output_of, input_of, unknown_output, unknown_input, incompatible, check_edges, connections,
  check_inputs, check_cycles, triggers_entered, check_triggers, check_nodes, check_reachability,
  stray, is_stray,
}
use orqent.Graph.Reach.Complete.{reachable_from_lem}

abbrev pub blocks : List ValidationIssue → Bool
blocks issues = any is_error issues

pub blocks-append : (xs ys : List ValidationIssue) → blocks (xs ++ ys) ≡ (blocks xs || blocks ys)
blocks-append [] ys = refl
blocks-append (x ∷ xs) ys = ground (arith, blocks-append xs ys)

blocks-put :
    (issue : ValidationIssue) (issues : List ValidationIssue)
    → blocks (put issue issues) ≡ blocks (issue ∷ issues)
unfolding put
blocks-put issue [] = refl
blocks-put issue (first ∷ issues) = elim (Bool-cases (key_lt first issue)) [
  | inl e ↦ rw (e, blocks-put issue issues) (ground arith)
  | inr e ↦ rw e refl
]

pub blocks-sorted : (issues : List ValidationIssue) → blocks (sorted issues) ≡ blocks issues
unfolding sorted
blocks-sorted [] = refl
blocks-sorted (issue ∷ issues) =
    blocks-put issue (sorted issues) ∙ ap (λ b. is_error issue || b) (blocks-sorted issues)

-- The number of connections is right for the handle.
abbrev pub Fed : List GraphEdge → InputHandle → Type 0
Fed edges handle =
    (is_single handle.arity ≡ true → connections handle.name edges ≤ 1)
    × (handle.required ≡ true → 0 < connections handle.name edges)

abbrev handle_issues : String → List GraphEdge → InputHandle → List ValidationIssue
handle_issues key edges handle =
    (if is_single handle.arity && ltb 1 (connections handle.name edges)
      then at_node IssueCode.arity_violation Severity.error key ∷ []
      else [])
    ++ (if handle.required && eqb (connections handle.name edges) 0
        then at_node IssueCode.required_input_missing Severity.error key ∷ []
        else [])

handle_issues-Fed :
    (key : String) (edges : List GraphEdge) (handle : InputHandle)
    → (blocks (handle_issues key edges handle) ≡ false) ↔ Fed edges handle
handle_issues-Fed key edges handle = (
  λ clear. (λ one. ground arith, λ needed. ground arith),
  λ fed.
      let (one, needed) = fed in
      elim (Bool-cases (is_single handle.arity)) [
        | inl s ↦ elim (Bool-cases handle.required) [
          | inl r ↦ let few = one s in let some_there = needed r in ground arith
          | inr r ↦ let few = one s in ground arith
        ]
        | inr s ↦ elim (Bool-cases handle.required) [
          | inl r ↦ let some_there = needed r in ground arith
          | inr r ↦ ground arith
        ]
      ],
)

pub check_inputs-Fed :
    (key : String) (edges : List GraphEdge) (handles : List InputHandle)
    → (blocks (check_inputs key edges handles) ≡ false) ↔ All (Fed edges) handles
unfolding check_inputs
check_inputs-Fed key edges [] = (λ _. tt, λ _. refl)
check_inputs-Fed key edges (handle ∷ handles) =
    let parts = blocks-append (handle_issues key edges handle) (check_inputs key edges handles) in
    let (here, here_back) = handle_issues-Fed key edges handle in
    let (later, later_back) = check_inputs-Fed key edges handles in
    (
      λ clear. (here (ground arith), later (ground arith)),
      λ fed. parts ∙ rw (here_back fed.0, later_back fed.1) refl,
    )

module _ {V : Type 0} (descriptors : Dict (Declaration V)) where
  pub blocks-translate :
      (key : String) (locations : List (List String))
      → (blocks (map (translate key) locations) ≡ false) ↔ (locations ≡ [])
  blocks-translate key [] = (λ _. refl, λ _. refl)
  blocks-translate key (location ∷ locations) = (λ h. cc, λ h. cc)

  pub blocks-validate_config :
      (nodes : List (GraphNode V))
      → blocks (validate_config descriptors nodes)
        ≡ any (λ (n : GraphNode V). blocks (config_of descriptors n)) nodes
  unfolding validate_config
  blocks-validate_config [] = refl
  blocks-validate_config (node ∷ nodes) =
      blocks-append (config_of descriptors node) (validate_config descriptors nodes)
      ∙ ap (λ b. blocks (config_of descriptors node) || b) (blocks-validate_config nodes)

  abbrev pub edge_issues : GraphEdge → List ValidationIssue
  edge_issues edge =
      unknown_output descriptors edge
      ++ (unknown_input descriptors edge ++ incompatible descriptors edge)

  pub blocks-check_edges :
      (edges : List GraphEdge)
      → blocks (check_edges descriptors edges)
        ≡ any (λ (e : GraphEdge). blocks (edge_issues e)) edges
  unfolding check_edges
  blocks-check_edges [] = refl
  blocks-check_edges (edge ∷ edges) =
      blocks-append (edge_issues edge) (check_edges descriptors edges)
      ∙ ap (λ b. blocks (edge_issues edge) || b) (blocks-check_edges edges)

  -- An edge between two nodes that resolved.
  pub edge_issues_lem :
      (edge : GraphEdge) (source target : Declaration V)
      → lookup edge.source_key descriptors ≡ some source
      → lookup edge.target_key descriptors ≡ some target
      → (blocks (edge_issues edge) ≡ false) ↔ (
          (output : OutputHandle) × (input : InputHandle) × (output_of source edge.source_handle
            ≡ some output)
          × (input_of target edge.target_handle ≡ some input)
          × (compatible output.type input.type ≡ true))
  edge_issues_lem edge source target s t =
      elim (Option-cases (output_of source edge.source_handle)) [
        | inl o ↦ (λ h. ground arith, λ fits. cc (fits.2))
        | inr (output, o) ↦ elim (Option-cases (input_of target edge.target_handle)) [
          | inl i ↦ (λ h. ground arith, λ fits. cc (fits.3))
          | inr (input, i) ↦ (λ h. (output, input, o, i, ground arith), λ fits. ground arith)
        ]
      ]

  module _ (graph : WorkflowGraph V) where
    abbrev pub input_issues : GraphNode V → List ValidationIssue
    input_issues node = elim (lookup node.key descriptors) [
      | none ↦ []
      | some d ↦ check_inputs node.key (incoming graph node.key) d.inputs
    ]

    pub blocks-check_nodes :
        (nodes : List (GraphNode V))
        → blocks (check_nodes graph descriptors nodes)
          ≡ any (λ (n : GraphNode V). blocks (input_issues n)) nodes
    unfolding check_nodes
    blocks-check_nodes [] = refl
    blocks-check_nodes (node ∷ nodes) =
        blocks-append (input_issues node) (check_nodes graph descriptors nodes)
        ∙ ap (λ b. blocks (input_issues node) || b) (blocks-check_nodes nodes)

-- Cycles that go around something have a first node, and each of them blocks.
pub check_cycles_lem :
    (cycles : List (List String))
    → All (λ c. is_nil c ≡ false) cycles
    → (issues : List ValidationIssue) × (check_cycles cycles ≡ ok issues)
      × ((blocks issues ≡ false) ↔ (cycles ≡ []))
unfolding check_cycles
check_cycles_lem [] h = ([], refl, (λ _. refl, λ _. refl))
check_cycles_lem ([] ∷ cycles) (here, later) = cc
check_cycles_lem ((key ∷ keys) ∷ cycles) (here, later) =
    let (issues, returned, _) = check_cycles_lem cycles later in
    (
      at_node IssueCode.cycle_detected Severity.error key ∷ issues,
      rw (returned, check_cycles) refl,
      (λ h. cc, λ h. cc),
    )

module _ {V : Type 0} (graph : WorkflowGraph V) where
  -- One trigger, which nothing enters.
  pub check_triggers_lem :
      (keys : List String)
      → (blocks (check_triggers graph keys) ≡ false)
        ↔ ((key : String) × (keys ≡ key ∷ []) × (incoming graph key ≡ []))
  unfolding check_triggers
  check_triggers_lem [] = (λ h. cc, λ one. cc (one.1))
  check_triggers_lem (key ∷ []) = elim (List-cases (incoming graph key)) [
    | inl e ↦ (λ _. (key, refl, e), λ _. rw (e, triggers_entered) refl)
    | inr (x, xs, e) ↦ (λ h. ground arith, λ (k, same, free). ground arith)
  ]
  check_triggers_lem (key ∷ next ∷ keys) = (λ h. cc, λ one. cc (one.1))

module _ {V : Type 0} (descriptors : Dict (Declaration V)) where
  blocks-stray :
      (graph : WorkflowGraph V) (nodes : List (GraphNode V))
      → blocks (map (stray graph descriptors) nodes) ≡ false
  blocks-stray graph [] = refl
  blocks-stray graph (n ∷ nodes) = blocks-stray graph nodes

  -- Nothing that is out of reach blocks.
  pub check_reachability_lem :
      (nodes : List (GraphNode V)) (edges : List GraphEdge) {graph : WorkflowGraph V}
      → workflow_graph nodes edges ≡ ok graph
      → (keys : List String)
      → (issues : List ValidationIssue) × (check_reachability graph descriptors keys ≡ ok issues)
        × (blocks issues ≡ false)
  unfolding check_reachability
  check_reachability_lem nodes edges {graph} built [] = ([], refl, refl)
  check_reachability_lem nodes edges {graph} built (key ∷ keys) =
      let (reached, found, _) = reachable_from_lem nodes edges built (key ∷ keys) in
      (
        map (stray graph descriptors) (filter (is_stray graph descriptors reached) graph.nodes),
        rw (found, check_reachability) refl,
        blocks-stray graph (filter (is_stray graph descriptors reached) graph.nodes),
      )

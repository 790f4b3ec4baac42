-- ===== src/Examples/Graphs.antt =====
-- Runs of graph validation, and its theorems at those inputs.
use orqent.Base.{
  ℕ, String, List, [], ◌∷◌, Option, none, some, true, false, ◌==◌, if◌then◌else◌, ok, ◌≡◌, ◌↔◌,
  refl, In, All, insert, lookup, text_lt, find_row, Bool-cases, inl, inr,
}
use mathlib.Core.Path.{subst}
use orqent.Graph.Model.{
  GraphNode, GraphEdge, WorkflowGraph, workflow_graph, index_nodes, index_edges, link, push,
  incoming, outgoing, node_keys,
}
use orqent.Graph.Handles.{HandleType, compatible}
use orqent.Graph.Issues.{Severity, IssueCode, ValidationIssue, at_node}
use orqent.Graph.Cycles.{find_cycles, normalise}
use orqent.Graph.Cycles.Joins.{Trail}
use orqent.Graph.Cycles.Verdict.{Around, find_cycles_lem}
use orqent.Graph.Reach.{reachable_from}
use orqent.Graph.Reach.Complete.{Led, reachable_from_lem}
use orqent.Graph.Validation.{is_single, Arity, InputHandle, Declaration, validate_graph, is_valid}
use orqent.Graph.Validation.Rules.{Publishable}
use orqent.Graph.Validation.Report.{validate_graph_lem}
use orqent.Engine.Scheduler.{reject_fan_in}
use orqent.Engine.FanIn.{AllSingle, reject_fan_in_of_valid}

abbrev step : String → String → ℕ → GraphNode ℕ
step key node_type version = record {
  key = key;
  node_type = node_type;
  version = version;
  config = [];
  label = none;
}

abbrev join : String → String → GraphEdge
join source target = record {
  source_key = source;
  source_handle = "out";
  target_key = target;
  target_handle = "in";
}

abbrev pipeline : List (GraphNode ℕ)
pipeline = step "hook" "trigger.manual" 1 ∷ step "log" "core.log" 1 ∷ []

abbrev forwards : List GraphEdge
forwards = join "hook" "log" ∷ []

abbrev looping : List GraphEdge
looping = join "hook" "log" ∷ join "log" "hook" ∷ []

abbrev drawn_from :
    List GraphEdge
    → List GraphEdge
    → List GraphEdge
    → List GraphEdge
    → List GraphEdge
    → WorkflowGraph ℕ
drawn_from edges hook_out hook_in log_out log_in = record {
  nodes = pipeline;
  edges = edges;
  by_key = ("hook", step "hook" "trigger.manual" 1) ∷ ("log", step "log" "core.log" 1) ∷ [];
  adjacency = record {
    outgoing_of = ("hook", hook_out) ∷ ("log", log_out) ∷ [];
    incoming_of = ("hook", hook_in) ∷ ("log", log_in) ∷ [];
  };
}

abbrev straight : WorkflowGraph ℕ
straight = drawn_from forwards forwards [] [] forwards

abbrev circular : WorkflowGraph ℕ
circular = drawn_from looping forwards (join "log" "hook" ∷ []) (join "log" "hook" ∷ []) forwards

straight_built : workflow_graph pipeline forwards ≡ ok straight
unfolding workflow_graph index_nodes index_edges link push insert lookup
straight_built = refl

circular_built : workflow_graph pipeline looping ≡ ok circular
unfolding workflow_graph index_nodes index_edges link push insert lookup
circular_built = refl

circular_cycles : find_cycles circular ≡ ok (("hook" ∷ "log" ∷ []) ∷ [])
unfolding find_cycles lookup insert outgoing node_keys normalise text_lt
circular_cycles = refl

find_cycles_lem_example :
    (cycles : List (List String)) × (find_cycles circular ≡ ok cycles)
    × All (Around looping) cycles
    × ((cycles ≡ []) ↔ ((x : String) → ¬ Trail looping x x))
find_cycles_lem_example = find_cycles_lem pipeline looping circular_built

reachable_from_lem_example :
    (last : List String) × (reachable_from straight ("hook" ∷ []) ≡ some last)
    × ((x : String) → In x last ↔ Led forwards ("hook" ∷ []) x)
reachable_from_lem_example = reachable_from_lem pipeline forwards straight_built ("hook" ∷ [])

abbrev pub manual : Declaration ℕ
manual = record {
  is_trigger = true;
  deprecated = false;
  inputs = [];
  outputs = record { name = "out"; type = HandleType.json } ∷ [];
  config_errors = λ _. [];
}

abbrev pub log : Declaration ℕ
log = record {
  is_trigger = false;
  deprecated = true;
  inputs =
      record { name = "in"; type = HandleType.any; arity = Arity.single; required = true } ∷ [];
  outputs = record { name = "out"; type = HandleType.any } ∷ [];
  config_errors = λ _. [];
}

abbrev pub catalogue : String → ℕ → Option (Declaration ℕ)
catalogue node_type version =
    if node_type == "trigger.manual"
    then some manual
    else if node_type == "core.log"
    then some log
    else none

takes_one :
    (c d : Declaration ℕ)
    → All (λ (h : InputHandle). is_single h.arity ≡ true) c.inputs
    → some c ≡ some d
    → All (λ (h : InputHandle). is_single h.arity ≡ true) d.inputs
takes_one c d single same =
    let equal : c ≡ d = cc in
    subst (λ (k : Declaration ℕ). All (λ (h : InputHandle). is_single h.arity ≡ true) k.inputs)
      equal single

catalogue-AllSingle : AllSingle catalogue
catalogue-AllSingle node_type version d found = elim (Bool-cases (node_type == "trigger.manual")) [
  | inl e ↦ takes_one manual d (tt) (rw e at found)
  | inr e ↦ elim (Bool-cases (node_type == "core.log")) [
    | inl f ↦ takes_one log d (refl, tt) (rw (e, f) at found)
    | inr f ↦ let gone : none ≡ some d = rw (e, f) at found in cc
  ]
]

validate_graph_lem_example :
    (report : List ValidationIssue) × (validate_graph straight catalogue ≡ ok report)
    × ((is_valid report ≡ true) ↔ Publishable catalogue pipeline forwards)
validate_graph_lem_example = validate_graph_lem catalogue pipeline forwards straight_built

abbrev report : List ValidationIssue
report = at_node IssueCode.deprecated_node_type Severity.warning "log" ∷ []

straight_passes : validate_graph straight catalogue ≡ ok report
unfolding validate_graph lookup insert outgoing incoming node_keys find_cycles text_lt find_row
    compatible
straight_passes = refl

reject_fan_in_of_valid_example : reject_fan_in [] straight.edges ≡ ok tt
reject_fan_in_of_valid_example =
    reject_fan_in_of_valid catalogue pipeline forwards catalogue-AllSingle straight_built
      straight_passes refl

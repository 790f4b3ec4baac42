-- ===== src/Graph/Validation/Report.antt =====
-- What the report of a graph says: exactly which graphs may be published.
use orqent.Base.{
  ℕ, String, List, [], ◌∷◌, ◌++◌, Option, Bool, true, false, not, ◌||◌, is_nil, All, ok, ◌≡◌, ◌↔◌,
  refl, sym, ap, ◌∙◌, arith,
}
use mathlib.Core.Path.{subst}
use orqent.Graph.Model.{GraphNode, GraphEdge, WorkflowGraph, workflow_graph}
use orqent.Graph.Issues.{ValidationIssue, sorted}
use orqent.Graph.Cycles.Verdict.{Around, find_cycles_lem}
use orqent.Graph.Validation.{
  Declaration, resolve, validate_config, check_edges, check_triggers, check_nodes, trigger_keys,
  validate_handles, validate_structure, validate_graph, is_valid,
}
use orqent.Graph.Validation.Clean.{
  blocks, blocks-append, blocks-sorted, blocks-validate_config, blocks-check_edges,
  blocks-check_nodes, check_cycles_lem, check_triggers_lem, check_reachability_lem,
}
use orqent.Graph.Validation.Resolution.{blocks-resolve}
use orqent.Graph.Validation.Nodes.{built_parts}
use orqent.Graph.Validation.Rules.{Publishable}
use orqent.Graph.Validation.Publishable.{mapping, Clear, Clear-Publishable, Publishable-Clear}

none_blocks :
    (a b c d e f g : Bool)
    → g ≡ false
    → (not (a || (b || ((c || d) || (e || (f || g))))) ≡ true)
      ↔ ((a ≡ false) × (b ≡ false) × (c ≡ false) × (d ≡ false) × (e ≡ false) × (f ≡ false))
none_blocks a b c d e f g h = (
  λ none. (ground arith, ground arith, ground arith, ground arith, ground arith, ground arith),
  λ all. ground arith,
)

-- A report is valid when no part of it blocks.
verdict :
    (a b c d e f g : List ValidationIssue)
    → blocks g ≡ false
    → (is_valid (sorted (a ++ (b ++ ((c ++ d) ++ (e ++ (f ++ g)))))) ≡ true) ↔ (
        (blocks a ≡ false)
        × (blocks b ≡ false)
        × (blocks c ≡ false)
        × (blocks d ≡ false)
        × (blocks e ≡ false)
        × (blocks f ≡ false))
verdict a b c d e f g h =
    let parts : blocks (sorted (a ++ (b ++ ((c ++ d) ++ (e ++ (f ++ g)))))) ≡ (
        blocks a
        || (blocks b || ((blocks c || blocks d) || (blocks e || (blocks f || blocks g))))) =
      simp (blocks-sorted, blocks-append) in
    let (there, back) =
      none_blocks (blocks a) (blocks b) (blocks c) (blocks d) (blocks e) (blocks f) (blocks g) h in
    (λ valid. there (sym (ap not parts) ∙ valid), λ all. ap not parts ∙ back all)

module _ {V : Type 0} (find : String → ℕ → Option (Declaration V)) {graph : WorkflowGraph V}
    (built : workflow_graph graph.nodes graph.edges ≡ ok graph) where
  Around-filled :
      (cycles : List (List String))
      → All (Around graph.edges) cycles
      → All (λ c. is_nil c ≡ false) cycles
  Around-filled [] h = tt
  Around-filled ([] ∷ cycles) (here, later) = absurd here
  Around-filled ((x ∷ xs) ∷ cycles) (here, later) = (refl, Around-filled cycles later)

  validate_graph-Clear :
      (report : List ValidationIssue) × (validate_graph graph find ≡ ok report)
      × ((is_valid report ≡ true) ↔ Clear find built)
  unfolding validate_graph validate_structure validate_handles
  validate_graph-Clear =
      let (cycles, searched, around, free) = find_cycles_lem graph.nodes graph.edges built in
      let (loops, looped, no_loops) = check_cycles_lem cycles (Around-filled cycles around) in
      let keys = trigger_keys graph (mapping find built) graph.nodes in
      let (lost, walked, harmless) =
        check_reachability_lem (mapping find built) graph.nodes graph.edges built keys in
      let first = (resolve find [] [] graph.nodes).1 in
      let second = validate_config (mapping find built) graph.nodes in
      let third =
        check_edges (mapping find built) graph.edges
        ++ check_nodes graph (mapping find built) graph.nodes in
      let triggers = check_triggers graph keys in
      let fourth = loops ++ (triggers ++ lost) in
      let (one, one_back) = check_triggers_lem graph keys in
      let total =
        verdict first second (check_edges (mapping find built) graph.edges)
          (check_nodes graph (mapping find built) graph.nodes) loops triggers lost harmless in
      let s1 = blocks-resolve find graph.nodes [] [] in
      let s2 = blocks-validate_config (mapping find built) graph.nodes in
      let s3 = blocks-check_edges (mapping find built) graph.edges in
      let s4 = blocks-check_nodes (mapping find built) graph graph.nodes in
      (
        sorted (first ++ (second ++ (third ++ fourth))),
        rw (searched, looped, walked, validate_graph, validate_structure, validate_handles) refl,
        (
          λ valid.
              let (h1, h2, h3, h4, h5, h6) = total.0 valid in
              let (key, triggered, unentered) = one h6 in
              record {
                known = sym s1 ∙ h1;
                configured = sym s2 ∙ h2;
                drawn = sym s3 ∙ h3;
                fed = sym s4 ∙ h4;
                acyclic = free.0 (no_loops.0 h5);
                key = key;
                triggers = triggered;
                unentered = unentered;
              },
          λ clear. total.1 (
            s1 ∙ clear.known,
            s2 ∙ clear.configured,
            s3 ∙ clear.drawn,
            s4 ∙ clear.fed,
            no_loops.1 (free.1 clear.acyclic),
            one_back (clear.key, clear.triggers, clear.unentered),
          ),
        ),
      )

-- On a graph that the constructor accepts, validation returns a report. The report is valid exactly
-- when the graph may run: every node is of a known type with an accepted configuration, each of its
-- declared inputs has at most one edge where it takes one and at least one where it is required,
-- every edge joins a declared output to a declared input of a compatible type, no node has a way
-- back to itself, and exactly one node is a trigger, which no edge enters. Warnings do not count.
pub validate_graph_lem :
    {V : Type 0} (find : String → ℕ → Option (Declaration V)) (nodes : List (GraphNode V))
    (edges : List GraphEdge) {graph : WorkflowGraph V}
    → workflow_graph nodes edges ≡ ok graph
    → (report : List ValidationIssue) × (validate_graph graph find ≡ ok report)
      × ((is_valid report ≡ true) ↔ Publishable find nodes edges)
validate_graph_lem find nodes edges {graph} built =
    let (same_nodes, same_edges) = built_parts nodes edges built in
    let again : workflow_graph graph.nodes graph.edges ≡ ok graph =
      ap (λ ns. workflow_graph ns graph.edges) same_nodes
      ∙ ap (workflow_graph nodes) same_edges
      ∙ built in
    let (report, returned, exact) = validate_graph-Clear find again in
    (
      report,
      returned,
      (
        λ valid.
            subst (λ ns. Publishable find ns edges) same_nodes
              (subst (λ es. Publishable find graph.nodes es) same_edges
                (Clear-Publishable find again (exact.0 valid))),
        λ p. exact.1 (
            Publishable-Clear find again (
              subst (λ ns. Publishable find ns graph.edges) (sym same_nodes)
                (subst (λ es. Publishable find nodes es) (sym same_edges) p))),
      ),
    )

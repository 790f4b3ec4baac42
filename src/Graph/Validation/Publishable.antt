-- ===== src/Graph/Validation/Publishable.antt =====
-- A report that names no error, stage by stage, against the rules.
use orqent.Base.{
  ℕ, String, List, [], ◌∷◌, map, Option, some, false, filter, any, Dict, lookup, In, ok, >>=-eq-ok,
  ◌≡◌, refl, sym, ap, ◌∙◌, arith, inl, inr, Option-cases, eq_iff, Unique, any-In, any_of_In,
  In-filter,
}
use mathlib.Core.Path.{subst}
use orqent.Graph.Model.{
  GraphNode, GraphEdge, WorkflowGraph, workflow_graph, incoming, index_nodes, index_edges,
}
use orqent.Graph.Model.Edges.{arrives, workflow_graph-edges}
use orqent.Graph.Cycles.Joins.{Trail, ends_known}
use orqent.Graph.Validation.{Declaration, resolve, config_of, starts_run, trigger_keys}
use orqent.Graph.Validation.Clean.{
  blocks, check_inputs-Fed, blocks-translate, edge_issues, edge_issues_lem, input_issues,
}
use orqent.Graph.Validation.Resolution.{is_unknown, same_key, resolve_lem, filter_one}
use orqent.Graph.Validation.Nodes.{index_nodes_lem}
use orqent.Graph.Validation.Rules.{Resolved, Drawn, Complete, starts, Publishable}

module _ {V : Type 0} (find : String → ℕ → Option (Declaration V)) {graph : WorkflowGraph V}
    (built : workflow_graph graph.nodes graph.edges ≡ ok graph) where
  abbrev pub mapping : Dict (Declaration V)
  mapping = (resolve find [] [] graph.nodes).0

  keys_apart : Unique same_key graph.nodes
  unfolding workflow_graph
  keys_apart =
      let (by_key, indexed, _) = >>=-eq-ok (index_nodes [] graph.nodes) _ built in
      (index_nodes_lem graph.nodes [] indexed).0

  described :
      (n : GraphNode V) → In n graph.nodes → lookup n.key mapping ≡ find n.node_type n.version
  unfolding lookup
  described n m = resolve_lem find graph.nodes [] [] n keys_apart m refl

  ends :
      (e : GraphEdge)
      → In e graph.edges
      → ((n : GraphNode V) × In n graph.nodes × (n.key ≡ e.source_key))
        × ((n : GraphNode V) × In n graph.nodes × (n.key ≡ e.target_key))
  unfolding workflow_graph lookup
  ends e m =
      let (by_key, indexed, rest) = >>=-eq-ok (index_nodes [] graph.nodes) _ built in
      let (adjacency, linked, _) = >>=-eq-ok (index_edges by_key [] _ graph.edges) _ rest in
      let (source, target) = ends_known by_key graph.edges [] _ linked e m in
      let node_of = (index_nodes_lem graph.nodes [] indexed).2 in
      (node_of e.source_key source refl, node_of e.target_key target refl)

  -- The report names no error, stage by stage.
  pub record Clear : Type 0 where
    pub known : any (is_unknown find) graph.nodes ≡ false
    pub configured : any (λ (n : GraphNode V). blocks (config_of mapping n)) graph.nodes ≡ false
    pub drawn : any (λ (e : GraphEdge). blocks (edge_issues mapping e)) graph.edges ≡ false
    pub fed : any (λ (n : GraphNode V). blocks (input_issues mapping graph n)) graph.nodes ≡ false
    pub acyclic : (x : String) → ¬ Trail graph.edges x x
    pub key : String
    pub triggers : trigger_keys graph mapping graph.nodes ≡ key ∷ []
    pub unentered : incoming graph key ≡ []

  Clear-Complete :
      Clear → (n : GraphNode V) → In n graph.nodes → Complete find graph.nodes graph.edges n
  Clear-Complete clear n m =
      let here = described n m in
      let no_unknown = any-In (is_unknown find) n graph.nodes clear.known m in
      let no_config =
        any-In (λ (n : GraphNode V). blocks (config_of mapping n)) n graph.nodes clear.configured
          m in
      let no_input =
        any-In (λ (n : GraphNode V). blocks (input_issues mapping graph n)) n graph.nodes clear.fed
          m in
      elim (Option-cases (find n.node_type n.version)) [
        | inl e ↦ ground arith
        | inr (d, e) ↦
            let found = here ∙ e in
            let ins = (workflow_graph-edges graph.nodes graph.edges n.key built).1 in
            record {
              declaration = d;
              declared = e;
              configured =
                  (blocks-translate mapping n.key (d.config_errors n.config)).0 (ground arith);
              fed =
                  (check_inputs-Fed n.key (filter (arrives n.key) graph.edges) d.inputs).0
                    (ground arith);
            }
      ]

  found_end :
      Clear
      → (key : String) → ((n : GraphNode V) × In n graph.nodes × (n.key ≡ key))
      → (r : Resolved find graph.nodes graph.edges key) × (lookup key mapping ≡ some r.declaration)
  found_end clear key (n, m, same) =
      let c = Clear-Complete clear n m in
      (
        record {
          node = n;
          listed = m;
          keyed = same;
          declaration = c.declaration;
          declared = c.declared;
        },
        subst (λ k. lookup k mapping ≡ some c.declaration) same (described n m ∙ c.declared),
      )

  Clear-Drawn : Clear → (e : GraphEdge) → In e graph.edges → Drawn find graph.nodes graph.edges e
  Clear-Drawn clear e m =
      let (s, t) = ends e m in
      let (source, at_source) = found_end clear e.source_key s in
      let (target, at_target) = found_end clear e.target_key t in
      let clean =
        any-In (λ (e : GraphEdge). blocks (edge_issues mapping e)) e graph.edges clear.drawn m in
      let (output, input, o, i, flows) =
        (edge_issues_lem mapping e source.declaration target.declaration at_source at_target).0
          clean in
      record {
        source = source;
        target = target;
        output = output;
        input = input;
        leaves_by = o;
        enters_by = i;
        flows = flows;
      }

  starts_run-starts :
      (n : GraphNode V)
      → In n graph.nodes
      → starts_run graph mapping n ≡ starts find graph.nodes graph.edges n
  starts_run-starts n m = rw (described n m, starts_run) refl

  map_one :
      (ns : List (GraphNode V)) (key : String)
      → map (λ (n : GraphNode V). n.key) ns ≡ key ∷ []
      → (n : GraphNode V) × (ns ≡ n ∷ []) × (n.key ≡ key)
  map_one [] key h = cc
  map_one (n ∷ []) key h = (n, refl, cc)
  map_one (n ∷ k ∷ ns) key h = cc

  pub Clear-Publishable : Clear → Publishable find graph.nodes graph.edges
  unfolding trigger_keys
  Clear-Publishable clear =
      let runs = starts_run graph mapping in
      let (t, one, same) = map_one (filter runs graph.nodes) clear.key clear.triggers in
      let (listed, starting) =
        (In-filter runs t graph.nodes).0 (subst (In t) (sym one) (inl refl)) in
      let ins = (workflow_graph-edges graph.nodes graph.edges clear.key built).1 in
      record {
        complete = Clear-Complete clear;
        drawn = Clear-Drawn clear;
        acyclic = clear.acyclic;
        trigger = t;
        listed = listed;
        starting = sym (starts_run-starts t listed) ∙ starting;
        alone = λ n m s.
            let kept =
              subst (In n) one ((In-filter runs n graph.nodes).1 (m, starts_run-starts n m ∙ s)) in
            elim kept [ inl e ↦ e | inr none_left ↦ absurd none_left ];
        unentered = rw same (sym ins ∙ clear.unentered);
      }

  pub Publishable-Clear : Publishable find graph.nodes graph.edges → Clear
  unfolding trigger_keys
  Publishable-Clear p = record {
    known =
        any_of_In (is_unknown find) graph.nodes λ n m. let c = p.complete n m in rw c.declared refl;
    configured =
        any_of_In (λ (n : GraphNode V). blocks (config_of mapping n)) graph.nodes
          λ n m.
            let c = p.complete n m in
            rw (described n m ∙ c.declared, config_of)
              ((blocks-translate mapping n.key _).1 c.configured);
    drawn =
        any_of_In (λ (e : GraphEdge). blocks (edge_issues mapping e)) graph.edges
          λ e m.
            let d = p.drawn e m in
            (edge_issues_lem mapping e d.source.declaration d.target.declaration
                (at_end e.source_key d.source) (at_end e.target_key d.target)).1
              (d.output, d.input, d.leaves_by, d.enters_by, d.flows);
    fed =
        any_of_In (λ (n : GraphNode V). blocks (input_issues mapping graph n)) graph.nodes
          λ n m.
            let c = p.complete n m in
            let ins = (workflow_graph-edges graph.nodes graph.edges n.key built).1 in
            rw (described n m ∙ c.declared, ins, input_issues)
              ((check_inputs-Fed n.key (filter (arrives n.key) graph.edges) c.declaration.inputs).1
                c.fed);
    acyclic = p.acyclic;
    key = p.trigger.key;
    triggers = ap (map (λ (n : GraphNode V). n.key)) (
        filter_one (starts_run graph mapping) same_key (λ a. (eq_iff a.key a.key).1 refl) p.trigger
          graph.nodes keys_apart p.listed (starts_run-starts p.trigger p.listed ∙ p.starting)
          (λ n m s. p.alone n m (sym (starts_run-starts n m) ∙ s)));
    unentered = (workflow_graph-edges graph.nodes graph.edges p.trigger.key built).1 ∙ p.unentered;
  }
    where
      at_end :
          (key : String) (r : Resolved find graph.nodes graph.edges key)
          → lookup key mapping ≡ some r.declaration
      at_end key r =
          subst (λ k. lookup k mapping ≡ some r.declaration) r.keyed
            (described r.node r.listed ∙ r.declared)

-- ===== src/Engine/FanIn.antt =====
-- The fan-in that the scheduler refuses, against what publishing lets through: `reject_fan_in` of
-- src/app/domain/engine/scheduler.py after `validate_graph` of src/app/domain/graph/validation.
use orqent.Base.{
  ℕ, suc, ◌≤◌, String, List, [], ◌∷◌, Option, some, Bool, true, false, ◌&&◌, ◌==◌, eq_iff, filter,
  any, All, In, Unique, All-In, any-In, find_row-some, ok, ◌≡◌, refl, sym, arith, inl, inr,
  Bool-cases,
}
use mathlib.Core.Path.{subst}
use orqent.Graph.Model.{GraphNode, GraphEdge, WorkflowGraph, workflow_graph}
use orqent.Graph.Model.Edges.{arrives}
use orqent.Graph.Issues.{ValidationIssue}
use orqent.Graph.Validation.{
  InputHandle, Declaration, is_single, connections, validate_graph, is_valid,
}
use orqent.Graph.Validation.Nodes.{built_parts}
use orqent.Graph.Validation.Rules.{Publishable}
use orqent.Graph.Validation.Report.{validate_graph_lem}
use orqent.Engine.Scheduler.{target_mem, reject_fan_in}

abbrev same_target : GraphEdge → GraphEdge → Bool
same_target e f = (e.target_key == f.target_key) && (e.target_handle == f.target_handle)

-- How many edges arrive where this one does.
abbrev beside : GraphEdge → List GraphEdge → ℕ
beside e edges = connections e.target_handle (filter (arrives e.target_key) edges)

beside_none :
    (e : GraphEdge) (edges : List GraphEdge)
    → beside e edges ≤ 0
    → any (same_target e) edges ≡ false
beside_none e [] h = refl
beside_none e (f ∷ edges) h = elim (Bool-cases (f.target_key == e.target_key)) [
  | inl k ↦ elim (Bool-cases (f.target_handle == e.target_handle)) [
    | inl n ↦ ground arith
    | inr n ↦
        let other : e.target_handle == f.target_handle ≡ false =
          ground (
            arith,
            eq_iff f.target_handle e.target_handle,
            eq_iff e.target_handle f.target_handle,
          ) in
        let ih = beside_none e edges (ground arith) in ground arith
  ]
  | inr k ↦
      let other : e.target_key == f.target_key ≡ false =
        ground (arith, eq_iff f.target_key e.target_key, eq_iff e.target_key f.target_key) in
      let ih = beside_none e edges (ground arith) in ground arith
]

beside-le : (e f : GraphEdge) (edges : List GraphEdge) → beside e edges ≤ beside e (f ∷ edges)
beside-le e f edges = ground arith

beside_self : (e : GraphEdge) (edges : List GraphEdge) → beside e (e ∷ edges) ≡ suc (beside e edges)
beside_self e edges =
    rw ((eq_iff e.target_key e.target_key).1 refl)
      (rw ((eq_iff e.target_handle e.target_handle).1 refl) refl)

targets_apart :
    (edges : List GraphEdge)
    → ((e : GraphEdge) → In e edges → beside e edges ≤ 1)
    → Unique same_target edges
targets_apart [] few = tt
targets_apart (e ∷ edges) few =
    let here = few e (inl refl) in
    let self = beside_self e edges in
    (
      beside_none e edges (omega arith),
      targets_apart edges
          λ f m. let there = few f (inr m) in let less = beside-le f e edges in omega arith,
    )

reject_fan_in_lem :
    (seen edges : List GraphEdge)
    → Unique same_target edges
    → ((e : GraphEdge) → In e edges → target_mem e seen ≡ false)
    → reject_fan_in seen edges ≡ ok tt
unfolding reject_fan_in
reject_fan_in_lem seen [] unique fresh = refl
reject_fan_in_lem seen (e ∷ edges) (here, later) fresh =
    rw (fresh e (inl refl), reject_fan_in)
      (reject_fan_in_lem (e ∷ seen) edges later λ f m.
        let apart = any-In (same_target e) f edges here m in
        let old = fresh f (inr m) in rw (apart, target_mem) old)

module _ {V : Type 0} (find : String → ℕ → Option (Declaration V)) where
  -- Every declared input takes one connection.
  abbrev pub AllSingle : Type 0
  AllSingle =
      (node_type : String) (version : ℕ) (d : Declaration V)
      → find node_type version ≡ some d
      → All (λ (h : InputHandle). is_single h.arity ≡ true) d.inputs

  drawn_few :
      (nodes : List (GraphNode V)) (edges : List GraphEdge)
      → AllSingle
      → Publishable find nodes edges
      → (e : GraphEdge) → In e edges
      → beside e edges ≤ 1
  drawn_few nodes edges single p e m =
      let d = p.drawn e m in
      let t = d.target in
      let c = p.complete t.node t.listed in
      let same : c.declaration ≡ t.declaration = let h = c.declared in let k = t.declared in cc in
      let (there, named) =
        find_row-some (λ (h : InputHandle). h.name == e.target_handle) t.declaration.inputs d.input
          d.enters_by in
      let there' : In d.input c.declaration.inputs =
        subst (λ (d' : Declaration V). In d.input d'.inputs) (sym same) there in
      let one =
        All-In _ d.input c.declaration.inputs
          (single t.node.node_type t.node.version c.declaration c.declared) there' in
      let fed = All-In _ d.input c.declaration.inputs c.fed there' in
      let key =
        subst (λ k. connections d.input.name (filter (arrives k) edges) ≤ 1) t.keyed (fed.0 one) in
      subst (λ n. connections n (filter (arrives e.target_key) edges) ≤ 1)
        ((eq_iff d.input.name e.target_handle).0 named) key

  -- A graph with a valid report, over a catalogue whose inputs all take one connection, is one whose
  -- fan-in the scheduler does not refuse.
  pub reject_fan_in_of_valid :
      (nodes : List (GraphNode V)) (edges : List GraphEdge) {graph : WorkflowGraph V}
      {report : List ValidationIssue}
      → AllSingle
      → workflow_graph nodes edges ≡ ok graph
      → validate_graph graph find ≡ ok report
      → is_valid report ≡ true
      → reject_fan_in [] graph.edges ≡ ok tt
  reject_fan_in_of_valid nodes edges {report = report} single built reported valid =
      let (same_nodes, same_edges) = built_parts nodes edges built in
      let (report', reported', exact) = validate_graph_lem find nodes edges built in
      let same : report' ≡ report = cc in
      let p = exact.0 (rw same valid) in
      let few = drawn_few nodes edges single p in
      rw same_edges (reject_fan_in_lem [] edges (targets_apart edges few) (λ e m. refl))

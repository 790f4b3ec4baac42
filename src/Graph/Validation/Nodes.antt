-- ===== src/Graph/Validation/Nodes.antt =====
-- What `WorkflowGraph` checked of the nodes, and the fields it keeps.
use orqent.Base.{
  String, List, [], ◌∷◌, true, false, ◌==◌, has, Dict, insert, lookup-insert, In, ok, >>=-eq-ok,
  ◌≡◌, refl, arith, inl, inr, Bool-cases, eq_iff, Unique, any_of_In,
}
use orqent.Graph.Model.{
  GraphNode, GraphEdge, WorkflowGraph, workflow_graph, index_nodes, index_edges,
}
use orqent.Graph.Validation.Resolution.{same_key}

-- What the constructor of the graph checked of the nodes.
module _ {V : Type 0} where
  pub index_nodes_lem :
      (nodes : List (GraphNode V)) (by_key : Dict (GraphNode V)) {last : Dict (GraphNode V)}
      → index_nodes by_key nodes ≡ ok last
      → Unique same_key nodes
        × ((n : GraphNode V) → In n nodes → has n.key by_key ≡ false)
        × ((key : String)
            → has key last ≡ true
            → has key by_key ≡ false
            → (n : GraphNode V) × In n nodes × (n.key ≡ key))
  unfolding index_nodes
  index_nodes_lem [] by_key h = (tt, λ n m. absurd m, λ key there gone. cc)
  index_nodes_lem (node ∷ nodes) by_key h = elim (Bool-cases (has node.key by_key)) [
    | inl e ↦ cc (rw (e, index_nodes) at h)
    | inr e ↦
        let (unique, fresh, back) =
          index_nodes_lem nodes (insert node.key node by_key) (rw e at h) in
        (
          (
            any_of_In (same_key node) nodes λ n m. elim (Bool-cases (same_key node n)) [
              | inl alike ↦
                  let inserted = lookup-insert node.key n.key node by_key in
                  let absent = fresh n m in ground arith
              | inr apart ↦ apart
            ],
            unique,
          ),
          λ n m. elim m [
            | inl same ↦ rw same e
            | inr m' ↦
                let inserted = lookup-insert node.key n.key node by_key in
                let absent = fresh n m' in ground arith
          ],
          λ key there gone. elim (Bool-cases (node.key == key)) [
            | inl alike ↦ (node, inl refl, (eq_iff node.key key).0 alike)
            | inr apart ↦
                let inserted = lookup-insert node.key key node by_key in
                let (n, m, same) = back key there (ground arith) in (n, inr m, same)
          ],
        )
  ]

pub built_parts :
    {V : Type 0} (nodes : List (GraphNode V)) (edges : List GraphEdge) {graph : WorkflowGraph V}
    → workflow_graph nodes edges ≡ ok graph
    → (graph.nodes ≡ nodes) × (graph.edges ≡ edges)
unfolding workflow_graph
built_parts nodes edges built =
    let (by_key, _, indexed) = >>=-eq-ok (index_nodes [] nodes) _ built in
    let (adjacency, linked, last) = >>=-eq-ok (index_edges by_key [] _ edges) _ indexed in
    (ground arith, ground arith)

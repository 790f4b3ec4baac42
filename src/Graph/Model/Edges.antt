-- ===== src/Graph/Model/Edges.antt =====
-- The precomputed adjacency of a graph against the plain reading of its edge list.
use orqent.Base.{
  String, List, [], ◌∷◌, ◌++◌, Bool, ◌==◌, ◌≡◌, refl, arith, eq_iff, if◌then◌else◌, filter, Dict,
  lookup, lookup-insert, ok, >>=-eq-ok, append-nil, append_assoc, Bool-cases, inl, inr,
  Option-cases,
}
use orqent.Graph.Model.{
  GraphNode, GraphEdge, Adjacency, WorkflowGraph, edges_at, push, link, check_edge, index_edges,
  index_nodes, blank, workflow_graph, outgoing, incoming,
}

abbrev pub leaves : String → GraphEdge → Bool
leaves key edge = edge.source_key == key

abbrev pub arrives : String → GraphEdge → Bool
arrives key edge = edge.target_key == key

filter-concat :
    {A : Type 0} (p : A → Bool) (xs ys : List A) → filter p (xs ++ ys) ≡ filter p xs ++ filter p ys
filter-concat p [] ys = refl
filter-concat p (x ∷ xs) ys = ground (arith, filter-concat p xs ys)

-- A successful write to `d[key]` adds the edge at the end of that entry and nowhere else.
edges_at-push :
    (key other : String) (edge : GraphEdge) (d : Dict (List GraphEdge)) {d' : Dict (List GraphEdge)}
    → push key edge d ≡ ok d'
    → edges_at d' other ≡ edges_at d other ++ (if key == other then edge ∷ [] else [])
unfolding push
edges_at-push key other edge d h = elim (Option-cases (lookup key d)) [
  | inl e ↦ cc (rw (e, push) at h)
  | inr (es, e) ↦ elim (Bool-cases (key == other)) [
    | inl same ↦ ground (arith, eq_iff key other, lookup-insert key other (es ++ edge ∷ []) d)
    | inr differ ↦
        ground (arith, append-nil (edges_at d other), lookup-insert key other (es ++ edge ∷ []) d)
  ]
]

link-parts :
    (edge : GraphEdge) (a : Adjacency) {b : Adjacency}
    → link edge a ≡ ok b
    → (push edge.source_key edge a.outgoing_of ≡ ok b.outgoing_of)
      × (push edge.target_key edge a.incoming_of ≡ ok b.incoming_of)
unfolding link
link-parts edge a h =
    let (o, po, rest) = >>=-eq-ok (push edge.source_key edge a.outgoing_of) _ h in
    let (i, pi, last) = >>=-eq-ok (push edge.target_key edge a.incoming_of) _ rest in ground arith

filter-snoc :
    (p : GraphEdge → Bool) (e : GraphEdge) (es : List GraphEdge) (before mid after : List GraphEdge)
    → mid ≡ before ++ (if p e then e ∷ [] else [])
    → after ≡ mid ++ filter p es
    → after ≡ before ++ filter p (e ∷ es)
filter-snoc p e es before mid after h k = elim (Bool-cases (p e)) [
  | inl t ↦ ground (arith, append_assoc before (e ∷ []) (filter p es))
  | inr f ↦ ground (arith, append-nil before)
]

module _ {V : Type 0} (by_key : Dict (GraphNode V)) where
  index_edges-edges_at :
      (es seen : List GraphEdge) (a : Adjacency) {b : Adjacency} (key : String)
      → index_edges by_key seen a es ≡ ok b
      → (edges_at b.outgoing_of key ≡ edges_at a.outgoing_of key ++ filter (leaves key) es)
        × (edges_at b.incoming_of key ≡ edges_at a.incoming_of key ++ filter (arrives key) es)
  unfolding index_edges
  index_edges-edges_at [] seen a key h = (
    ground (arith, append-nil (edges_at a.outgoing_of key)),
    ground (arith, append-nil (edges_at a.incoming_of key)),
  )
  index_edges-edges_at (e ∷ es) seen a key h =
      let (_, _, after) = >>=-eq-ok (check_edge by_key seen e) _ h in
      let (next, linked, rest) = >>=-eq-ok (link e a) _ after in
      let (outs, ins) = link-parts e a linked in
      let (ih_out, ih_in) = index_edges-edges_at es (seen ++ e ∷ []) next key rest in
      (
        filter-snoc (leaves key) e es _ _ _ (edges_at-push e.source_key key e a.outgoing_of outs)
            ih_out,
        filter-snoc (arrives key) e es _ _ _ (edges_at-push e.target_key key e a.incoming_of ins)
            ih_in,
      )

blank-edges_at :
    {V : Type 0} (by_key : Dict (GraphNode V)) (key : String) → edges_at (blank by_key) key ≡ []
unfolding lookup
blank-edges_at [] key = refl
blank-edges_at ((k, _) ∷ d) key = ground (arith, blank-edges_at d key)

-- In a graph that the constructor accepts, the precomputed adjacency of any key, known or not, is
-- the subsequence of the given edges that leave it, and of those that arrive at it.
pub workflow_graph-edges :
    {V : Type 0} (nodes : List (GraphNode V)) (edges : List GraphEdge) {graph : WorkflowGraph V}
    (key : String)
    → workflow_graph nodes edges ≡ ok graph
    → (outgoing graph key ≡ filter (leaves key) edges)
      × (incoming graph key ≡ filter (arrives key) edges)
unfolding workflow_graph outgoing incoming
workflow_graph-edges nodes edges key h =
    let (by_key, _, indexed) = >>=-eq-ok (index_nodes [] nodes) _ h in
    let (adjacency, linked, last) = >>=-eq-ok (index_edges by_key [] _ edges) _ indexed in
    let (outs, ins) = index_edges-edges_at by_key edges [] _ key linked in
    ground (arith, blank-edges_at by_key key)

-- ===== src/Graph/Cycles/Joins.antt =====
-- The edges of a graph that was built as a relation between nodes, and what `_successors` reads of
-- it.
use orqent.Base.{
  ap, String, List, [], ◌∷◌, ◌++◌, map, true, false, ◌==◌, eq_iff, Dict, lookup, has, keys, mem, In,
  In-filter, ok, >>=-eq-ok, ◌≡◌, ◌↔◌, refl, sym, arith, inl, inr, Bool-cases,
}
use mathlib.Core.Path.{subst}
use orqent.Graph.Model.{
  GraphNode, GraphEdge, Adjacency, WorkflowGraph, workflow_graph, outgoing, node_keys, index_nodes,
  index_edges, check_edge, link, edge_mem,
}
use orqent.Graph.Cycles.{distinct, successors}
use orqent.Graph.Model.Edges.{leaves, workflow_graph-edges}

-- Some edge leads from `x` to `y`.
pub record Joined (edges : List GraphEdge) (x y : String) : Type 0 where
  pub edge : GraphEdge
  pub listed : In edge edges
  pub source : edge.source_key ≡ x
  pub target : edge.target_key ≡ y

-- A way of one or more edges.
pub data Trail (edges : List GraphEdge) (x : String) : String → Type 0 where
  only : {y : String} → Joined edges x y → Trail edges x y
  more : {y z : String} → Trail edges x y → Joined edges y z → Trail edges x z

has→In : {A : Type 0} (key : String) (d : Dict A) → has key d ≡ true → In key (keys d)
unfolding lookup
has→In key [] h = cc
has→In key ((k, v) ∷ d) h = elim (Bool-cases (k == key)) [
  | inl e ↦ inl (sym ((eq_iff k key).0 e))
  | inr e ↦ inr (has→In key d (ground arith))
]

check_edge-target :
    {V : Type 0} (by_key : Dict (GraphNode V)) (seen : List GraphEdge) (e : GraphEdge)
    → check_edge by_key seen e ≡ ok tt
    → (has e.source_key by_key ≡ true)
      × (has e.target_key by_key ≡ true)
      × (edge_mem e seen ≡ false)
check_edge-target by_key seen e h = (ground arith, ground arith, ground arith)

-- What `WorkflowGraph` checked of each edge.
module _ {V : Type 0} (by_key : Dict (GraphNode V)) where
  pub ends_known :
      (es seen : List GraphEdge) (a : Adjacency) {b : Adjacency}
      → index_edges by_key seen a es ≡ ok b
      → (e : GraphEdge) → In e es
      → (has e.source_key by_key ≡ true) × (has e.target_key by_key ≡ true)
  unfolding index_edges
  ends_known [] seen a h e m = absurd m
  ends_known (first ∷ es) seen a h e m =
      let (_, checked, after) = >>=-eq-ok (check_edge by_key seen first) _ h in
      let (next, _, rest) = >>=-eq-ok (link first a) _ after in
      elim m [
        | inl same ↦
            let (source, target, _) = check_edge-target by_key seen first checked in
            (
              subst (λ (r : GraphEdge). has r.source_key by_key ≡ true) (sym same) source,
              subst (λ (r : GraphEdge). has r.target_key by_key ≡ true) (sym same) target,
            )
        | inr m' ↦ ends_known es (seen ++ first ∷ []) next rest e m'
      ]

distinct_lem :
    (seen xs : List String) (y : String)
    → In y (distinct seen xs) ↔ (In y xs × (mem y seen ≡ false))
unfolding distinct
distinct_lem seen [] y = (λ m. absurd m, λ m. absurd m.0)
distinct_lem seen (x ∷ xs) y = elim (Bool-cases (y == x)) [
  | inl e ↦
      let alike = ap (λ z. mem z seen) ((eq_iff y x).0 e) in
      elim (Bool-cases (mem x seen)) [
        | inl old ↦ rw (old, distinct) (ground (arith, eq_iff y x, distinct_lem (x ∷ seen) xs y))
        | inr new ↦ rw (new, distinct) (ground (arith, eq_iff y x, distinct_lem (x ∷ seen) xs y))
      ]
  | inr e ↦ elim (Bool-cases (mem x seen)) [
    | inl old ↦ rw (old, distinct) (ground (arith, eq_iff y x, distinct_lem (x ∷ seen) xs y))
    | inr new ↦ rw (new, distinct) (ground (arith, eq_iff y x, distinct_lem (x ∷ seen) xs y))
  ]
]

targets_there :
    (es : List GraphEdge) (y : String)
    → In y (map (λ (e : GraphEdge). e.target_key) es)
    → (e : GraphEdge) × In e es × (e.target_key ≡ y)
targets_there [] y m = absurd m
targets_there (e ∷ es) y (inl same) = (e, inl refl, sym same)
targets_there (e ∷ es) y (inr m) =
    let (f, listed, target) = targets_there es y m in (f, inr listed, target)

targets_back :
    (es : List GraphEdge) (e : GraphEdge)
    → In e es
    → In e.target_key (map (λ (e : GraphEdge). e.target_key) es)
targets_back [] e m = absurd m
targets_back (first ∷ es) e (inl same) = inl (ap (λ (r : GraphEdge). r.target_key) same)
targets_back (first ∷ es) e (inr m) = inr (targets_back es e m)

module _ {V : Type 0} (nodes : List (GraphNode V)) (edges : List GraphEdge)
    {graph : WorkflowGraph V} (built : workflow_graph nodes edges ≡ ok graph) where
  built_edges : graph.edges ≡ edges
  unfolding workflow_graph
  built_edges =
      let (by_key, _, indexed) = >>=-eq-ok (index_nodes [] nodes) _ built in
      let (adjacency, linked, last) = >>=-eq-ok (index_edges by_key [] _ edges) _ indexed in
      ground arith

  -- `_successors` gives the nodes that an edge leads to.
  pub successors_lem : (x y : String) → In y (successors graph x) ↔ Joined edges x y
  unfolding successors
  successors_lem x y =
      let outs = (workflow_graph-edges nodes edges x built).0 in
      let (there, back) =
        distinct_lem [] (map (λ (e : GraphEdge). e.target_key) (outgoing graph x)) y in
      (
        λ m.
            let (e, listed, target) = targets_there (outgoing graph x) y (there m).0 in
            let (listed', source) = (In-filter (leaves x) e edges).0 (subst (In e) outs listed) in
            record {
              edge = e;
              listed = listed';
              source = (eq_iff e.source_key x).0 source;
              target = target;
            },
        λ j.
            let kept =
              (In-filter (leaves x) j.edge edges).1
                (j.listed, (eq_iff j.edge.source_key x).1 j.source) in
            back (
              rw (← j.target)
                  (targets_back (outgoing graph x) j.edge (subst (In j.edge) (sym outs) kept)),
              refl,
            ),
      )

  pub Joined-known : (x y : String) → Joined edges x y → In y (node_keys graph)
  unfolding workflow_graph node_keys
  Joined-known x y j =
      let (by_key, _, indexed) = >>=-eq-ok (index_nodes [] nodes) _ built in
      let (adjacency, linked, last) = >>=-eq-ok (index_edges by_key [] _ edges) _ indexed in
      let there = (ends_known by_key edges [] _ linked j.edge j.listed).1 in
      let same : graph.by_key ≡ by_key = ground arith in
      rw (same, ← j.target) (has→In j.edge.target_key by_key there)

-- ===== src/Graph/Model.antt =====
-- src/app/domain/graph/model.py: nodes, edges, and the graph with its adjacency precomputed.
-- `V` is the type of configuration values, which this code never looks into. `ValueError` is a
-- `GraphError` that says which of the constructor's checks refused.
pub mod Edges
use orqent.Base.{
  ℕ, String, List, [], ◌∷◌, ◌++◌, Option, none, some, Bool, false, ◌&&◌, ◌||◌, ◌==◌, if◌then◌else◌,
  ltb, length, is_nil, Dict, lookup, has, insert, keys, codes, strip, Result, ok, raise, ◌>>=◌,
}

abbrev pub max_node_key_length : ℕ
max_node_key_length = 64

pub record GraphNode (V : Type 0) : Type 0 where
  pub key : String
  pub node_type : String
  pub version : ℕ
  pub config : Dict V
  pub label : Option String

pub record GraphEdge : Type 0 where
  pub source_key : String
  pub source_handle : String
  pub target_key : String
  pub target_handle : String

pub data GraphError : Type 0 where
  blank_key : GraphError
  key_too_long : String → GraphError
  duplicate_key : String → GraphError
  unknown_source : String → GraphError
  unknown_target : String → GraphError
  duplicate_edge : GraphEdge → GraphError
  key_error : String → GraphError

-- Equality of the frozen dataclass.
abbrev pub edge_eq : GraphEdge → GraphEdge → Bool
edge_eq a b =
    (a.source_key == b.source_key)
    && (a.source_handle == b.source_handle)
    && (a.target_key == b.target_key)
    && (a.target_handle == b.target_handle)

-- `edge in seen_edges`
abbrev pub edge_mem : GraphEdge → List GraphEdge → Bool
edge_mem e [] = false
edge_mem e (x ∷ xs) = edge_eq e x || edge_mem e xs

pub record Adjacency : Type 0 where
  pub outgoing_of : Dict (List GraphEdge)
  pub incoming_of : Dict (List GraphEdge)

module _ {V : Type 0} where
  -- `GraphNode.__post_init__`: the node, if its key can be stored.
  unfoldable pub graph_node : GraphNode V → Result GraphError (GraphNode V)
  unfolding strip
  graph_node node =
      if is_nil (codes node.key) || is_nil (strip (codes node.key))
      then raise blank_key
      else if ltb max_node_key_length (length (codes node.key))
      then raise (key_too_long node.key)
      else ok node

  -- The first loop of `WorkflowGraph.__post_init__`.
  unfoldable pub index_nodes :
      Dict (GraphNode V) → List (GraphNode V) → Result GraphError (Dict (GraphNode V))
  index_nodes by_key [] = ok by_key
  index_nodes by_key (node ∷ nodes) =
      if has node.key by_key
      then raise (duplicate_key node.key)
      else index_nodes (insert node.key node by_key) nodes

-- `outgoing[key].append(edge)`
unfoldable pub push :
    String → GraphEdge → Dict (List GraphEdge) → Result GraphError (Dict (List GraphEdge))
push key edge d = elim (lookup key d) [
  | none ↦ raise (key_error key)
  | some edges ↦ ok (insert key (edges ++ edge ∷ []) d)
]

-- The body of the second loop, behind its guards.
unfoldable pub link : GraphEdge → Adjacency → Result GraphError Adjacency
link edge adjacency = do
  outgoing_of ← push edge.source_key edge adjacency.outgoing_of
  incoming_of ← push edge.target_key edge adjacency.incoming_of
  ok (record { outgoing_of = outgoing_of; incoming_of = incoming_of })

module _ {V : Type 0} where
  abbrev pub check_edge :
      Dict (GraphNode V) → List GraphEdge → GraphEdge → Result GraphError (Unit {0})
  check_edge by_key seen edge =
      if has edge.source_key by_key
      then if has edge.target_key by_key
        then if edge_mem edge seen then raise (duplicate_edge edge) else ok tt
        else raise (unknown_target edge.target_key)
      else raise (unknown_source edge.source_key)

  -- The second loop. `seen` holds the edges already linked, in order.
  unfoldable pub index_edges :
      Dict (GraphNode V) → List GraphEdge → Adjacency → List GraphEdge → Result GraphError Adjacency
  index_edges by_key seen adjacency [] = ok adjacency
  index_edges by_key seen adjacency (edge ∷ edges) = check_edge by_key seen edge >>= λ _.
      link edge adjacency >>= λ next. index_edges by_key (seen ++ edge ∷ []) next edges

  -- `{key: [] for key in by_key}`
  abbrev pub blank : Dict (GraphNode V) → Dict (List GraphEdge)
  blank [] = []
  blank ((key, _) ∷ d) = (key, []) ∷ blank d

pub record WorkflowGraph (V : Type 0) : Type 0 where
  pub nodes : List (GraphNode V)
  pub edges : List GraphEdge
  pub by_key : Dict (GraphNode V)
  pub adjacency : Adjacency

-- `self._outgoing.get(key, ())`
abbrev pub edges_at : Dict (List GraphEdge) → String → List GraphEdge
edges_at d key = elim (lookup key d) [ none ↦ [] | some edges ↦ edges ]

module _ {V : Type 0} where
  -- `WorkflowGraph.__post_init__`
  unfoldable pub workflow_graph :
      List (GraphNode V) → List GraphEdge → Result GraphError (WorkflowGraph V)
  workflow_graph nodes edges = do
    by_key ← index_nodes [] nodes
    adjacency ←
        index_edges by_key [] (record { outgoing_of = blank by_key; incoming_of = blank by_key })
          edges
    ok (record { nodes = nodes; edges = edges; by_key = by_key; adjacency = adjacency })

  unfoldable pub node : WorkflowGraph V → String → Option (GraphNode V)
  node graph key = lookup key graph.by_key

  unfoldable pub outgoing : WorkflowGraph V → String → List GraphEdge
  outgoing graph key = edges_at graph.adjacency.outgoing_of key

  unfoldable pub incoming : WorkflowGraph V → String → List GraphEdge
  incoming graph key = edges_at graph.adjacency.incoming_of key

  unfoldable pub node_keys : WorkflowGraph V → List String
  node_keys graph = keys graph.by_key

  -- `__len__`
  abbrev pub size : WorkflowGraph V → ℕ
  size graph = length graph.by_key

  -- `__contains__`
  abbrev pub contains : WorkflowGraph V → String → Bool
  contains graph key = has key graph.by_key

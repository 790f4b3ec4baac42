-- ===== src/Authoring/Tables.antt =====
-- The rows of a workflow's versions and their graphs:
-- src/app/infrastructure/repositories/workflow_version_repository.py over the models of
-- src/app/infrastructure/db/models. A table lists its rows by id, as inserted, so ORDER BY id is the
-- order of the list. `V` is the type of JSON values. Deleting a node deletes the registrations and
-- schedules that point at it (ON DELETE CASCADE).
pub mod Filters
pub mod Rejoined
pub mod Stored
use orqent.Base.{
  ℕ, suc, ◌+◌, String, List, [], ◌∷◌, ◌++◌, map, Option, none, some, Bool, true, false, not, ◌&&◌,
  ◌||◌, ◌==◌, if◌then◌else◌, eqb, length, filter, any, Dict, lookup, insert, Result, ok, raise,
  ◌>>=◌, find_row, update_rows, is_some,
}
use orqent.Graph.Model.{GraphNode, GraphEdge, GraphError, WorkflowGraph, graph_node, workflow_graph}
use orqent.Graph.Issues.{ValidationIssue}
use orqent.Graph.Cycles.{SearchError}
use orqent.Runs.Creation.{VersionStatus}
use orqent.Schedules.{Schedule}

pub record VersionRow : Type 0 where
  pub id : ℕ
  pub workflow_id : ℕ
  pub version_no : Option ℕ
  pub status : VersionStatus
  pub revision : ℕ
  pub notes : Option String
  pub created_by_user_id : Option ℕ
  pub published_at : Option ℕ

-- A node as authored, without the columns that its insertion fills.
pub record Authored (V : Type 0) : Type 0 where
  pub node_key : String
  pub node_type : String
  pub node_type_version : ℕ
  pub label : Option String
  pub config : Dict V
  pub ui_position : Dict V

pub record NodeRow (V : Type 0) : Type 0 where
  pub id : ℕ
  pub workflow_version_id : ℕ
  pub authored : Authored V

pub record EdgeRow : Type 0 where
  pub workflow_version_id : ℕ
  pub source_node_id : ℕ
  pub source_handle : String
  pub target_node_id : ℕ
  pub target_handle : String

pub record TriggerRegistration : Type 0 where
  pub organization_id : ℕ
  pub workflow_node_id : ℕ
  pub is_active : Bool
  pub token_digest : String

-- `creator` is the public id of the creator's row, if it is still there.
pub record WorkflowRow : Type 0 where
  pub id : ℕ
  pub public_id : String
  pub organization_id : ℕ
  pub name : String
  pub description : Option String
  pub creator : Option String
  pub active_version_id : Option ℕ
  pub deleted_at : Option ℕ

pub record UserRow : Type 0 where
  pub id : ℕ
  pub public_id : String
  pub organization_id : ℕ

pub data AuthoringError : Type 0 where
  authentication not_found authorization conflict integrity no_row : AuthoringError
  key_error : String → AuthoringError
  bad_graph : GraphError → AuthoringError
  search : SearchError → AuthoringError
  invalid : List ValidationIssue → AuthoringError
  bad_schedule : AuthoringError

pub record Tables (V : Type 0) : Type 0 where
  pub users : List UserRow
  pub workflows : List WorkflowRow
  pub versions : List VersionRow
  pub nodes : List (NodeRow V)
  pub edges : List EdgeRow
  pub registrations : List TriggerRegistration
  pub schedules : List Schedule
  pub next_workflow_id : ℕ
  pub next_version_id : ℕ
  pub next_node_id : ℕ
  pub next_schedule_id : ℕ

-- The unique index over a version's edges.
abbrev pub same_ends : EdgeRow → EdgeRow → Bool
same_ends a b =
    eqb a.source_node_id b.source_node_id
    && (a.source_handle == b.source_handle)
    && eqb a.target_node_id b.target_node_id
    && (a.target_handle == b.target_handle)

abbrev pub repeated : {A : Type 0} → (A → A → Bool) → List A → Bool
repeated same [] = false
repeated same (x ∷ xs) = any (same x) xs || repeated same xs

abbrev pub id_at : String → Dict ℕ → Result AuthoringError ℕ
id_at key ids = elim (lookup key ids) [ none ↦ raise (key_error key) | some id ↦ ok id ]

abbrev pub edge_row : ℕ → ℕ → ℕ → GraphEdge → EdgeRow
edge_row version_id source target edge = record {
  workflow_version_id = version_id;
  source_node_id = source;
  source_handle = edge.source_handle;
  target_node_id = target;
  target_handle = edge.target_handle;
}

-- The rows of the edges, by the ids of the nodes.
unfoldable pub edge_rows : ℕ → Dict ℕ → List GraphEdge → Result AuthoringError (List EdgeRow)
edge_rows version_id ids [] = ok []
edge_rows version_id ids (edge ∷ edges) = id_at edge.source_key ids >>= λ source.
    id_at edge.target_key ids >>= λ target.
    edge_rows version_id ids edges >>= λ rows. ok (edge_row version_id source target edge ∷ rows)

abbrev pub has_version_id : ℕ → VersionRow → Bool
has_version_id id row = eqb row.id id

abbrev pub bumped : VersionRow → VersionRow
bumped row = record row { revision = suc row.revision }

module _ {V : Type 0} where
  abbrev pub of_version : ℕ → NodeRow V → Bool
  of_version version_id row = eqb row.workflow_version_id version_id

  abbrev pub has_node_id : ℕ → NodeRow V → Bool
  has_node_id id row = eqb row.id id

  abbrev pub same_node_key : Authored V → Authored V → Bool
  same_node_key a b = a.node_key == b.node_key

  -- The flush of the new nodes: ids are drawn in order.
  unfoldable pub inserted : ℕ → ℕ → List (Authored V) → List (NodeRow V)
  inserted version_id id [] = []
  inserted version_id id (node ∷ nodes) =
      record { id = id; workflow_version_id = version_id; authored = node }
      ∷ inserted version_id (suc id) nodes

  -- `{node.node_key: node.id for node in nodes}`
  unfoldable pub ids_of : Dict ℕ → List (NodeRow V) → Dict ℕ
  ids_of ids [] = ids
  ids_of ids (row ∷ rows) = ids_of (insert row.authored.node_key row.id ids) rows

  -- Whether a row of the nodes that are deleted is pointed at.
  abbrev pub goes_with : List (NodeRow V) → ℕ → Bool
  goes_with gone id = any (has_node_id id) gone

  unfoldable pub cleared : ℕ → Tables V → Tables V
  cleared version_id t =
      let gone = filter (of_version version_id) t.nodes in
      record t {
        edges = filter (λ (e : EdgeRow). not (eqb e.workflow_version_id version_id)) t.edges;
        nodes = filter (λ (n : NodeRow V). not (of_version version_id n)) t.nodes;
        registrations =
            filter (λ (r : TriggerRegistration). not (goes_with gone r.workflow_node_id))
              t.registrations;
        schedules = filter (λ (s : Schedule). not (goes_with gone s.workflow_node_id)) t.schedules;
      }

  unfoldable pub replace_graph :
      ℕ → List (Authored V) → List GraphEdge → Tables V → Result AuthoringError (Tables V)
  unfolding cleared inserted ids_of edge_rows
  replace_graph version_id nodes edges t =
      let rows = inserted version_id t.next_node_id nodes in
      if repeated same_node_key nodes
      then raise AuthoringError.integrity
      else edge_rows version_id (ids_of [] rows) edges >>= λ joins.
          let rest = cleared version_id t in
          if repeated same_ends joins
          then raise AuthoringError.integrity
          else ok (record rest {
            nodes = rest.nodes ++ rows;
            edges = rest.edges ++ joins;
            next_node_id = t.next_node_id + length nodes;
          })

  unfoldable pub nodes_of : ℕ → Tables V → List (NodeRow V)
  nodes_of version_id t = filter (of_version version_id) t.nodes

  abbrev pub as_graph_node : Authored V → GraphNode V
  as_graph_node node = record {
    key = node.node_key;
    node_type = node.node_type;
    version = node.node_type_version;
    config = node.config;
    label = node.label;
  }

  abbrev pub edge_between : NodeRow V → NodeRow V → EdgeRow → GraphEdge
  edge_between source target row = record {
    source_key = source.authored.node_key;
    source_handle = row.source_handle;
    target_key = target.authored.node_key;
    target_handle = row.target_handle;
  }

  -- The two joins of an edge with the nodes at its ends.
  unfoldable pub joined_edges : List (NodeRow V) → List EdgeRow → List GraphEdge
  joined_edges nodes [] = []
  joined_edges nodes (row ∷ rows) =
      let rest = joined_edges nodes rows in
      elim (find_row (has_node_id row.source_node_id) nodes) [
        | none ↦ rest
        | some source ↦ elim (find_row (has_node_id row.target_node_id) nodes) [
          | none ↦ rest
          | some target ↦ edge_between source target row ∷ rest
        ]
      ]

  unfoldable pub edges_of : ℕ → Tables V → List GraphEdge
  unfolding joined_edges
  edges_of version_id t =
      joined_edges t.nodes (filter (λ (e : EdgeRow). eqb e.workflow_version_id version_id) t.edges)

  -- `GraphNode(...)` for each row, whose constructor checks the key.
  unfoldable pub constructed : List (Authored V) → Result GraphError (List (GraphNode V))
  constructed [] = ok []
  constructed (node ∷ nodes) =
      graph_node (as_graph_node node) >>= λ made. constructed nodes >>= λ rest. ok (made ∷ rest)

  abbrev pub as_graph : List (Authored V) → List GraphEdge → Result AuthoringError (WorkflowGraph V)
  as_graph nodes edges = elim (constructed nodes >>= λ made. workflow_graph made edges) [
    | raise error ↦ raise (bad_graph error)
    | ok graph ↦ ok graph
  ]

  unfoldable pub load_graph : ℕ → Tables V → Result AuthoringError (WorkflowGraph V)
  unfolding nodes_of edges_of constructed
  load_graph version_id t =
      as_graph (map (λ (n : NodeRow V). n.authored) (nodes_of version_id t)) (edges_of version_id t)

  -- The UPDATE and the SELECT after it.
  unfoldable pub bump_revision : ℕ → Tables V → Result AuthoringError (ℕ × Tables V)
  bump_revision version_id t =
      let versions = update_rows (has_version_id version_id) bumped t.versions in
      elim (find_row (has_version_id version_id) versions) [
        | none ↦ raise AuthoringError.no_row
        | some row ↦ ok (row.revision, record t { versions = versions })
      ]

-- ===== src/Authoring/Drafts.antt =====
-- Drafts: src/app/services/workflow_service.py up to publishing. A use case is one transaction, from
-- the tables to what it returns and the new tables, or an error that leaves them as they were.
pub mod Copies
pub mod Saves
use orqent.Base.{
  ℕ, suc, ◌+◌, String, List, [], ◌∷◌, ◌++◌, map, Option, none, some, Bool, true, false, not, ◌&&◌,
  ◌==◌, if◌then◌else◌, eqb, Result, ok, raise, ◌>>=◌, find_row, is_some,
}
use orqent.Graph.Model.{GraphEdge, WorkflowGraph}
use orqent.Graph.Issues.{ValidationIssue}
use orqent.Graph.Validation.{Declaration, validate_graph}
use orqent.Runs.Creation.{VersionStatus}
use orqent.Authoring.Tables.{
  VersionRow, Authored, NodeRow, WorkflowRow, UserRow, AuthoringError, Tables, replace_graph,
  nodes_of, load_graph, bump_revision,
}

pub record AuthenticatedUser : Type 0 where
  pub public_id : String
  pub organization_id : String
  pub roles : List String

pub record GraphView (V : Type 0) : Type 0 where
  pub version : VersionRow
  pub nodes : List (Authored V)
  pub edges : List GraphEdge

abbrev pub is_draft : VersionStatus → Bool
is_draft VersionStatus.draft = true
is_draft _ = false

abbrev pub is_draft_of : ℕ → VersionRow → Bool
is_draft_of workflow_id row = eqb row.workflow_id workflow_id && is_draft row.status

abbrev pub is_live_workflow : String → ℕ → WorkflowRow → Bool
is_live_workflow public_id organization_id row =
    row.public_id == public_id
    && eqb row.organization_id organization_id
    && not (is_some row.deleted_at)

module _ {V : Type 0} where
  -- `_caller`
  unfoldable pub caller_of : AuthenticatedUser → Tables V → Result AuthoringError UserRow
  caller_of user t = elim (find_row (λ (u : UserRow). u.public_id == user.public_id) t.users) [
    | none ↦ raise AuthoringError.authentication
    | some row ↦ ok row
  ]

  -- `_workflow`
  unfoldable pub workflow_named : UserRow → String → Tables V → Result AuthoringError WorkflowRow
  workflow_named caller public_id t =
      elim (find_row (is_live_workflow public_id caller.organization_id) t.workflows) [
        | none ↦ raise AuthoringError.not_found
        | some row ↦ ok row
      ]

  -- The two lookups that every use case starts with.
  unfoldable pub opened :
      AuthenticatedUser → String → Tables V → Result AuthoringError (UserRow × WorkflowRow)
  unfolding caller_of workflow_named
  opened user public_id t = caller_of user t >>= λ caller.
      workflow_named caller public_id t >>= λ workflow. ok (caller, workflow)

  -- `WorkflowVersionRepository.get_draft`
  unfoldable pub find_draft : ℕ → Tables V → Option VersionRow
  find_draft workflow_id t = find_row (is_draft_of workflow_id) t.versions

  abbrev pub new_draft : WorkflowRow → UserRow → Tables V → VersionRow
  new_draft workflow caller t = record {
    id = t.next_version_id;
    workflow_id = workflow.id;
    version_no = none;
    status = VersionStatus.draft;
    revision = 1;
    notes = none;
    created_by_user_id = some caller.id;
    published_at = none;
  }

  abbrev pub with_draft : VersionRow → Tables V → Tables V
  with_draft draft t = record t {
    versions = t.versions ++ draft ∷ [];
    next_version_id = suc t.next_version_id;
  }

  -- The graph of the active version, for the new draft.
  unfoldable pub copy_graph : ℕ → ℕ → Tables V → Result AuthoringError (Tables V)
  copy_graph source_id draft_id t = load_graph source_id t >>= λ graph.
      replace_graph draft_id (map (λ (n : NodeRow V). n.authored) (nodes_of source_id t))
        graph.edges t

  -- `_ensure_draft`
  unfoldable pub ensure_draft :
      WorkflowRow → UserRow → Tables V → Result AuthoringError (VersionRow × Tables V)
  unfolding find_draft copy_graph
  ensure_draft workflow caller t = elim (find_draft workflow.id t) [
    | some draft ↦ ok (draft, t)
    | none ↦
        let draft = new_draft workflow caller t in
        elim workflow.active_version_id [
          | none ↦ ok (draft, with_draft draft t)
          | some source_id ↦
              copy_graph source_id draft.id (with_draft draft t) >>= λ t'. ok (draft, t')
        ]
  ]

  -- `_graph_view`
  unfoldable pub graph_view : VersionRow → Tables V → Result AuthoringError (GraphView V)
  graph_view version t = load_graph version.id t >>= λ graph. ok (record {
    version = version;
    nodes = map (λ (n : NodeRow V). n.authored) (nodes_of version.id t);
    edges = graph.edges;
  })

  unfoldable pub get_draft :
      AuthenticatedUser → String → Tables V → Result AuthoringError (GraphView V × Tables V)
  unfolding opened ensure_draft graph_view
  get_draft user public_id t = opened user public_id t >>= λ c.
      let (caller, workflow) = c in
      ensure_draft workflow caller t >>= λ d. graph_view d.0 d.1 >>= λ view. ok (view, d.1)

  unfoldable pub replace_draft :
      AuthenticatedUser
      → String
      → ℕ
      → List (Authored V)
      → List GraphEdge
      → Tables V
      → Result AuthoringError (GraphView V × Tables V)
  unfolding opened ensure_draft bump_revision
  replace_draft user public_id revision nodes edges t = opened user public_id t >>= λ c.
      ensure_draft c.1 c.0 t >>= λ d.
      if not (eqb d.0.revision revision)
      then raise AuthoringError.conflict
      else replace_graph d.0.id nodes edges d.1 >>= λ t'. bump_revision d.0.id t' >>= λ b.
          ok (record { version = record d.0 { revision = b.0 }; nodes = nodes; edges = edges }, b.1)

  unfoldable pub validate_draft :
      (String → ℕ → Option (Declaration V))
      → AuthenticatedUser
      → String
      → Tables V
      → Result AuthoringError (List ValidationIssue × Tables V)
  unfolding opened ensure_draft
  validate_draft find user public_id t = opened user public_id t >>= λ c.
      ensure_draft c.1 c.0 t >>= λ d. load_graph d.0.id d.1 >>= λ graph.
      elim (validate_graph graph find) [
        | raise error ↦ raise (AuthoringError.search error)
        | ok report ↦ ok (report, d.1)
      ]

-- ===== src/Authoring/Publications.antt =====
-- What a publication that returns means for the workflow.
use orqent.Base.{ℕ, suc, ◌<◌, ◌⊎◌, String, map, Option, none, some, true, In, ◌≡◌, update_rows}
use orqent.Graph.Validation.{Declaration}
use orqent.Graph.Validation.Rules.{Publishable}
use orqent.Authoring.Tables.{
  VersionRow, NodeRow, WorkflowRow, Tables, nodes_of, load_graph, edges_of, as_graph_node,
}
use orqent.Runs.Creation.{VersionStatus}
use orqent.Authoring.Drafts.{AuthenticatedUser, find_draft}
use orqent.Authoring.Publishing.{may_publish, pointed_at, has_workflow_id}

-- What is promised of a publication by a user, from some tables to others.
pub record IsPublication {V : Type 0} (find : String → ℕ → Option (Declaration V))
    (user : AuthenticatedUser) (workflow : WorkflowRow) (t : Tables V) (version : VersionRow)
    (t' : Tables V) : Type 0 where
  pub permitted : may_publish workflow user ≡ true
  pub publishable :
      Publishable find
        (map as_graph_node (map (λ (n : NodeRow V). n.authored) (nodes_of version.id t)))
        (edges_of version.id t)
  pub unchanged : load_graph version.id t' ≡ load_graph version.id t
  pub listed : In version t'.versions
  pub is_published : version.status ≡ VersionStatus.published
  pub number : ℕ
  pub numbered : version.version_no ≡ some number
  pub newest :
      (v : VersionRow) (n : ℕ)
      → In v t.versions
      → v.workflow_id ≡ workflow.id
      → v.version_no ≡ some n
      → n < number
  pub follows :
      (number ≡ 1)
      ⊎ ((v : VersionRow) × (n : ℕ) × In v t.versions
          × (v.workflow_id ≡ workflow.id)
          × (v.version_no ≡ some n)
          × (number ≡ suc n))
  pub no_draft_left : find_draft workflow.id t' ≡ none
  pub active :
      t'.workflows ≡ update_rows (has_workflow_id workflow.id) (pointed_at version.id) t.workflows

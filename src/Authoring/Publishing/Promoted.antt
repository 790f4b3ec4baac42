-- ===== src/Authoring/Publishing/Promoted.antt =====
-- What a successful publication wrote.
use orqent.Base.{
  ℕ, String, List, [], ◌∷◌, map, Option, some, true, Dict, ok, >>=-eq-ok, ok-injective,
  Result-cases, update_rows, arith, ◌≡◌, sym, ap, ◌∙◌, inl, inr, Bool-cases, Option-cases,
}
use mathlib.Core.Path.{subst}
use orqent.Graph.Model.{GraphNode, WorkflowGraph, graph_node, workflow_graph}
use orqent.Graph.Validation.{Declaration, is_valid}
use orqent.Graph.Validation.Rules.{Publishable}
use orqent.Graph.Validation.Report.{validate_graph_lem}
use orqent.Schedules.{Clockwork}
use orqent.Authoring.Tables.{
  VersionRow, Authored, NodeRow, WorkflowRow, UserRow, Tables, constructed, has_version_id,
  nodes_of, load_graph, edges_of, as_graph, as_graph_node,
}
use orqent.Authoring.Drafts.{AuthenticatedUser, find_draft, opened}
use orqent.Authoring.Publishing.{
  PublishResult, may_publish, next_version_no, promoted, pointed_at, has_workflow_id,
  register_webhook_trigger, register_schedule_trigger, checked, promote, write_release, publish,
}
use orqent.Authoring.Publishing.Registered.{
  SameGraphs, register_webhook_trigger-SameGraphs, register_schedule_trigger-SameGraphs,
}

module _ {V : Type 0} where
  -- What the writes of a publication leave.
  pub record Written (workflow : WorkflowRow) (draft : VersionRow) (now : ℕ) (notes : Option String)
      (t t' : Tables V) : Type 0 where
    pub versions :
        t'.versions
        ≡ update_rows
            (has_version_id draft.id)
            (promoted (next_version_no workflow.id t) now notes)
            t.versions
    pub workflows :
        t'.workflows ≡ update_rows (has_workflow_id workflow.id) (pointed_at draft.id) t.workflows
    pub nodes : t'.nodes ≡ t.nodes
    pub edges : t'.edges ≡ t.edges
    pub next_version_id : t'.next_version_id ≡ t.next_version_id
    pub next_node_id : t'.next_node_id ≡ t.next_node_id

  promote-Written :
      (workflow : WorkflowRow) (draft : VersionRow) (now : ℕ) (notes : Option String)
      (t t2 t3 : Tables V)
      → SameGraphs (promote workflow draft now notes t) t2
      → SameGraphs t2 t3
      → Written workflow draft now notes t t3
  unfolding promote
  promote-Written workflow draft now notes t t2 t3 a b = record {
    versions = b.versions ∙ a.versions;
    workflows = b.workflows ∙ a.workflows;
    nodes = b.nodes ∙ a.nodes;
    edges = b.edges ∙ a.edges;
    next_version_id = b.next_version_id ∙ a.next_version_id;
    next_node_id = b.next_node_id ∙ a.next_node_id;
  }

  write_release-Written :
      (clockwork : Clockwork V (Dict V)) (workflow : WorkflowRow) (draft : VersionRow)
      (notes : Option String) (now : ℕ) (token digest : String) (t : Tables V)
      {result : PublishResult} {t' : Tables V}
      → write_release clockwork workflow draft notes now token digest t ≡ ok (result, t')
      → (result.version ≡ promoted (next_version_no workflow.id t) now notes draft)
        × Written workflow draft now notes t t'
  unfolding write_release
  write_release-Written clockwork workflow draft notes now token digest t {result} {t'} h =
      let (w, hooked, h3) =
        >>=-eq-ok
          (register_webhook_trigger workflow
            (nodes_of draft.id (promote workflow draft now notes t)) token digest
            (promote workflow draft now notes t))
          _ h in
      let (t3, scheduled, last) =
        >>=-eq-ok
          (register_schedule_trigger clockwork workflow
            (nodes_of draft.id (promote workflow draft now notes t)) now w.1)
          _ h3 in
      let both = ok-injective last in
      let a = register_webhook_trigger-SameGraphs workflow _ token digest _ hooked in
      let b = register_schedule_trigger-SameGraphs clockwork workflow _ now w.1 scheduled in
      (
        sym (ap (λ (q : PublishResult × Tables V). q.0.version) both),
        subst (Written workflow draft now notes t) (ap (λ (q : PublishResult × Tables V). q.1) both)
            (promote-Written workflow draft now notes t w.1 t3 a b),
      )

  -- What a publication that returns has read and written.
  pub record Released (find : String → ℕ → Option (Declaration V)) (user : AuthenticatedUser)
      (public_id : String) (now : ℕ) (notes : Option String) (t : Tables V) (result : PublishResult)
      (t' : Tables V) : Type 0 where
    pub caller : UserRow
    pub workflow : WorkflowRow
    pub opening : opened user public_id t ≡ ok (caller, workflow)
    pub permitted : may_publish workflow user ≡ true
    pub draft : VersionRow
    pub found : find_draft workflow.id t ≡ some draft
    pub validated : checked find draft t ≡ ok tt
    pub returned : result.version ≡ promoted (next_version_no workflow.id t) now notes draft
    pub written : Written workflow draft now notes t t'

  pub publish-Released :
      (find : String → ℕ → Option (Declaration V)) (clockwork : Clockwork V (Dict V))
      (user : AuthenticatedUser) (public_id : String) (notes : Option String) (now : ℕ)
      (token digest : String) (t : Tables V) {result : PublishResult} {t' : Tables V}
      → publish find clockwork user public_id notes now token digest t ≡ ok (result, t')
      → Released find user public_id now notes t result t'
  unfolding publish
  publish-Released find clockwork user public_id notes now token digest t {result} {t'} h =
      let ((caller, workflow), opening, h1) = >>=-eq-ok (opened user public_id t) _ h in
      elim (Bool-cases (may_publish workflow user)) [
        | inr e ↦ cc (rw e at h1)
        | inl may ↦ elim (Option-cases (find_draft workflow.id t)) [
          | inl e ↦ cc (rw (may, e) at h1)
          | inr (draft, found) ↦
              let (u, validated, h2) = >>=-eq-ok (checked find draft t) _ (rw (may, found) at h1) in
              let (returned, written) =
                write_release-Written clockwork workflow draft notes now token digest t h2 in
              record {
                caller = caller;
                workflow = workflow;
                opening = opening;
                permitted = may;
                draft = draft;
                found = found;
                validated = validated;
                returned = returned;
                written = written;
              }
        ]
      ]

  -- The constructor of a node returns what it was given.
  constructed-ok :
      (nodes : List (Authored V)) {made : List (GraphNode V)}
      → constructed nodes ≡ ok made
      → made ≡ map as_graph_node nodes
  unfolding constructed graph_node
  constructed-ok [] h = ground arith
  constructed-ok (node ∷ nodes) h =
      let (first, checked_first, h1) = >>=-eq-ok (graph_node (as_graph_node node)) _ h in
      let (rest, later, last) = >>=-eq-ok (constructed nodes) _ h1 in
      let same : first ≡ as_graph_node node = ground arith in
      let others = constructed-ok nodes later in
      sym (ok-injective last)
      ∙ (ap (λ g. g ∷ rest) same ∙ ap (λ gs. as_graph_node node ∷ gs) others)

  pub load_graph-built :
      (version_id : ℕ) (t : Tables V) {graph : WorkflowGraph V}
      → load_graph version_id t ≡ ok graph
      → workflow_graph
          (map as_graph_node (map (λ (n : NodeRow V). n.authored) (nodes_of version_id t)))
          (edges_of version_id t)
        ≡ ok graph
  unfolding load_graph
  load_graph-built version_id t {graph} h =
      let authored = map (λ (n : NodeRow V). n.authored) (nodes_of version_id t) in
      elim (Result-cases (constructed authored)) [
        | inl (e, bad) ↦ cc (rw (bad, load_graph, as_graph) at h)
        | inr (made, fine) ↦
            let same = constructed-ok authored fine in
            elim (Result-cases (workflow_graph made (edges_of version_id t))) [
              | inl (e, bad) ↦ cc (rw (fine, bad, load_graph, as_graph) at h)
              | inr (graph', built) ↦
                  let agree = rw (fine, built, load_graph, as_graph) at h in
                  subst (λ gs. workflow_graph gs (edges_of version_id t) ≡ ok graph) same
                    (built ∙ ap ok (ok-injective agree))
            ]
      ]

  -- A draft that passes the check is a graph that keeps the rules.
  pub checked-Publishable :
      (find : String → ℕ → Option (Declaration V)) (draft : VersionRow) (t : Tables V)
      → checked find draft t ≡ ok tt
      → Publishable find
          (map as_graph_node (map (λ (n : NodeRow V). n.authored) (nodes_of draft.id t)))
          (edges_of draft.id t)
  unfolding checked
  checked-Publishable find draft t h =
      let (graph, loaded, h1) = >>=-eq-ok (load_graph draft.id t) _ h in
      let (report, reported, exact) =
        validate_graph_lem find _ _ (load_graph-built draft.id t loaded) in
      elim (Bool-cases (is_valid report)) [
        | inl valid ↦ exact.0 valid
        | inr broken ↦ cc (rw (reported, broken) at h1)
      ]

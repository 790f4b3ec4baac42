-- ===== src/Authoring/Histories.antt =====
-- The use cases that write, one after another: what they keep of the versions.
use orqent.Base.{
  ℕ, String, List, Option, eqb, Dict, ok, >>=-eq-ok, ok-injective, find_row, Result-cases, ◌≡◌,
  refl, ap, ◌∙◌, inl, inr, Bool-cases,
}
use mathlib.Core.Path.{subst}
use orqent.Graph.Model.{GraphEdge}
use orqent.Graph.Issues.{ValidationIssue}
use orqent.Graph.Validation.{Declaration, validate_graph}
use orqent.Schedules.{Clockwork}
use orqent.Authoring.Tables.{Authored, Tables, replace_graph, load_graph, bump_revision}
use orqent.Authoring.Tables.Stored.{replace_graph-SameRows}
use orqent.Authoring.Drafts.{
  AuthenticatedUser, caller_of, GraphView, is_draft_of, find_draft, ensure_draft, opened,
  graph_view, get_draft, replace_draft, validate_draft,
}
use orqent.Authoring.Drafts.Copies.{ensure_draft-Drafted}
use orqent.Authoring.Workflows.{
  WorkflowView, changes_name, check_name, reject_duplicate_name, create, update_metadata,
  soft_delete,
}
use orqent.Authoring.Publishing.{PublishResult, publish}
use orqent.Authoring.Publishing.Promoted.{publish-Released}
use orqent.Authoring.Keeping.{
  untouched-Kept, IsAuthored, Kept, Kept-trans, Drafted-Kept, bump-Kept, replaced-Kept,
  promoted-Kept,
}

-- The use cases that commit, in any order, by any users.
module _ {V : Type 0} (find : String → ℕ → Option (Declaration V))
    (clockwork : Clockwork V (Dict V)) where
  pub data Edits (s : Tables V) : Tables V → Type 0 where
    start : Edits s s
    read :
        {t t' : Tables V} {view : GraphView V} (user : AuthenticatedUser) (public_id : String)
        → Edits s t
        → get_draft user public_id t ≡ ok (view, t')
        → Edits s t'
    saved :
        {t t' : Tables V} {view : GraphView V} (user : AuthenticatedUser) (public_id : String)
        (revision : ℕ) (nodes : List (Authored V)) (edges : List GraphEdge)
        → Edits s t
        → replace_draft user public_id revision nodes edges t ≡ ok (view, t')
        → Edits s t'
    validated :
        {t t' : Tables V} {report : List ValidationIssue} (user : AuthenticatedUser)
        (public_id : String)
        → Edits s t
        → validate_draft find user public_id t ≡ ok (report, t')
        → Edits s t'
    created :
        {t t' : Tables V} {view : WorkflowView} (user : AuthenticatedUser) (name : String)
        (description : Option String) (public_id : String)
        → Edits s t
        → create user name description public_id t ≡ ok (view, t')
        → Edits s t'
    described :
        {t t' : Tables V} {view : WorkflowView} (user : AuthenticatedUser) (public_id : String)
        (name description : Option String)
        → Edits s t
        → update_metadata user public_id name description t ≡ ok (view, t')
        → Edits s t'
    deleted :
        {t t' : Tables V} (user : AuthenticatedUser) (public_id : String) (now : ℕ)
        → Edits s t
        → soft_delete user public_id now t ≡ ok (tt, t')
        → Edits s t'
    released :
        {t t' : Tables V} {result : PublishResult} (user : AuthenticatedUser) (public_id : String)
        (notes : Option String) (now : ℕ) (token digest : String)
        → Edits s t
        → publish find clockwork user public_id notes now token digest t ≡ ok (result, t')
        → Edits s t'

  get_draft-Kept :
      (user : AuthenticatedUser) (public_id : String) (t : Tables V) {view : GraphView V}
      {t' : Tables V}
      → IsAuthored t
      → get_draft user public_id t ≡ ok (view, t')
      → Kept t t'
  unfolding get_draft
  get_draft-Kept user public_id t h e =
      let ((caller, workflow), _, e1) = >>=-eq-ok (opened user public_id t) _ e in
      let ((draft, t1), drafted, e2) = >>=-eq-ok (ensure_draft workflow caller t) _ e1 in
      let (view', _, last) = >>=-eq-ok (graph_view draft t1) _ e2 in
      let d = ensure_draft-Drafted workflow caller t h.sound h.keyed drafted in
      subst (Kept t) (ap (λ (q : GraphView V × Tables V). q.1) (ok-injective last))
        (Drafted-Kept workflow t t1 draft d h)

  validate_draft-Kept :
      (user : AuthenticatedUser) (public_id : String) (t : Tables V) {report : List ValidationIssue}
      {t' : Tables V}
      → IsAuthored t
      → validate_draft find user public_id t ≡ ok (report, t')
      → Kept t t'
  unfolding validate_draft
  validate_draft-Kept user public_id t h e =
      let ((caller, workflow), _, e1) = >>=-eq-ok (opened user public_id t) _ e in
      let ((draft, t1), drafted, e2) = >>=-eq-ok (ensure_draft workflow caller t) _ e1 in
      let (graph, _, e3) = >>=-eq-ok (load_graph draft.id t1) _ e2 in
      let d = ensure_draft-Drafted workflow caller t h.sound h.keyed drafted in
      elim (Result-cases (validate_graph graph find)) [
        | inl (error, f) ↦ cc (rw f at e3)
        | inr (report', f) ↦
            subst (Kept t)
              (ap (λ (q : List ValidationIssue × Tables V). q.1) (ok-injective (rw f at e3)))
              (Drafted-Kept workflow t t1 draft d h)
      ]

  replace_draft-Kept :
      (user : AuthenticatedUser) (public_id : String) (revision : ℕ) (nodes : List (Authored V))
      (edges : List GraphEdge) (t : Tables V) {view : GraphView V} {t' : Tables V}
      → IsAuthored t
      → replace_draft user public_id revision nodes edges t ≡ ok (view, t')
      → Kept t t'
  unfolding replace_draft find_draft
  replace_draft-Kept user public_id revision nodes edges t h e =
      let ((caller, workflow), _, e1) = >>=-eq-ok (opened user public_id t) _ e in
      let ((draft, t1), drafted, e2) = >>=-eq-ok (ensure_draft workflow caller t) _ e1 in
      let d = ensure_draft-Drafted workflow caller t h.sound h.keyed drafted in
      let k1 = Drafted-Kept workflow t t1 draft d h in
      elim (Bool-cases (eqb draft.revision revision)) [
        | inr stale ↦ cc (rw stale at e2)
        | inl fresh ↦
            let (t2, replaced, e3) =
              >>=-eq-ok (replace_graph draft.id nodes edges t1) _ (rw fresh at e2) in
            let ((n, t3), bumped_to, last) = >>=-eq-ok (bump_revision draft.id t2) _ e3 in
            let k2 = replaced-Kept workflow.id draft nodes edges t1 k1.authored d.found replaced in
            let same = replace_graph-SameRows draft.id nodes edges t1 replaced in
            let found = ap (find_row (is_draft_of workflow.id)) same.versions ∙ d.found in
            let k3 = bump-Kept workflow.id n draft t2 k2.authored found bumped_to in
            subst (Kept t) (ap (λ (q : GraphView V × Tables V). q.1) (ok-injective last))
              (Kept-trans t t1 t3 k1 (Kept-trans t1 t2 t3 k2 k3))
      ]

  publish-Kept :
      (user : AuthenticatedUser) (public_id : String) (notes : Option String) (now : ℕ)
      (token digest : String) (t : Tables V) {result : PublishResult} {t' : Tables V}
      → IsAuthored t
      → publish find clockwork user public_id notes now token digest t ≡ ok (result, t')
      → Kept t t'
  publish-Kept user public_id notes now token digest t {t' = t'} h e =
      let r = publish-Released find clockwork user public_id notes now token digest t e in
      promoted-Kept r.workflow r.draft now notes t t' h r.found r.written

  create-Kept :
      (user : AuthenticatedUser) (name : String) (description : Option String) (public_id : String)
      (t : Tables V) {view : WorkflowView} {t' : Tables V}
      → IsAuthored t
      → create user name description public_id t ≡ ok (view, t')
      → Kept t t'
  unfolding create
  create-Kept user name description public_id t h e =
      let (caller, _, e1) = >>=-eq-ok (caller_of user t) _ e in
      let (_, _, last) = >>=-eq-ok (reject_duplicate_name caller.organization_id name t) _ e1 in
      subst (Kept t) (ap (λ (q : WorkflowView × Tables V). q.1) (ok-injective last))
        (untouched-Kept t _ refl refl refl refl refl h)

  update_metadata-Kept :
      (user : AuthenticatedUser) (public_id : String) (name description : Option String)
      (t : Tables V) {view : WorkflowView} {t' : Tables V}
      → IsAuthored t
      → update_metadata user public_id name description t ≡ ok (view, t')
      → Kept t t'
  unfolding update_metadata
  update_metadata-Kept user public_id name description t h e =
      let ((caller, workflow), _, e1) = >>=-eq-ok (opened user public_id t) _ e in
      let (_, _, last) = >>=-eq-ok (check_name (changes_name name workflow) caller t) _ e1 in
      subst (Kept t) (ap (λ (q : WorkflowView × Tables V). q.1) (ok-injective last))
        (untouched-Kept t _ refl refl refl refl refl h)

  soft_delete-Kept :
      (user : AuthenticatedUser) (public_id : String) (now : ℕ) (t : Tables V) {t' : Tables V}
      → IsAuthored t
      → soft_delete user public_id now t ≡ ok (tt, t')
      → Kept t t'
  unfolding soft_delete
  soft_delete-Kept user public_id now t h e =
      let ((caller, workflow), _, last) = >>=-eq-ok (opened user public_id t) _ e in
      subst (Kept t) (ap (λ (q : Unit {0} × Tables V). q.1) (ok-injective last))
        (untouched-Kept t _ refl refl refl refl refl h)

  -- After any use cases that create, describe or delete workflows, or that read, save, validate or
  -- publish drafts, a workflow has at most one draft and no two versions of it have the same number,
  -- and the ids, counters and edges stay consistent. A version that was published before them has the
  -- row that it had, and its graph reads as it did. The tables at the start are consistent in that
  -- sense.
  pub Edits-Kept : {s t : Tables V} → IsAuthored s → Edits s t → Kept s t
  Edits-Kept {s} h start = record { authored = h; frozen = λ v m p. (m, refl) }
  Edits-Kept {s} h (read {t} {t'} user public_id before e) =
      let k = Edits-Kept h before in
      Kept-trans s t t' k (get_draft-Kept user public_id t k.authored e)
  Edits-Kept {s} h (saved {t} {t'} user public_id revision nodes edges before e) =
      let k = Edits-Kept h before in
      Kept-trans s t t' k (replace_draft-Kept user public_id revision nodes edges t k.authored e)
  Edits-Kept {s} h (validated {t} {t'} user public_id before e) =
      let k = Edits-Kept h before in
      Kept-trans s t t' k (validate_draft-Kept user public_id t k.authored e)
  Edits-Kept {s} h (released {t} {t'} user public_id notes now token digest before e) =
      let k = Edits-Kept h before in
      Kept-trans s t t' k (publish-Kept user public_id notes now token digest t k.authored e)
  Edits-Kept {s} h (created {t} {t'} user name description public_id before e) =
      let k = Edits-Kept h before in
      Kept-trans s t t' k (create-Kept user name description public_id t k.authored e)
  Edits-Kept {s} h (described {t} {t'} user public_id name description before e) =
      let k = Edits-Kept h before in
      Kept-trans s t t' k (update_metadata-Kept user public_id name description t k.authored e)
  Edits-Kept {s} h (deleted {t} {t'} user public_id now before e) =
      let k = Edits-Kept h before in
      Kept-trans s t t' k (soft_delete-Kept user public_id now t k.authored e)

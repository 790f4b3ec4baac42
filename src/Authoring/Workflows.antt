-- ===== src/Authoring/Workflows.antt =====
-- Creating, describing and deleting workflows: the rest of src/app/services/workflow_service.py that
-- writes, over src/app/infrastructure/repositories/workflow_repository.py. The public id that is drawn is an
-- argument. The unique index over live names is what `name_exists` asks for first.
use orqent.Base.{
  ℕ, suc, String, [], ◌∷◌, ◌++◌, Option, none, some, Bool, false, not, ◌&&◌, ◌==◌, if◌then◌else◌,
  eqb, any, is_some, Result, ok, raise, ◌>>=◌, find_row, update_rows,
}
use orqent.Authoring.Tables.{WorkflowRow, UserRow, AuthoringError, Tables, has_version_id}
use orqent.Authoring.Drafts.{AuthenticatedUser, caller_of, opened, find_draft}
use orqent.Authoring.Publishing.{may_publish, has_workflow_id}

pub record WorkflowView : Type 0 where
  pub workflow : WorkflowRow
  pub active_version_no : Option ℕ
  pub has_unpublished_changes : Bool
  pub can_publish : Bool

-- `name_active`: the name, if the workflow is not deleted.
abbrev pub uses_name : ℕ → String → WorkflowRow → Bool
uses_name organization_id name row =
    eqb row.organization_id organization_id && not (is_some row.deleted_at) && row.name == name

-- What `update_metadata` assigns.
abbrev pub renamed : Option String → WorkflowRow → WorkflowRow
renamed none row = row
renamed (some name) row = record row { name = name }

abbrev pub described_as : Option String → WorkflowRow → WorkflowRow
described_as none row = row
described_as (some text) row = record row { description = some text }

-- Whether a rename has to be checked.
abbrev pub changes_name : Option String → WorkflowRow → Option String
changes_name none row = none
changes_name (some name) row = if name == row.name then none else some name

module _ {V : Type 0} where
  -- `WorkflowRepository.name_exists` behind `_reject_duplicate_name`
  unfoldable pub reject_duplicate_name : ℕ → String → Tables V → Result AuthoringError (Unit {0})
  reject_duplicate_name organization_id name t =
      if any (uses_name organization_id name) t.workflows
      then raise AuthoringError.conflict
      else ok tt

  -- `_summarize` for one row
  unfoldable pub active_no : WorkflowRow → Tables V → Option ℕ
  active_no workflow t = elim workflow.active_version_id [
    | none ↦ none
    | some id ↦ elim (find_row (has_version_id id) t.versions) [
      | none ↦ none
      | some version ↦ version.version_no
    ]
  ]

  -- `_detail`
  unfoldable pub detail : WorkflowRow → AuthenticatedUser → Tables V → WorkflowView
  unfolding active_no find_draft may_publish
  detail workflow user t = record {
    workflow = workflow;
    active_version_no = active_no workflow t;
    has_unpublished_changes = is_some (find_draft workflow.id t);
    can_publish = may_publish workflow user;
  }

  -- `WorkflowService.create`
  unfoldable pub create :
      AuthenticatedUser
      → String
      → Option String
      → String
      → Tables V
      → Result AuthoringError (WorkflowView × Tables V)
  unfolding caller_of reject_duplicate_name may_publish
  create user name description public_id t = caller_of user t >>= λ caller.
      reject_duplicate_name caller.organization_id name t >>= λ _.
      let workflow : WorkflowRow = record {
        id = t.next_workflow_id;
        public_id = public_id;
        organization_id = caller.organization_id;
        name = name;
        description = description;
        creator = some caller.public_id;
        active_version_id = none;
        deleted_at = none;
      } in
      ok (
        record {
          workflow = workflow;
          active_version_no = none;
          has_unpublished_changes = false;
          can_publish = may_publish workflow user;
        },
        record t {
          workflows = t.workflows ++ workflow ∷ [];
          next_workflow_id = suc t.next_workflow_id;
        },
      )

  -- The check of a new name.
  abbrev pub check_name : Option String → UserRow → Tables V → Result AuthoringError (Unit {0})
  check_name none caller t = ok tt
  check_name (some name) caller t = reject_duplicate_name caller.organization_id name t

  -- `WorkflowService.update_metadata`
  unfoldable pub update_metadata :
      AuthenticatedUser
      → String
      → Option String
      → Option String
      → Tables V
      → Result AuthoringError (WorkflowView × Tables V)
  unfolding opened reject_duplicate_name detail
  update_metadata user public_id name description t = opened user public_id t >>= λ c.
      check_name (changes_name name c.1) c.0 t >>= λ _.
      let change = λ (row : WorkflowRow). described_as description (renamed name row) in
      ok (
        detail (change c.1) user t,
        record t { workflows = update_rows (has_workflow_id c.1.id) change t.workflows },
      )

  -- `WorkflowService.soft_delete`
  unfoldable pub soft_delete :
      AuthenticatedUser → String → ℕ → Tables V → Result AuthoringError (Unit {0} × Tables V)
  unfolding opened
  soft_delete user public_id now t = opened user public_id t >>= λ c. ok (
    tt,
    record t {
      workflows =
          update_rows (has_workflow_id c.1.id)
            (λ (row : WorkflowRow). record row { deleted_at = some now }) t.workflows;
    },
  )

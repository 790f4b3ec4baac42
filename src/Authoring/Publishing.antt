-- ===== src/Authoring/Publishing.antt =====
-- Publishing: `publish` of src/app/services/workflow_service.py with the registrations of triggers, and
-- src/app/infrastructure/repositories/trigger_registration_repository.py. The token that is drawn and its
-- digest are arguments, and so is the moment. The unique indexes of the versions are not tested here:
-- Authoring/Publishing/Numbers.antt says what they ask of the rows.
pub mod Numbers
pub mod Registered
pub mod Promoted
use orqent.Base.{
  ℕ, suc, ◌+◌, max, String, List, [], ◌∷◌, ◌++◌, map, Option, none, some, Bool, true, false, not,
  ◌&&◌, ◌||◌, ◌==◌, if◌then◌else◌, eqb, any, filter, mem, Dict, Result, ok, raise, ◌>>=◌, find_row,
  update_rows, is_some,
}
use orqent.Graph.Model.{GraphEdge, WorkflowGraph}
use orqent.Graph.Issues.{ValidationIssue, is_error}
use orqent.Graph.Validation.{Declaration, validate_graph, is_valid}
use orqent.Runs.Creation.{VersionStatus}
use orqent.Schedules.{Schedule, Clockwork, has_schedule_id}
use orqent.Authoring.Tables.{
  VersionRow, NodeRow, WorkflowRow, TriggerRegistration, AuthoringError, Tables, has_version_id,
  has_node_id, nodes_of, load_graph,
}
use orqent.Authoring.Drafts.{AuthenticatedUser, find_draft, opened}

pub record PublishResult : Type 0 where
  pub version : VersionRow
  pub webhook_token : Option String

-- `_may_publish`
unfoldable pub may_publish : WorkflowRow → AuthenticatedUser → Bool
may_publish workflow user =
    mem "owner" user.roles
    || mem "admin" user.roles
    || (elim workflow.creator [ none ↦ false | some creator ↦ creator == user.public_id ])

-- `max(numbers, default=0)` over the versions of a workflow.
unfoldable pub largest_no : ℕ → List VersionRow → ℕ
largest_no workflow_id [] = 0
largest_no workflow_id (row ∷ rows) =
    let rest = largest_no workflow_id rows in
    if eqb row.workflow_id workflow_id
    then (elim row.version_no [ none ↦ rest | some n ↦ max n rest ])
    else rest

abbrev pub promoted : ℕ → ℕ → Option String → VersionRow → VersionRow
promoted number now notes row = record row {
  status = VersionStatus.published;
  version_no = some number;
  published_at = some now;
  notes = elim notes [ none ↦ row.notes | some text ↦ some text ];
}

abbrev pub pointed_at : ℕ → WorkflowRow → WorkflowRow
pointed_at version_id row = record row { active_version_id = some version_id }

abbrev pub has_workflow_id : ℕ → WorkflowRow → Bool
has_workflow_id id row = eqb row.id id

abbrev pub has_token : String → TriggerRegistration → Bool
has_token digest row = row.token_digest == digest

module _ {V : Type 0} where
  -- `_next_version_no`
  unfoldable pub next_version_no : ℕ → Tables V → ℕ
  unfolding largest_no
  next_version_no workflow_id t = suc (largest_no workflow_id t.versions)

  -- The joins of `get_for_workflow`: a node of a version of the workflow.
  unfoldable pub node_belongs : Tables V → ℕ → ℕ → Bool
  node_belongs t workflow_id node_id = elim (find_row (has_node_id node_id) t.nodes) [
    | none ↦ false
    | some node ↦ elim (find_row (has_version_id node.workflow_version_id) t.versions) [
      | none ↦ false
      | some version ↦ eqb version.workflow_id workflow_id
    ]
  ]

  abbrev pub has_type : String → NodeRow V → Bool
  has_type node_type row = row.authored.node_type == node_type

  abbrev pub registered_for : Tables V → WorkflowRow → TriggerRegistration → Bool
  registered_for t workflow row =
      node_belongs t workflow.id row.workflow_node_id
      && eqb row.organization_id workflow.organization_id

  abbrev pub scheduled_for : Tables V → WorkflowRow → Schedule → Bool
  scheduled_for t workflow row =
      node_belongs t workflow.id row.workflow_node_id
      && eqb row.organization_id workflow.organization_id

  abbrev pub add_registration : TriggerRegistration → Tables V → Result AuthoringError (Tables V)
  add_registration row t =
      if any (has_token row.token_digest) t.registrations
      then raise AuthoringError.integrity
      else ok (record t { registrations = t.registrations ++ row ∷ [] })

  -- `_register_webhook_trigger`
  unfoldable pub register_webhook_trigger :
      WorkflowRow
      → List (NodeRow V)
      → String
      → String
      → Tables V
      → Result AuthoringError (Option String × Tables V)
  unfolding node_belongs
  register_webhook_trigger workflow nodes token digest t =
      elim (find_row (has_type "trigger.webhook") nodes) [
        | none ↦ ok (none, t)
        | some hook ↦ elim (find_row (registered_for t workflow) t.registrations) [
          | some existing ↦ ok (
            none,
            record t {
              registrations =
                  update_rows (has_token existing.token_digest)
                    (λ (r : TriggerRegistration). record r { workflow_node_id = hook.id })
                    t.registrations;
            },
          )
          | none ↦
              add_registration
                (record {
                  organization_id = workflow.organization_id;
                  workflow_node_id = hook.id;
                  is_active = true;
                  token_digest = digest;
                })
                t
              >>= λ t'. ok (some token, t')
        ]
      ]

  -- `next_occurrence` of the trigger's validated configuration.
  abbrev pub due_after : Clockwork V (Dict V) → Dict V → ℕ → Result AuthoringError ℕ
  due_after clockwork config now = elim (clockwork.cron_of config) [
    | none ↦ raise AuthoringError.bad_schedule
    | some cron ↦ elim (clockwork.get_next cron now) [
      | none ↦ raise AuthoringError.bad_schedule
      | some due ↦ ok due
    ]
  ]

  abbrev pub add_schedule : Schedule → Tables V → Result AuthoringError (Tables V)
  add_schedule row t =
      if any (λ (s : Schedule). eqb s.workflow_node_id row.workflow_node_id) t.schedules
      then raise AuthoringError.integrity
      else ok (record t {
        schedules = t.schedules ++ row ∷ [];
        next_schedule_id = suc t.next_schedule_id;
      })

  -- `_register_schedule_trigger`
  unfoldable pub register_schedule_trigger :
      Clockwork V (Dict V)
      → WorkflowRow
      → List (NodeRow V)
      → ℕ
      → Tables V
      → Result AuthoringError (Tables V)
  unfolding node_belongs
  register_schedule_trigger clockwork workflow nodes now t =
      elim (find_row (has_type "trigger.schedule") nodes) [
        | none ↦ ok t
        | some trigger ↦ due_after clockwork trigger.authored.config now >>= λ due.
            elim (find_row (scheduled_for t workflow) t.schedules) [
              | some existing ↦ ok (record t {
                schedules =
                    update_rows (has_schedule_id existing.id)
                      (λ (s : Schedule). record s {
                        workflow_node_id = trigger.id;
                        next_run_at = due;
                      })
                      t.schedules;
              })
              | none ↦
                  add_schedule
                    (record {
                      id = t.next_schedule_id;
                      organization_id = workflow.organization_id;
                      workflow_node_id = trigger.id;
                      next_run_at = due;
                    })
                    t
            ]
      ]

  -- The validation that stands before every write.
  unfoldable pub checked :
      (String → ℕ → Option (Declaration V))
      → VersionRow
      → Tables V
      → Result AuthoringError (Unit {0})
  checked find draft t = load_graph draft.id t >>= λ graph. elim (validate_graph graph find) [
    | raise error ↦ raise (AuthoringError.search error)
    | ok report ↦
        if is_valid report then ok tt else raise (AuthoringError.invalid (filter is_error report))
  ]

  -- The writes on the version and on its workflow.
  unfoldable pub promote : WorkflowRow → VersionRow → ℕ → Option String → Tables V → Tables V
  unfolding next_version_no
  promote workflow draft now notes t = record t {
    versions =
        update_rows (has_version_id draft.id) (promoted (next_version_no workflow.id t) now notes)
          t.versions;
    workflows = update_rows (has_workflow_id workflow.id) (pointed_at draft.id) t.workflows;
  }

  -- The writes of a publication that nothing refused.
  unfoldable pub write_release :
      Clockwork V (Dict V)
      → WorkflowRow
      → VersionRow
      → Option String
      → ℕ
      → String
      → String
      → Tables V
      → Result AuthoringError (PublishResult × Tables V)
  unfolding promote register_webhook_trigger register_schedule_trigger nodes_of
  write_release clockwork workflow draft notes now token digest t =
      let t1 = promote workflow draft now notes t in
      let nodes = nodes_of draft.id t1 in
      register_webhook_trigger workflow nodes token digest t1 >>= λ w.
      register_schedule_trigger clockwork workflow nodes now w.1 >>= λ t3. ok (
        record {
          version = promoted (next_version_no workflow.id t) now notes draft;
          webhook_token = w.0;
        },
        t3,
      )

  unfoldable pub publish :
      (String → ℕ → Option (Declaration V))
      → Clockwork V (Dict V)
      → AuthenticatedUser
      → String
      → Option String
      → ℕ
      → String
      → String
      → Tables V
      → Result AuthoringError (PublishResult × Tables V)
  unfolding opened may_publish find_draft checked write_release
  publish find clockwork user public_id notes now token digest t = opened user public_id t >>= λ c.
      if not (may_publish c.1 user)
      then raise AuthoringError.authorization
      else elim (find_draft c.1.id t) [
        | none ↦ raise AuthoringError.conflict
        | some draft ↦
            checked find draft t >>= λ _. write_release clockwork c.1 draft notes now token digest t
      ]

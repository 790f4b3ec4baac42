-- ===== src/Runs/Fresh.antt =====
-- The rows of a run that `_materialize` has created, as the engine will load them.
use orqent.Base.{
  ℕ, ◌+◌, ◌<◌, ◌⊎◌, String, List, [], ◌∷◌, ◌++◌, map, Option, some, true, false, ◌||◌, ◌==◌, eqb,
  filter, any, All, In, Dict, find_row, find_row-some, eqb→eq, ok-injective, ok, raise, ◌≡◌, refl,
  sym, ap, ◌∙◌, arith, Bool-cases, Option-cases, inl, inr,
}
use mathlib.Core.Path.{subst}
use orqent.Engine.State.{NodeExecutionStatus, RunEventType, RunStatus}
use orqent.Runs.Store.{Execution, Payload, TaskStatus, max_seq}
use orqent.Queue.{QueueTask, Table, fresh_task, same_pending, same_public_id}
use orqent.Queue
use orqent.Queue.OfRun.{tasks_of}
use orqent.Runs.Creation.{
  Workflow, WorkflowVersion, WorkflowNode, Database, RunRow, ExecutionRow, EventRow, Identifiers,
  CreateError, Catalogue, named, is_published, workflow_of, published_version, list_nodes,
  execution_rows, events_of, furnish, materialize,
}
use orqent.Runs.Created.{materialize_cases}

abbrev pub executions_of : {V : Type 0} → ℕ → List (ExecutionRow V) → List (Execution V)
executions_of {V} run_id rows =
    map (λ (r : ExecutionRow V). r.execution) (filter (λ r. eqb r.run_id run_id) rows)

-- AUTO_INCREMENT is ahead of every run that a row names.
pub record IsAhead {V C : Type 0} (db : Database V C) : Type 0 where
  pub executions : All (λ (r : ExecutionRow V). r.run_id < db.next_run_id) db.executions
  pub events : All (λ (r : EventRow). r.run_id < db.next_run_id) db.events
  pub tasks : All (λ (t : QueueTask). t.run_id < db.next_run_id) db.queue.rows

module _ {A B : Type 0} (key : A → ℕ) (seen : A → B) (id : ℕ) where
  -- What a list adds to rows that are all of earlier keys.
  new_block :
      (rows new : List A)
      → All (λ r. key r < id) rows
      → map seen (filter (λ r. eqb (key r) id) (rows ++ new))
        ≡ map seen (filter (λ r. eqb (key r) id) new)
  new_block [] new h = refl
  new_block (row ∷ rows) new (here, later) =
      let other : eqb (key row) id ≡ false = ground arith in rw other (new_block rows new later)

  no_block :
      (rows : List A)
      → All (λ r. key r < id) rows
      → map seen (filter (λ r. eqb (key r) id) rows) ≡ []
  no_block [] h = refl
  no_block (row ∷ rows) (here, later) =
      let other : eqb (key row) id ≡ false = ground arith in rw other (no_block rows later)

module _ (V : Type 0) {C : Type 0} (organization_id run_id : ℕ) where
  rows_of_nodes :
      (first_id : ℕ) (nodes : List (WorkflowNode C))
      → map
          (λ (e : Execution V). e.workflow_node_id)
          (executions_of run_id (execution_rows organization_id run_id first_id nodes))
        ≡ map (λ (n : WorkflowNode C). n.id) nodes
  unfolding execution_rows
  rows_of_nodes first_id [] = refl
  rows_of_nodes first_id (node ∷ nodes) =
      let own : eqb run_id run_id ≡ true = ground arith in
      rw own (ap (λ ids. node.id ∷ ids) (rows_of_nodes (first_id + 1) nodes))

  rows_pending :
      (first_id : ℕ) (nodes : List (WorkflowNode C))
      → All
          (λ (e : Execution V). (e.status ≡ NodeExecutionStatus.pending) × (e.attempt ≡ 1))
          (executions_of run_id (execution_rows organization_id run_id first_id nodes))
  unfolding execution_rows
  rows_pending first_id [] = tt
  rows_pending first_id (node ∷ nodes) =
      let own : eqb run_id run_id ≡ true = ground arith in
      rw own ((refl, refl), rows_pending (first_id + 1) nodes)

module _ (task : QueueTask) where
  nothing_clashes :
      (rows : List QueueTask)
      → All (λ t. t.run_id < task.run_id) rows
      → any (λ row. same_public_id row task) rows ≡ false
      → any (λ row. same_pending row task || same_public_id row task) rows ≡ false
  nothing_clashes [] ahead free = refl
  nothing_clashes (row ∷ rows) (here, later) free =
      let other : eqb row.run_id task.run_id ≡ false = ground arith in
      ground (arith, nothing_clashes rows later)

  only_task :
      (rows : List QueueTask)
      → All (λ t. t.run_id < task.run_id) rows
      → tasks_of task.run_id (rows ++ task ∷ []) ≡ task.status ∷ []
  only_task [] ahead = let own : eqb task.run_id task.run_id ≡ true = ground arith in rw own refl
  only_task (row ∷ rows) (here, later) =
      let other : eqb row.run_id task.run_id ≡ false = ground arith in
      rw other (only_task rows later)

-- A run that is ready to be advanced: pending in the workflow's published version, a pending first
-- attempt for each of the version's nodes, the event that it started, and one task in the queue.
pub record Ready {V C : Type 0} (public_id : String) (organization_id : ℕ) (before : Database V C)
    (row : RunRow V) (after : Database V C) : Type 0 where
  pub workflow : Workflow
  pub listed : In workflow before.catalogue.workflows
  pub tenant : named public_id organization_id workflow ≡ true
  pub version : WorkflowVersion
  pub active : workflow.active_version_id ≡ some version.id
  pub published : is_published version.status ≡ true
  pub pinned : row.workflow_version_id ≡ version.id
  pub pending : row.run.status ≡ RunStatus.pending
  pub nodes :
      map (λ (e : Execution V). e.workflow_node_id) (executions_of row.run.id after.executions)
      ≡ map (λ (n : WorkflowNode C). n.id) (list_nodes version.id before.catalogue)
  pub first_attempts :
      All
        (λ (e : Execution V). (e.status ≡ NodeExecutionStatus.pending) × (e.attempt ≡ 1))
        (executions_of row.run.id after.executions)
  pub started :
      events_of row.run.id after.events
      ≡ record { seq = 1; event_type = RunEventType.run_started; payload = Payload.no_payload } ∷ []
  pub queued : tasks_of row.run.id after.queue.rows ≡ TaskStatus.queued ∷ []

workflow_found :
    {C : Type 0} (organization_id : ℕ) (public_id : String) (catalogue : Catalogue C) (w : Workflow)
    → workflow_of organization_id public_id catalogue ≡ ok w
    → In w catalogue.workflows × (named public_id organization_id w ≡ true)
unfolding workflow_of
workflow_found organization_id public_id catalogue w h =
    elim (Option-cases (find_row (named public_id organization_id) catalogue.workflows)) [
      | inl e ↦ let c = rw (e, workflow_of) at h in cc
      | inr (found, e) ↦
          let same : found ≡ w = ok-injective (rw (e, workflow_of) at h) in
          let (m, fits) = find_row-some _ catalogue.workflows found e in
          (
            subst (λ r. In r catalogue.workflows) same m,
            subst (λ r. named public_id organization_id r ≡ true) same fits,
          )
    ]

version_active :
    {C : Type 0} (w : Workflow) (catalogue : Catalogue C) (v : WorkflowVersion)
    → published_version w catalogue ≡ ok v
    → (w.active_version_id ≡ some v.id) × (is_published v.status ≡ true)
unfolding published_version
version_active w catalogue v h = elim (Option-cases w.active_version_id) [
  | inl e ↦ let c = rw (e, published_version) at h in cc
  | inr (active, e) ↦
      elim (Option-cases (find_row (λ (r : WorkflowVersion). eqb r.id active) catalogue.versions)) [
        | inl f ↦ let c = rw (e, f, published_version) at h in cc
        | inr (found, f) ↦ elim (Bool-cases (is_published found.status)) [
          | inl p ↦
              let same : found ≡ v = ok-injective (rw (e, f, p, published_version) at h) in
              let (m, fits) = find_row-some _ catalogue.versions found f in
              let own : found.id ≡ active = eqb→eq found.id active fits in
              (
                e ∙ ap some (sym own ∙ ap (λ (r : WorkflowVersion). r.id) same),
                subst (λ (r : WorkflowVersion). is_published r.status ≡ true) same p,
              )
          | inr p ↦ let c = rw (e, f, p, published_version) at h in cc
        ]
      ]
]

module _ {V C : Type 0} (ids : Identifiers) (moment : ℕ) (db : Database V C) where
  furnished :
      (row : RunRow V) (rows : List (RunRow V))
      → row.run.id ≡ db.next_run_id
      → IsAhead db
      → any (λ t. t.public_id == ids.task db.queue.next_id) db.queue.rows ≡ false
      → (executions_of row.run.id (furnish ids moment row rows db).executions
          ≡ executions_of row.run.id (
              execution_rows row.organization_id row.run.id db.next_execution_id
                (list_nodes row.workflow_version_id db.catalogue)))
        × (events_of row.run.id (furnish ids moment row rows db).events
            ≡ record {
              seq = 1;
              event_type = RunEventType.run_started;
              payload = Payload.no_payload;
            }
              ∷ [])
        × (tasks_of row.run.id (furnish ids moment row rows db).queue.rows ≡ TaskStatus.queued ∷ [])
  unfolding furnish Queue.enqueue max_seq
  furnished row rows newest ahead free =
      let id = row.run.id in
      let earlier = λ (r : EventRow). r.run_id in
      let events =
        subst (λ n. All (λ (r : EventRow). r.run_id < n) db.events) (sym newest) ahead.events in
      let none_yet : events_of id db.events ≡ [] =
        no_block earlier (λ r. r.event) id db.events events in
      let own : eqb id id ≡ true = ground arith in
      let tasks =
        subst (λ n. All (λ (t : QueueTask). t.run_id < n) db.queue.rows) (sym newest) ahead.tasks in
      let task =
        fresh_task db.queue.next_id (ids.task db.queue.next_id) id row.organization_id moment in
      (
        new_block (λ (r : ExecutionRow V). r.run_id) (λ r. r.execution) id db.executions _
            (subst (λ n. All (λ (r : ExecutionRow V). r.run_id < n) db.executions) (sym newest)
              ahead.executions),
        new_block earlier (λ r. r.event) id db.events _ events ∙ rw (own, none_yet) refl,
        rw (nothing_clashes task db.queue.rows tasks free) (only_task task db.queue.rows tasks),
      )

-- `_materialize` raises, or returns a run that is ready, as one more row: it pins the published
-- version of a live workflow of the tenant, and has a pending first attempt for each node of it,
-- the event numbered 1 that it started, and one queued task. No row names a run of an identifier
-- still to come, and the task's public identifier is not taken.
pub materialize_lem :
    {V C : Type 0} (ids : Identifiers) (moment : ℕ) (public_id : String) (organization_id : ℕ)
    (payload : Option (Dict V)) (db : Database V C)
    → IsAhead db
    → any (λ t. t.public_id == ids.task db.queue.next_id) db.queue.rows ≡ false
    → ((e : CreateError) × (materialize ids moment public_id organization_id payload db ≡ raise e))
      ⊎ ((row : RunRow V) × (after : Database V C) × (materialize ids moment public_id
              organization_id payload db
            ≡ ok (row, after))
          × (after.runs ≡ db.runs ++ row ∷ [])
          × Ready public_id organization_id db row after)
unfolding furnish
materialize_lem {V} {C} ids moment public_id organization_id payload db ahead free =
    elim (materialize_cases ids moment public_id organization_id payload db) [
      | inl refused ↦ inl refused
      | inr (row, after, done, made) ↦
          let (listed, tenant) =
            workflow_found organization_id public_id db.catalogue made.workflow made.found in
          let (active, published) =
            version_active made.workflow db.catalogue made.version made.active in
          let newest : row.run.id ≡ db.next_run_id = ap (λ (r : RunRow V). r.run.id) made.pinned in
          let (attempts, started, queued) =
            furnished ids moment db row (db.runs ++ row ∷ []) newest ahead free in
          let nodes = list_nodes made.version.id db.catalogue in
          let pinned : row.workflow_version_id ≡ made.version.id =
            ap (λ (r : RunRow V). r.workflow_version_id) made.pinned in
          let rows : executions_of row.run.id after.executions
              ≡ executions_of row.run.id (
                  execution_rows {C = C} {V = V} row.organization_id row.run.id db.next_execution_id
                    nodes) =
            ap (λ (d : Database V C). executions_of row.run.id d.executions) made.written
            ∙ subst
                (λ n.
                  executions_of row.run.id
                    (furnish ids moment row (db.runs ++ row ∷ []) db).executions
                  ≡ executions_of row.run.id (
                      execution_rows {C = C} {V = V} row.organization_id row.run.id
                        db.next_execution_id (list_nodes n db.catalogue)))
                pinned attempts in
          inr (
            row,
            after,
            done,
            ap (λ (d : Database V C). d.runs) made.written,
            record {
              workflow = made.workflow;
              listed = listed;
              tenant = tenant;
              version = made.version;
              active = active;
              published = published;
              pinned = pinned;
              pending = ap (λ (r : RunRow V). r.run.status) made.pinned;
              nodes =
                  rw rows
                    (rows_of_nodes V row.organization_id row.run.id db.next_execution_id nodes);
              first_attempts =
                  rw rows
                    (rows_pending V row.organization_id row.run.id db.next_execution_id nodes);
              started = rw made.written started;
              queued = rw made.written queued;
            },
          )
    ]

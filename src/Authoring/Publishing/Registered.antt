-- ===== src/Authoring/Publishing/Registered.antt =====
-- Registering triggers touches registrations and schedules alone.
use orqent.Base.{
  ℕ, String, List, Option, eqb, any, Dict, ok, >>=-eq-ok, ok-injective, find_row, ◌≡◌, refl, inl,
  inr, Bool-cases, Option-cases,
}
use mathlib.Core.Path.{subst}
use orqent.Schedules.{Schedule, Clockwork}
use orqent.Authoring.Tables.{NodeRow, WorkflowRow, TriggerRegistration, Tables}
use orqent.Authoring.Publishing.{
  has_token, has_type, registered_for, scheduled_for, add_registration, register_webhook_trigger,
  due_after, add_schedule, register_schedule_trigger,
}

-- Registrations and schedules aside, the same rows.
pub record SameGraphs {V : Type 0} (t t' : Tables V) : Type 0 where
  pub workflows : t'.workflows ≡ t.workflows
  pub versions : t'.versions ≡ t.versions
  pub nodes : t'.nodes ≡ t.nodes
  pub edges : t'.edges ≡ t.edges
  pub next_version_id : t'.next_version_id ≡ t.next_version_id
  pub next_node_id : t'.next_node_id ≡ t.next_node_id

module _ {V : Type 0} where
  SameGraphs-refl : (t : Tables V) → SameGraphs t t
  SameGraphs-refl t = record {
    workflows = refl;
    versions = refl;
    nodes = refl;
    edges = refl;
    next_version_id = refl;
    next_node_id = refl;
  }

  add_registration-SameGraphs :
      (row : TriggerRegistration) (t : Tables V) {t' : Tables V}
      → add_registration row t ≡ ok t'
      → SameGraphs t t'
  add_registration-SameGraphs row t h =
      elim (Bool-cases (any (has_token row.token_digest) t.registrations)) [
        | inl e ↦ cc (rw e at h)
        | inr e ↦ subst (SameGraphs t) (ok-injective (rw e at h)) (record {
          workflows = refl;
          versions = refl;
          nodes = refl;
          edges = refl;
          next_version_id = refl;
          next_node_id = refl;
        })
      ]

  add_schedule-SameGraphs :
      (row : Schedule) (t : Tables V) {t' : Tables V} → add_schedule row t ≡ ok t' → SameGraphs t t'
  add_schedule-SameGraphs row t h =
      elim (Bool-cases
        (any (λ (s : Schedule). eqb s.workflow_node_id row.workflow_node_id) t.schedules)) [
          | inl e ↦ cc (rw e at h)
          | inr e ↦ subst (SameGraphs t) (ok-injective (rw e at h)) (record {
            workflows = refl;
            versions = refl;
            nodes = refl;
            edges = refl;
            next_version_id = refl;
            next_node_id = refl;
          })
        ]

  pub register_webhook_trigger-SameGraphs :
      (workflow : WorkflowRow) (nodes : List (NodeRow V)) (token digest : String) (t : Tables V)
      {r : Option String × Tables V}
      → register_webhook_trigger workflow nodes token digest t ≡ ok r
      → SameGraphs t r.1
  unfolding register_webhook_trigger
  register_webhook_trigger-SameGraphs workflow nodes token digest t h =
      elim (Option-cases (find_row (has_type "trigger.webhook") nodes)) [
        | inl a ↦
            subst (λ (q : Option String × Tables V). SameGraphs t q.1)
              (ok-injective (rw (a, register_webhook_trigger) at h)) (SameGraphs-refl t)
        | inr (hook, a) ↦
            elim (Option-cases (find_row (registered_for t workflow) t.registrations)) [
              | inr (existing, b) ↦
                  subst (λ (q : Option String × Tables V). SameGraphs t q.1)
                    (ok-injective (rw (a, b, register_webhook_trigger) at h))
                    (record {
                      workflows = refl;
                      versions = refl;
                      nodes = refl;
                      edges = refl;
                      next_version_id = refl;
                      next_node_id = refl;
                    })
              | inl b ↦
                  let (t1, added, last) =
                    >>=-eq-ok (add_registration _ t) _ (rw (a, b, register_webhook_trigger) at h) in
                  subst (λ (q : Option String × Tables V). SameGraphs t q.1) (ok-injective last)
                    (add_registration-SameGraphs _ t added)
            ]
      ]

  pub register_schedule_trigger-SameGraphs :
      (clockwork : Clockwork V (Dict V)) (workflow : WorkflowRow) (nodes : List (NodeRow V))
      (now : ℕ) (t : Tables V) {t' : Tables V}
      → register_schedule_trigger clockwork workflow nodes now t ≡ ok t'
      → SameGraphs t t'
  unfolding register_schedule_trigger
  register_schedule_trigger-SameGraphs clockwork workflow nodes now t h =
      elim (Option-cases (find_row (has_type "trigger.schedule") nodes)) [
        | inl a ↦
            subst (SameGraphs t) (ok-injective (rw (a, register_schedule_trigger) at h))
              (SameGraphs-refl t)
        | inr (trigger, a) ↦
            let (due, later, h1) =
              >>=-eq-ok (due_after clockwork trigger.authored.config now) _
                (rw (a, register_schedule_trigger) at h) in
            elim (Option-cases (find_row (scheduled_for t workflow) t.schedules)) [
              | inr (existing, b) ↦ subst (SameGraphs t) (ok-injective (rw b at h1)) (record {
                workflows = refl;
                versions = refl;
                nodes = refl;
                edges = refl;
                next_version_id = refl;
                next_node_id = refl;
              })
              | inl b ↦ add_schedule-SameGraphs _ t (rw b at h1)
            ]
      ]

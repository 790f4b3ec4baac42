-- ===== src/Runs/Created.antt =====
-- What `_materialize` has written when it returns, and when it raises.
use orqent.Base.{
  ℕ, String, [], ◌∷◌, ◌++◌, Option, false, ◌==◌, any, Dict, ok, raise, Result-cases, ◌≡◌, ◌⊎◌, refl,
  Bool-cases, inl, inr,
}
use orqent.Runs.Creation.{
  Workflow, WorkflowVersion, Database, RunRow, Identifiers, CreateError, integrity_error,
  workflow_of, published_version, add_run, run_row, insert_run, furnish, materialize,
}

-- What a run that was created pins, and the tables afterwards.
pub record Created {V C : Type 0} (ids : Identifiers) (moment : ℕ) (public_id : String)
    (organization_id : ℕ) (payload : Option (Dict V)) (db : Database V C) (row : RunRow V)
    (after : Database V C) : Type 0 where
  pub workflow : Workflow
  pub found : workflow_of organization_id public_id db.catalogue ≡ ok workflow
  pub version : WorkflowVersion
  pub active : published_version workflow db.catalogue ≡ ok version
  pub pinned : row ≡ run_row ids workflow version organization_id payload db
  pub free : any (λ r. r.public_id == row.public_id) db.runs ≡ false
  pub written : after ≡ furnish ids moment row (db.runs ++ row ∷ []) db

module _ {V C : Type 0} (ids : Identifiers) (moment : ℕ) (public_id : String) (organization_id : ℕ)
    (payload : Option (Dict V)) (db : Database V C) where
  insert_run_cases :
      (new : RunRow V)
      → ((e : CreateError) × (insert_run ids moment new db ≡ raise e))
        ⊎ ((any (λ r. r.public_id == new.public_id) db.runs ≡ false)
            × (insert_run ids moment new db
                ≡ ok (new, furnish ids moment new (db.runs ++ new ∷ []) db)))
  unfolding insert_run add_run
  insert_run_cases new = elim (Bool-cases (any (λ r. r.public_id == new.public_id) db.runs)) [
    | inl e ↦ inl (integrity_error, rw (e, insert_run, add_run) refl)
    | inr e ↦ inr (e, rw (e, insert_run, add_run) refl)
  ]

  pub materialize_cases :
      ((e : CreateError) × (materialize ids moment public_id organization_id payload db ≡ raise e))
      ⊎ ((row : RunRow V) × (after : Database V C) × (materialize ids moment public_id
              organization_id payload db
            ≡ ok (row, after))
          × Created ids moment public_id organization_id payload db row after)
  unfolding materialize
  materialize_cases = elim (Result-cases (workflow_of organization_id public_id db.catalogue)) [
    | inl (e, h) ↦ inl (e, rw (h, materialize) refl)
    | inr (workflow, found) ↦ elim (Result-cases (published_version workflow db.catalogue)) [
      | inl (e, h) ↦ inl (e, rw (found, h, materialize) refl)
      | inr (version, active) ↦
          let row = run_row ids workflow version organization_id payload db in
          elim (insert_run_cases row) [
            | inl (e, h) ↦ inl (e, rw (found, active, materialize) h)
            | inr (free, h) ↦ inr (
              row,
              furnish ids moment row (db.runs ++ row ∷ []) db,
              rw (found, active, materialize) h,
              record {
                workflow = workflow;
                found = found;
                version = version;
                active = active;
                pinned = refl;
                free = free;
                written = refl;
              },
            )
          ]
    ]
  ]

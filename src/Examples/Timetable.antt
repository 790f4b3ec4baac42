-- ===== src/Examples/Timetable.antt =====
-- Two schedules that are due and one that is not, and the theorems on runs and schedules there.
use orqent.Base.{
  zero, suc, find_row, ℕ, ◌+◌, ◌<◌, String, [], ◌∷◌, ◌++◌, map, none, some, true, false,
  update_rows, row_count, length, ltb, ok, raise, ◌≡◌, ◌⊎◌, refl, arith,
}
use orqent.Runs.Creation.{
  Workflow, VersionStatus, WorkflowVersion, WorkflowNode, Database, RunRow, Identifiers,
  CreateError, workflow_of, published_version, execution_rows, add_run, furnish, insert_run,
  materialize,
}
use orqent.Queue.{Table}
use orqent.Queue
use orqent.Runs.Store.{max_seq}
use orqent.Runs.Fresh.{Ready, materialize_lem}
use orqent.Schedules.{
  Schedule, Timetable, Clockwork, published_by, fires, claim_due, fire, dispatch_one, dispatch_once,
  drain,
}
use orqent.Schedules.Draining.{waiting, Still, drain_lem}

abbrev named_by : ℕ → String
named_by _ = "T"

abbrev labels : Identifiers
labels = record { run = λ n. elim n [ zero ↦ "R0" | suc k ↦ "R1" ]; task = named_by }

abbrev report : Workflow
report = record {
  id = 1;
  public_id = "W";
  organization_id = 7;
  active_version_id = some 2;
  deleted_at = none;
}

abbrev published : WorkflowVersion
published = record { id = 2; workflow_id = 1; status = VersionStatus.published }

abbrev trigger : WorkflowNode String
trigger = record { id = 3; workflow_version_id = 2; node_key = "at"; config = "*/5 * * * *" }

abbrev empty : Database ℕ String
empty = record {
  catalogue = record { workflows = report ∷ []; versions = published ∷ []; nodes = trigger ∷ [] };
  runs = [];
  next_run_id = 0;
  executions = [];
  next_execution_id = 0;
  events = [];
  queue = record { rows = []; next_id = 0; run_public_id = λ _. none };
}

abbrev every_five : Clockwork ℕ String
every_five = record {
  cron_of = λ config. some config;
  get_next = λ _ after. some (after + 5);
  isoformat = λ moment. moment;
}

abbrev due_at : ℕ → ℕ → Schedule
due_at id moment = record {
  id = id;
  organization_id = 7;
  workflow_node_id = 3;
  next_run_at = moment;
}

abbrev timetable : Timetable ℕ String
timetable = record { db = empty; schedules = due_at 1 10 ∷ due_at 2 28 ∷ due_at 3 26 ∷ [] }

timetable_program : Unit {0}
unfolding find_row update_rows row_count workflow_of published_version execution_rows add_run
    furnish insert_run materialize published_by fires claim_due fire dispatch_one dispatch_once
    drain Queue.enqueue max_seq
timetable_program = tt

-- A dispatcher that wakes at 27 skips forward to 32.
skips_forward :
    map {B = ℕ}
      (λ s. s.next_run_at)
      (dispatch_one every_five labels (λ _. false) 27 timetable).0.schedules
    ≡ 32 ∷ 28 ∷ 26 ∷ []
unfolding timetable_program
skips_forward = refl

materialize_lem_example :
    ((e : CreateError) × (materialize labels 27 "W" 7 none empty ≡ raise e))
    ⊎ ((row : RunRow ℕ) × (after : Database ℕ String) × (materialize labels 27 "W" 7 none empty
          ≡ ok (row, after))
        × (after.runs ≡ empty.runs ++ row ∷ [])
        × Ready "W" 7 empty row after)
materialize_lem_example =
    materialize_lem labels 27 "W" 7 none empty (record { executions = tt; events = tt; tasks = tt })
      refl

later_than_27 :
    (cron : String) (next : ℕ) → every_five.get_next cron 27 ≡ some next → ltb 27 next ≡ true
later_than_27 cron next e = ground arith

two_wait : waiting (λ _. false) 27 timetable < 3
unfolding timetable_program
two_wait = ground arith

drain_lem_example :
    (n : ℕ) × (after : Timetable ℕ String) × (drain every_five labels (λ _. false) 3 27 timetable
      ≡ some (n, after))
    × (waiting (λ _. false) 27 timetable ≡ n + waiting (λ _. false) 27 after)
    × (length after.db.runs ≡ length timetable.db.runs + n)
    × Still every_five labels (λ _. false) 27 after
drain_lem_example =
    drain_lem every_five labels (λ _. false) 27 later_than_27 3 timetable (refl, (refl, (refl, tt)))
      two_wait

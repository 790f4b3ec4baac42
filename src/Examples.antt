-- ===== src/Examples.antt =====
-- Small runs on which the code is followed step by step, and the theorems at those inputs.
mod Dispatch
mod Accounts
mod Timetable
mod Branching
mod Graphs
mod Editing
use orqent.Base.{
  zero, suc, map, is_space, lstrip, rstrip, strip, ℕ, String, List, [], ◌∷◌, Option, none, some,
  true, false, ◌==◌, ◌≡◌, ◌≢◌, ◌⊎◌, ◌↔◌, inl, refl, arith, ◌+◌, ◌*◌, ◌≤◌, ◌<◌, length,
  if◌then◌else◌, filter, all, is_nil, In, Dict, lookup, insert, Result, ok, raise, ◌/◌,
}
use orqent.Engine.State.{
  RunStatus, NodeExecutionStatus, EngineError, run_is_terminal, node_is_terminal,
  ensure_run_transition, ensure_node_execution_transition,
}
use orqent.Engine.Snapshot.{SchedulerDecision, start_node, set_run_status, recover_node, skip_node}
use orqent.Engine.Invocation.{completed, suspended, failed}
use orqent.Runs.Store.{
  Execution, Store, append, enqueue, finish_outstanding, execution_of, write, max_seq, TaskStatus,
}
use orqent.Runs.Transitions.{
  apply_one, apply, apply_start, apply_skip, apply_recover, apply_run_status, settle,
  validate_resume_token, held_by_other, claim_token, run_events,
}
use orqent.Graph.Model.{
  GraphNode, GraphEdge, GraphError, WorkflowGraph, workflow_graph, index_nodes, index_edges, link,
  push, outgoing, incoming, node_keys, node,
}
use orqent.Graph.Model.Edges.{leaves, arrives, workflow_graph-edges}
use orqent.Engine.State.Machine.{NodeHistory, RunHistory, NodeOpen, RunOpen, histories_lead}
use orqent.Engine.Scheduler.{
  tick, reject_fan_in, stranded, ready, prunable, run_status, status, is_live, is_dead,
  upstream_satisfied, concluded,
}
use orqent.Engine.Scheduler.Upstream.{HasStatus, Dead, Satisfied}
use orqent.Engine.Scheduler.Decisions.{tick_decides, tick_disjoint}
use orqent.Engine.Invocation.{
  Registry, SideEffect, Reply, returns, invoke, build_context, resolve_inputs, resolve_from,
}
use orqent.Runs.Store.{snapshot}
use orqent.Runs.Advance.{
  advance, resume_run, advance_from, cycle, settle_batch, invoke_started, invoke_node,
  repeat_would_be_unsafe, started, waiting_for, unpark,
}
use orqent.Engine.State.{invalid_run_transition, token_taken}
use orqent.RateLimit.{
  RateLimitPolicy, Limiter, second, check, expire, hits_of, maybe_sweep, sweep, is_stale,
}
use orqent.RateLimit.Window.{SortedFrom, within, check_counts, retry_after_suffices}
use orqent.RateLimit.Histories.{Served, Call, decisions}
use orqent.RateLimit.Bounds.{check_bounds}
use orqent.RateLimit.Sweep.{sweep_forgets_nothing}
use orqent.Chunking.{
  Chunk, end_of, chunk_size, slice, rfind_space, snapped, boundary, chunks_from, chunk_text,
}
use orqent.Chunking.Coverage.{chunk_text_covers}
use orqent.Chunking.Shape.{ShapedFrom, chunk_text-ShapedFrom}
use orqent.Graph.Handles.{
  HandleType, json, record_of, list_of, same_type, accepts, compatible, Flows, compatible_decides,
  compatible_trans,
}
use orqent.Runs.Settled.{EndsAttempt, Acceptable, settle_returns, settle-EndsAttempt}
use orqent.Runs.Transitions.{Outcome, result}
use orqent.Runs.Finished.{finished_run_is_stuck}
use orqent.Runs.Invariants.{IsConsistent, Follows, advance-IsConsistent, advance_preserves}

abbrev node_at : String → String → GraphNode ℕ
node_at key node_type = record {
  key = key;
  node_type = node_type;
  version = 1;
  config = [];
  label = none;
}

abbrev edge : String → String → String → GraphEdge
edge source handle target = record {
  source_key = source;
  source_handle = handle;
  target_key = target;
  target_handle = "main";
}

-- A trigger, a condition, and a node on each of its branches.
abbrev branch_nodes : List (GraphNode ℕ)
branch_nodes =
    node_at "t" "trigger.manual"
    ∷ node_at "c" "core.condition"
    ∷ node_at "a" "core.noop"
    ∷ node_at "b" "core.wait"
    ∷ []

abbrev branch_edges : List GraphEdge
branch_edges = edge "t" "main" "c" ∷ edge "c" "true" "a" ∷ edge "c" "false" "b" ∷ []

abbrev branches : WorkflowGraph ℕ
branches = record {
  nodes = branch_nodes;
  edges = branch_edges;
  by_key =
      ("t", node_at "t" "trigger.manual")
      ∷ ("c", node_at "c" "core.condition")
      ∷ ("a", node_at "a" "core.noop")
      ∷ ("b", node_at "b" "core.wait")
      ∷ [];
  adjacency = record {
    outgoing_of =
        ("t", edge "t" "main" "c" ∷ [])
        ∷ ("c", edge "c" "true" "a" ∷ edge "c" "false" "b" ∷ [])
        ∷ ("a", [])
        ∷ ("b", [])
        ∷ [];
    incoming_of =
        ("t", [])
        ∷ ("c", edge "t" "main" "c" ∷ [])
        ∷ ("a", edge "c" "true" "a" ∷ [])
        ∷ ("b", edge "c" "false" "b" ∷ [])
        ∷ [];
  };
}

branches_built : workflow_graph branch_nodes branch_edges ≡ ok branches
unfolding workflow_graph index_nodes index_edges link push insert lookup
branches_built = refl

workflow_graph-edges_example :
    (outgoing branches "c" ≡ filter (leaves "c") branch_edges)
    × (incoming branches "c" ≡ filter (arrives "c") branch_edges)
workflow_graph-edges_example = workflow_graph-edges branch_nodes branch_edges "c" branches_built

histories_lead_example :
    (NodeHistory NodeExecutionStatus.waiting NodeExecutionStatus.skipped ↔ (
      (NodeExecutionStatus.skipped ≡ NodeExecutionStatus.waiting)
      ⊎ NodeOpen NodeExecutionStatus.waiting))
    × (RunHistory RunStatus.suspended RunStatus.completed ↔ (
        (RunStatus.completed ≡ RunStatus.suspended)
        ⊎ (RunOpen RunStatus.suspended × (RunStatus.completed ≢ RunStatus.pending))))
histories_lead_example =
    histories_lead NodeExecutionStatus.waiting NodeExecutionStatus.skipped RunStatus.suspended
      RunStatus.completed

abbrev row : ℕ → Execution ℕ
row n = record {
  id = n;
  workflow_node_id = n;
  status = NodeExecutionStatus.pending;
  attempt = 1;
  output = none;
  error = none;
  resume_token = none;
  started_at = none;
  finished_at = none;
}

abbrev fresh : Store ℕ
fresh = record {
  graph = branches;
  organization_public_id = "org";
  run = record {
    id = 7;
    status = RunStatus.pending;
    trigger_payload = none;
    started_at = none;
    finished_at = none;
  };
  executions = ("t", row 1) ∷ ("c", row 2) ∷ ("a", row 3) ∷ ("b", row 4) ∷ [];
  events = [];
  tasks = TaskStatus.queued ∷ [];
  foreign_tokens = [];
  same_token = λ held token. held == token;
  clock = 0;
}

-- Conditions say yes, waits park under the token "tok", all else emits on `main`.
abbrev reply : String → Reply ℕ
reply node_type =
    if node_type == "core.condition"
    then returns (completed (("false", 1) ∷ []))
    else if node_type == "core.wait"
    then returns (suspended "tok" none)
    else returns (completed (("main", 1) ∷ []))

abbrev catalogue : Registry ℕ
catalogue = record {
  find = λ node_type version.
      some (record { side_effect = SideEffect.pure; config_model = λ config. some config });
  run = λ node_type version moment context. reply node_type;
}

program : Unit {0}
unfolding advance resume_run advance_from cycle settle_batch invoke_started invoke_node
    repeat_would_be_unsafe started waiting_for unpark snapshot tick reject_fan_in stranded ready
    prunable run_status status is_live is_dead upstream_satisfied concluded invoke build_context
    resolve_inputs resolve_from apply_one apply apply_start apply_skip apply_recover
    apply_run_status settle validate_resume_token held_by_other claim_token run_events append
    enqueue finish_outstanding execution_of write max_seq lookup insert incoming node_keys node
    ensure_run_transition ensure_node_execution_transition run_is_terminal node_is_terminal
program = tt

abbrev parked_run : Store ℕ × Option EngineError
parked_run = advance catalogue fresh

parked_run_status : parked_run.0.run.status ≡ RunStatus.suspended
unfolding program
parked_run_status = refl

parked_run_ends : parked_run.1 ≡ none
unfolding program
parked_run_ends = refl

fresh-IsConsistent : IsConsistent ℕ fresh
unfolding program
fresh-IsConsistent = record {
  numbered = tt;
  silent = λ k e found other. ground arith;
  quiet = λ h. cc;
}

advance-IsConsistent_example :
    IsConsistent ℕ (advance catalogue fresh).0 × IsConsistent ℕ (resume_run catalogue "tok" fresh).0
advance-IsConsistent_example = advance-IsConsistent catalogue "tok" fresh fresh-IsConsistent

advance_preserves_example :
    Follows ℕ fresh (advance catalogue fresh).0
    × Follows ℕ fresh (resume_run catalogue "tok" fresh).0
advance_preserves_example = advance_preserves catalogue "tok" fresh

branches_ready : In (start_node "t") (start_node "t" ∷ set_run_status RunStatus.running ∷ [])
branches_ready = inl refl

first_tick : tick (snapshot fresh) ≡ ok (start_node "t" ∷ set_run_status RunStatus.running ∷ [])
unfolding program
first_tick = refl

-- A run that fails on one branch while a rejoin waits for a branch that is being pruned: `f` fails,
-- and `j` waits for `c` on its handle "main" and for the skipped `p` on "other".
abbrev rejoin_edges : List GraphEdge
rejoin_edges =
    edge "t" "main" "c"
    ∷ edge "t" "main" "f"
    ∷ edge "c" "true" "p"
    ∷ edge "c" "false" "j"
    ∷ record { source_key = "p"; source_handle = "main"; target_key = "j"; target_handle = "other" }
    ∷ []

abbrev rejoin_nodes : List (GraphNode ℕ)
rejoin_nodes =
    node_at "t" "trigger.manual"
    ∷ node_at "c" "core.condition"
    ∷ node_at "f" "fails"
    ∷ node_at "p" "core.noop"
    ∷ node_at "j" "core.noop"
    ∷ []

abbrev graph_of : Result GraphError (WorkflowGraph ℕ) → WorkflowGraph ℕ
graph_of (ok g) = g
graph_of (raise _) = branches

rejoin : WorkflowGraph ℕ
unfolding workflow_graph index_nodes index_edges link push insert lookup
rejoin = graph_of (workflow_graph rejoin_nodes rejoin_edges)

rejoin_store : Store ℕ
unfolding rejoin
rejoin_store = record fresh {
  graph = rejoin;
  executions = ("t", row 1) ∷ ("c", row 2) ∷ ("f", row 3) ∷ ("p", row 4) ∷ ("j", row 5) ∷ [];
}

abbrev failing : Registry ℕ
failing = record {
  find = λ node_type version.
      some (record { side_effect = SideEffect.pure; config_model = λ config. some config });
  run = λ node_type version moment context.
      if node_type == "fails" then returns (failed "boom" false) else reply node_type;
}

rejoin_raises :
    (advance failing rejoin_store).1
    ≡ some (invalid_run_transition RunStatus.failed RunStatus.running)
unfolding program rejoin_store
rejoin_raises = refl

stuck_store : Store ℕ
unfolding program rejoin_store
stuck_store = (advance failing rejoin_store).0

abbrev stuck_decisions : List SchedulerDecision
stuck_decisions = start_node "j" ∷ set_run_status RunStatus.running ∷ []

stuck-is_terminal : run_is_terminal stuck_store.run.status ≡ true
unfolding stuck_store
stuck-is_terminal = refl

stuck-tick : tick (snapshot stuck_store) ≡ ok stuck_decisions
unfolding stuck_store
stuck-tick = refl

finished_run_is_stuck_example :
    (e : EngineError) × (advance failing stuck_store ≡ (stuck_store, some e))
finished_run_is_stuck_example =
    finished_run_is_stuck failing stuck_store "j" stuck_decisions stuck-is_terminal stuck-tick
      (inl refl)

tick_decides_example :
    (In (recover_node "j") stuck_decisions ↔ (
      In "j" (node_keys stuck_store.graph)
      × HasStatus (snapshot stuck_store) "j" NodeExecutionStatus.running))
    × (In (skip_node "j") stuck_decisions ↔ (
        In "j" (node_keys stuck_store.graph)
        × HasStatus (snapshot stuck_store) "j" NodeExecutionStatus.pending
        × (incoming stuck_store.graph "j" ≢ [])
        × ((e : GraphEdge)
            → In e (incoming stuck_store.graph "j")
            → Dead (snapshot stuck_store) e)))
    × (In (start_node "j") stuck_decisions ↔ (
        In "j" (node_keys stuck_store.graph)
        × (HasStatus (snapshot stuck_store) "j" NodeExecutionStatus.running
            ⊎ HasStatus (snapshot stuck_store) "j" NodeExecutionStatus.pending)
        × Satisfied (snapshot stuck_store) "j"))
unfolding snapshot
tick_decides_example = tick_decides (snapshot stuck_store) "j" stuck-tick

abbrev ended_row : ℕ → NodeExecutionStatus → Option (Dict ℕ) → Execution ℕ
ended_row n status output = record (row n) { status = status; output = output }

pruning_store : Store ℕ
unfolding rejoin
pruning_store = record fresh {
  graph = rejoin;
  run = record (fresh.run) { status = RunStatus.running };
  executions =
      ("t", ended_row 1 NodeExecutionStatus.succeeded (some (("main", 1) ∷ [])))
      ∷ ("c", ended_row 2 NodeExecutionStatus.succeeded (some (("false", 1) ∷ [])))
      ∷ ("f", ended_row 3 NodeExecutionStatus.failed none)
      ∷ ("p", row 4)
      ∷ ("j", row 5)
      ∷ [];
}

pruning_tick :
    tick (snapshot pruning_store) ≡ ok (skip_node "p" ∷ set_run_status RunStatus.failed ∷ [])
unfolding program pruning_store
pruning_tick = refl

tick_disjoint_example : ¬ In (start_node "p") (skip_node "p" ∷ set_run_status RunStatus.failed ∷ [])
tick_disjoint_example = tick_disjoint (snapshot pruning_store) "p" pruning_tick (inl refl)

-- A node that asks to be parked, beside one that has not run.
abbrev attempt_store : Store ℕ
attempt_store = record fresh {
  executions = ("p", ended_row 4 NodeExecutionStatus.running none) ∷ ("q", row 5) ∷ [];
}

abbrev park : Outcome ℕ
park = result (suspended "token" none)

settle_returns_example : ((s' : Store ℕ) × (settle "p" park attempt_store ≡ ok s')) ↔ (
    (e : Execution ℕ) × (lookup "p" attempt_store.executions ≡ some e)
    × (e.status ≡ NodeExecutionStatus.running)
    × Acceptable "p" park attempt_store)
settle_returns_example = settle_returns "p" park attempt_store

-- A token that an execution of another run holds is refused.
taken_token_raises :
    settle "p" park (record attempt_store { foreign_tokens = "token" ∷ [] })
    ≡ raise (token_taken "token")
unfolding program
taken_token_raises = refl

parked_store : Store ℕ
unfolding program
parked_store = elim (settle "p" park attempt_store) [ ok s ↦ s | raise _ ↦ attempt_store ]

parks : settle "p" park attempt_store ≡ ok parked_store
unfolding program parked_store
parks = refl

settle-EndsAttempt_example : EndsAttempt ℕ "p" attempt_store parked_store
settle-EndsAttempt_example = settle-EndsAttempt "p" park attempt_store parked_store parks

-- Three requests a minute, used up within a second.
abbrev three : RateLimitPolicy
three = record { limit = 3; window = 60 * second }

abbrev busy : Limiter
busy = record {
  hits = ("ip", 100_000_000 ∷ 100_400_000 ∷ 100_900_000 ∷ []) ∷ ("old", 5 ∷ []) ∷ [];
  checks_since_sweep = 3;
}

limiter_program : Unit {0}
unfolding check expire hits_of maybe_sweep sweep is_stale lookup insert
limiter_program = tt

busy_refuses : (check 130_000_000 "ip" three busy).0.allowed ≡ false
unfolding limiter_program
busy_refuses = refl

busy_retry_after : (check 130_000_000 "ip" three busy).0.retry_after ≡ 31
unfolding limiter_program
busy_retry_after = refl

busy-SortedFrom : SortedFrom 0 (hits_of "ip" busy)
unfolding limiter_program
busy-SortedFrom = omega arith

check_counts_example :
    ((check 130_000_000 "ip" three busy).0.allowed ≡ true)
    ↔ (within 130_000_000 (60 * second) (hits_of "ip" busy) < 3)
check_counts_example = check_counts 130_000_000 0 "ip" three busy busy-SortedFrom

busy_few : length (hits_of "ip" busy) ≤ 3
unfolding limiter_program
busy_few = omega arith

-- One request a minute, and another on the tick of the first: the wait is a second more than the window.
abbrev single : String → RateLimitPolicy
single key = record { limit = 1; window = 60 * second }

abbrev used_up : Limiter
used_up = (check 7 "ip" (single "ip") (record { hits = []; checks_since_sweep = 0 })).1

used_up-Served : Served single 7 used_up
used_up-Served = Served.checked 7 "ip" (Served.fresh 0) (omega arith)

long_wait : (check 7 "ip" (single "ip") used_up).0.retry_after ≡ 61
unfolding limiter_program
long_wait = refl

check_bounds_example :
    (length (hits_of "ip" used_up) ≤ 1)
    × ((check 7 "ip" (single "ip") used_up).0.allowed ≡ false
        → (1 ≤ (check 7 "ip" (single "ip") used_up).0.retry_after)
          × ((check 7 "ip" (single "ip") used_up).0.retry_after ≤ 60 * second / second + 1))
check_bounds_example = check_bounds single 7 "ip" used_up-Served (omega arith)

busy_due : 130_000_000 + (check 130_000_000 "ip" three busy).0.retry_after * second ≤ 161_000_000
busy_due = rw busy_retry_after (omega arith)

retry_after_suffices_example :
    (check 161_000_000 "ip" three (check 130_000_000 "ip" three busy).1).0.allowed ≡ true
retry_after_suffices_example =
    retry_after_suffices 130_000_000 161_000_000 "ip" three busy (omega arith) busy_few busy_refuses
      busy_due

-- The old key is swept away after an hour, and the other one stays.
abbrev two_keys : Limiter
two_keys =
    (check (3_000 * second) "ip" (single "ip")
      (check 7 "old" (single "old") (record { hits = []; checks_since_sweep = 0 })).1).1

two_keys-Served : Served single (3_000 * second) two_keys
two_keys-Served =
    Served.checked (3_000 * second) "ip" (Served.checked 7 "old" (Served.fresh 0) (omega arith))
      (omega arith)

old_swept : sweep (3_650 * second) two_keys.hits ≡ ("ip", (3_000 * second) ∷ []) ∷ []
unfolding limiter_program
old_swept = refl

abbrev hourly : RateLimitPolicy
hourly = record { limit = 1; window = 3_600 * second }

abbrev next_calls : List Call
next_calls =
    record { moment = 3_650 * second; key = "ip"; policy = hourly }
    ∷ record { moment = 3_651 * second; key = "old"; policy = hourly }
    ∷ record { moment = 3_652 * second; key = "old"; policy = three }
    ∷ []

sweep_forgets_nothing_example :
    decisions next_calls (record two_keys { hits = sweep (3_650 * second) two_keys.hits })
    ≡ decisions next_calls two_keys
sweep_forgets_nothing_example =
    sweep_forgets_nothing single (3_650 * second) next_calls two_keys-Served (omega arith)
      (omega arith)

letters : ℕ → List ℕ → List ℕ
letters zero rest = rest
letters (suc n) rest = 0x61 ∷ letters n rest

-- 950 letters, a blank and 600 letters.
long_text : List ℕ
unfolding letters
long_text = letters 950 (0x20 ∷ letters 600 [])

chunking_program : Unit {0}
unfolding chunk_text chunks_from boundary snapped rfind_space slice strip lstrip rstrip is_space
    letters long_text
chunking_program = tt

abbrev span : Chunk → ℕ × ℕ
span c = (c.start, end_of c)

-- The first chunk ends at the blank, the second begins 200 characters before it.
long_text_spans : map span (chunk_text long_text) ≡ (0, 950) ∷ (750, 1_551) ∷ []
unfolding chunking_program
long_text_spans = refl

-- The start of a chunk is its place in the stripped text.
start_after_blank :
    chunk_text (0x20 ∷ 0x61 ∷ []) ≡ record { ordinal = 0; text = 0x61 ∷ []; start = 0 } ∷ []
unfolding chunking_program
start_after_blank = refl

chunk_text_covers_example :
    (c : Chunk) × In c (chunk_text long_text)
    × (c.start ≤ 1_200)
    × (1_200 < c.start + chunk_size)
    × In 0x61 c.text
unfolding chunking_program
chunk_text_covers_example = chunk_text_covers long_text 1_200 0x61 refl refl

chunk_text-ShapedFrom_example : ShapedFrom 0 0 (chunk_text long_text)
chunk_text-ShapedFrom_example = chunk_text-ShapedFrom long_text

abbrev orders : HandleType
orders = list_of (record_of 3)

abbrev objects : HandleType
objects = list_of json

abbrev anything : HandleType
anything = list_of HandleType.any

lattice_program : Unit {0}
unfolding compatible accepts same_type
lattice_program = tt

narrowing_refused : compatible objects orders ≡ false
unfolding lattice_program
narrowing_refused = refl

compatible_decides_example : (compatible orders objects ≡ true) ↔ Flows orders objects
compatible_decides_example = compatible_decides orders objects

compatible_trans_example : compatible anything objects ≡ true
unfolding lattice_program
compatible_trans_example = compatible_trans anything orders objects refl refl refl

-- ===== src/Examples/Editing.antt =====
-- Runs of authoring, and its theorems at those inputs.
use orqent.Base.{
  ℕ, suc, String, List, [], ◌∷◌, map, none, some, Bool, true, false, Dict, lookup, insert, Result,
  ok, raise, ◌>>=◌, ◌≡◌, ◌≢◌, refl, arith, find_row, update_rows,
}
use orqent.Graph.Model.{link, graph_node, index_nodes, index_edges, push, workflow_graph}
use orqent.Graph.Handles.{compatible}
use orqent.Graph.Validation.{validate_graph}
use orqent.Runs.Creation.{VersionStatus}
use orqent.Schedules.{Clockwork}
use orqent.Authoring.Tables.{
  VersionRow, Authored, NodeRow, EdgeRow, WorkflowRow, UserRow, AuthoringError, Tables,
  replace_graph, nodes_of, load_graph, as_graph,
}
use orqent.Authoring.Tables.Stored.{IsSound, load_graph-replace_graph}
use orqent.Authoring.Drafts.{AuthenticatedUser, GraphView, opened, replace_draft}
use orqent.Authoring.Drafts.Copies.{IsKeyed}
use orqent.Authoring.Drafts.Saves.{Saves, replace_draft_lem}
use orqent.Authoring.Publishing.{PublishResult, publish}
use orqent.Authoring.Keeping.{IsAuthored, Kept}
use orqent.Authoring.Histories.{Edits, Edits-Kept}
use orqent.Examples.Graphs.{catalogue}

abbrev authored : String → String → Authored ℕ
authored key node_type = record {
  node_key = key;
  node_type = node_type;
  node_type_version = 1;
  label = none;
  config = [];
  ui_position = [];
}

abbrev alice : UserRow
alice = record { id = 1; public_id = "alice"; organization_id = 7 }

abbrev as_alice : AuthenticatedUser
as_alice = record { public_id = "alice"; organization_id = "org"; roles = [] }

abbrev intake : WorkflowRow
intake = record {
  id = 1;
  public_id = "wf";
  organization_id = 7;
  name = "intake";
  description = none;
  creator = some "alice";
  active_version_id = none;
  deleted_at = none;
}

abbrev draft : VersionRow
draft = record {
  id = 1;
  workflow_id = 1;
  version_no = none;
  status = VersionStatus.draft;
  revision = 3;
  notes = none;
  created_by_user_id = some 1;
  published_at = none;
}

abbrev row : ℕ → String → String → NodeRow ℕ
row id key node_type = record {
  id = id;
  workflow_version_id = 1;
  authored = authored key node_type;
}

abbrev link_row : ℕ → ℕ → EdgeRow
link_row source target = record {
  workflow_version_id = 1;
  source_node_id = source;
  source_handle = "out";
  target_node_id = target;
  target_handle = "in";
}

abbrev tables : Tables ℕ
tables = record {
  users = alice ∷ [];
  workflows = intake ∷ [];
  versions = draft ∷ [];
  nodes = row 1 "hook" "trigger.manual" ∷ row 2 "log" "core.log" ∷ [];
  edges = link_row 1 2 ∷ [];
  registrations = [];
  schedules = [];
  next_workflow_id = 2;
  next_version_id = 2;
  next_node_id = 3;
  next_schedule_id = 1;
}

tables-IsSound : IsSound tables
unfolding find_row
tables-IsSound = record {
  ids = omega arith;
  ends = (((row 1 "hook" "trigger.manual", refl, refl), (row 2 "log" "core.log", refl, refl)), tt);
}

tables-IsKeyed : IsKeyed tables
tables-IsKeyed = record { below = omega arith; unique = (refl, tt) }

tables-IsAuthored : IsAuthored tables
tables-IsAuthored = record {
  sound = tables-IsSound;
  keyed = tables-IsKeyed;
  numbered = record { drafts = (refl, tt); numbers = (refl, tt) };
}

-- A save that drops the second node.
abbrev alone : List (Authored ℕ)
alone = authored "hook" "trigger.manual" ∷ []

abbrev replaced_tables : Tables ℕ
replaced_tables = record tables {
  nodes = row 3 "hook" "trigger.manual" ∷ [];
  edges = [];
  next_node_id = 4;
}

replaced_run : replace_graph 1 alone [] tables ≡ ok replaced_tables
unfolding replace_graph
replaced_run = refl

load_graph-replace_graph_example :
    (load_graph 1 replaced_tables ≡ as_graph alone [])
    × (map (λ (n : NodeRow ℕ). n.authored) (nodes_of 1 replaced_tables) ≡ alone)
    × ((w : ℕ) → w ≢ 1 → load_graph w replaced_tables ≡ load_graph w tables)
    × IsSound replaced_tables
load_graph-replace_graph_example =
    load_graph-replace_graph 1 alone [] tables tables-IsSound replaced_run

abbrev saved_draft : VersionRow
saved_draft = record draft { revision = 4 }

abbrev saved_view : GraphView ℕ
saved_view = record { version = saved_draft; nodes = alone; edges = [] }

abbrev saved_tables : Tables ℕ
saved_tables = record replaced_tables { versions = saved_draft ∷ [] }

opened_run : opened as_alice "wf" tables ≡ ok (alice, intake)
unfolding opened find_row
opened_run = refl

saved_run : replace_draft as_alice "wf" 3 alone [] tables ≡ ok (saved_view, saved_tables)
unfolding replace_draft replace_graph find_row update_rows
saved_run = refl

-- Alice goes on saving, from the revision that she has got.
abbrev resaved_tables : Tables ℕ
resaved_tables = record saved_tables {
  versions = record draft { revision = 5 } ∷ [];
  nodes = row 4 "hook" "trigger.manual" ∷ [];
  next_node_id = 5;
}

resaved_run :
    replace_draft as_alice "wf" 4 alone [] saved_tables
    ≡ ok (
      record { version = record draft { revision = 5 }; nodes = alone; edges = [] },
      resaved_tables,
    )
unfolding replace_draft replace_graph find_row update_rows
resaved_run = refl

opened_saved : opened as_alice "wf" saved_tables ≡ ok (alice, intake)
unfolding opened find_row
opened_saved = refl

opened_resaved : opened as_alice "wf" resaved_tables ≡ ok (alice, intake)
unfolding opened find_row
opened_resaved = refl

resaved-Saves : Saves "wf" intake saved_tables resaved_tables
resaved-Saves = Saves.saved as_alice 4 alone [] Saves.none_yet opened_saved resaved_run

replace_draft_lem_example :
    (saved_draft.revision ≡ suc 3)
    × (load_graph 1 saved_tables ≡ as_graph alone [])
    × ((w : ℕ) → w ≢ 1 → load_graph w saved_tables ≡ load_graph w tables)
    × (replace_draft as_alice "wf" 3 [] [] resaved_tables ≡ raise AuthoringError.conflict)
replace_draft_lem_example =
    replace_draft_lem as_alice as_alice "wf" 3 alone [] [] [] tables tables-IsSound tables-IsKeyed
      opened_run saved_run resaved-Saves opened_resaved

abbrev no_clock : Clockwork ℕ (Dict ℕ)
no_clock = record { cron_of = λ _. none; get_next = λ _ _. none; isoformat = λ n. n }

abbrev first_version : VersionRow
first_version = record draft {
  status = VersionStatus.published;
  version_no = some 1;
  published_at = some 50;
  notes = some "first";
}

abbrev released_tables : Tables ℕ
released_tables = record tables {
  versions = first_version ∷ [];
  workflows = record intake { active_version_id = some 1 } ∷ [];
}

abbrev release_result : PublishResult
release_result = record { version = first_version; webhook_token = none }

released_run :
    publish catalogue no_clock as_alice "wf" (some "first") 50 "raw" "digest" tables
    ≡ ok (release_result, released_tables)
unfolding publish find_row update_rows load_graph workflow_graph lookup insert validate_graph
    index_nodes index_edges link push graph_node compatible
released_run = refl

-- A new draft starts at revision 1 again: after a publication a save is accepted from a revision that was
-- read before it, of the draft that is published now.
abbrev first_draft : VersionRow
first_draft = record draft { revision = 1 }

abbrev drafted_tables : Tables ℕ
drafted_tables = record tables { versions = first_draft ∷ [] }

abbrev accepted : {E A : Type 0} → Result E A → Bool
accepted (ok _) = true
accepted (raise _) = false

abbrev stale_save : Result AuthoringError (GraphView ℕ × Tables ℕ)
stale_save = publish catalogue no_clock as_alice "wf" none 50 "raw" "digest" drafted_tables >>= λ r.
    replace_draft as_alice "wf" 1 alone [] r.1

stale_save-accepted : accepted stale_save ≡ true
unfolding publish replace_draft replace_graph find_row update_rows load_graph workflow_graph lookup
    insert validate_graph index_nodes index_edges link push graph_node compatible
stale_save-accepted = refl

release_history : Edits catalogue no_clock tables released_tables
release_history =
    Edits.released as_alice "wf" (some "first") 50 "raw" "digest" Edits.start released_run

Edits-Kept_example : Kept tables released_tables
Edits-Kept_example = Edits-Kept catalogue no_clock tables-IsAuthored release_history

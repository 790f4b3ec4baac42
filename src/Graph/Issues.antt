-- ===== src/Graph/Issues.antt =====
-- src/app/domain/graph/issues.py, and the order of a report (`_sort_key` of
-- src/app/domain/graph/validation/__init__.py). The texts of the issues are left out.
use orqent.Base.{
  ℕ, String, List, [], ◌∷◌, Option, none, some, Bool, true, false, not, ◌&&◌, ◌||◌, if◌then◌else◌,
  ltb, eqb, codes, text_lt,
}
use orqent.Graph.Model.{GraphEdge}

pub data Severity : Type 0 where
  error warning : Severity

pub data IssueCode : Type 0 where
  unknown_node_type deprecated_node_type invalid_config unknown_handle arity_violation : IssueCode
  required_input_missing incompatible_types cycle_detected no_trigger multiple_triggers : IssueCode
  trigger_has_input unreachable_node : IssueCode

-- `field` is the path's parts, which the source joins by dots.
pub record ValidationIssue : Type 0 where
  pub code : IssueCode
  pub severity : Severity
  pub node_key : Option String
  pub edge : Option GraphEdge
  pub field : Option (List String)

abbrev pub is_error : ValidationIssue → Bool
is_error issue = elim issue.severity [ error ↦ true | warning ↦ false ]

-- Issues of a node, an edge at a node, and of the graph.
abbrev pub at_node : IssueCode → Severity → String → ValidationIssue
at_node code severity key = record {
  code = code;
  severity = severity;
  node_key = some key;
  edge = none;
  field = none;
}

abbrev pub at_edge : IssueCode → String → GraphEdge → ValidationIssue
at_edge code key edge = record {
  code = code;
  severity = Severity.error;
  node_key = some key;
  edge = some edge;
  field = none;
}

-- `_CODE_RANK` and `_SEVERITY_RANK`
abbrev pub code_rank : IssueCode → ℕ
code_rank unknown_node_type = 0
code_rank deprecated_node_type = 1
code_rank invalid_config = 2
code_rank unknown_handle = 3
code_rank arity_violation = 4
code_rank required_input_missing = 5
code_rank incompatible_types = 6
code_rank cycle_detected = 7
code_rank no_trigger = 8
code_rank multiple_triggers = 9
code_rank trigger_has_input = 10
code_rank unreachable_node = 11

abbrev pub severity_rank : Severity → ℕ
severity_rank error = 0
severity_rank warning = 1

abbrev pub anchored : Option String → ℕ × List ℕ
anchored none = (0, [])
anchored (some key) = (1, codes key)

-- `_sort_key(a) < _sort_key(b)`
unfoldable pub key_lt : ValidationIssue → ValidationIssue → Bool
key_lt a b =
    let (a_there, a_key) = anchored a.node_key in
    let (b_there, b_key) = anchored b.node_key in
    ltb (severity_rank a.severity) (severity_rank b.severity)
    || (eqb (severity_rank a.severity) (severity_rank b.severity)
        && (ltb a_there b_there
            || (eqb a_there b_there
                && (text_lt a_key b_key
                    || (not (text_lt b_key a_key) && ltb (code_rank a.code) (code_rank b.code))))))

-- The stable sort: an issue goes before the first one that it does not follow.
unfoldable pub put : ValidationIssue → List ValidationIssue → List ValidationIssue
put issue [] = issue ∷ []
put issue (first ∷ issues) =
    let rest = put issue issues in
    if key_lt first issue then first ∷ rest else issue ∷ first ∷ issues

unfoldable pub sorted : List ValidationIssue → List ValidationIssue
unfolding put key_lt
sorted [] = []
sorted (issue ∷ issues) = put issue (sorted issues)

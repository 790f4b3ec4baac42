-- ===== src/Graph/Cycles.antt =====
-- The cycle search of src/app/domain/graph/validation/structure.py: a depth-first search in three
-- colours with a stack of its own. A frame of the stack is a node with the successors that its
-- iterator has not given yet. A dict of positions, a path and a stack are kept as the source keeps
-- them; the set `seen` holds what the list `cycles` holds, so one field stands for both. An access
-- to a missing key or an empty list raises. The search of one root recurs on the rounds left.
pub mod Walks
pub mod Rounds
pub mod Steps
pub mod Scans
pub mod Found
pub mod Joins
pub mod Verdict
use orqent.Base.{
  ℕ, zero, suc, ◌+◌, ◌*◌, String, List, [], ◌∷◌, ◌++◌, map, Option, none, some, Bool, true, false,
  ◌&&◌, ◌==◌, if◌then◌else◌, length, drop, take, mem, codes, text_lt, Dict, lookup, insert, Result,
  ok, raise, ◌>>=◌,
}
use orqent.Graph.Model.{GraphEdge, WorkflowGraph, outgoing, node_keys}

pub data Colour : Type 0 where
  white grey black : Colour

pub data SearchError : Type 0 where
  key_error index_error out_of_fuel : SearchError

pub record SearchState : Type 0 where
  pub colour : Dict Colour
  pub path : List String
  pub depth : Dict ℕ
  pub stack : List (String × List String)
  pub cycles : List (List String)

-- `dict.fromkeys(keys)` as a list of keys.
unfoldable pub distinct : List String → List String → List String
distinct seen [] = []
distinct seen (key ∷ keys) =
    let rest = distinct (key ∷ seen) keys in if mem key seen then rest else key ∷ rest

-- `_successors`
unfoldable pub successors : {V : Type 0} → WorkflowGraph V → String → List String
unfolding distinct outgoing
successors graph key = distinct [] (map (λ (e : GraphEdge). e.target_key) (outgoing graph key))

-- `min(cycle)`: the first of the least keys.
unfoldable pub least : String → List String → String
least best [] = best
least best (key ∷ keys) = least (if text_lt (codes key) (codes best) then key else best) keys

-- `cycle.index(key)`, of a key that is there.
unfoldable pub index_of : String → List String → ℕ
index_of key [] = 0
index_of key (x ∷ xs) = if x == key then 0 else suc (index_of key xs)

-- `_normalise`
unfoldable pub normalise : List String → List String
unfolding least index_of
normalise [] = []
normalise (key ∷ keys) =
    let pivot = index_of (least key keys) (key ∷ keys) in
    drop pivot (key ∷ keys) ++ take pivot (key ∷ keys)

-- `cycle in seen`
abbrev pub same_keys : List String → List String → Bool
same_keys [] [] = true
same_keys (x ∷ xs) (y ∷ ys) = x == y && same_keys xs ys
same_keys _ _ = false

abbrev pub recorded : List String → List (List String) → Bool
recorded cycle [] = false
recorded cycle (c ∷ cs) = if same_keys cycle c then true else recorded cycle cs

unfoldable pub note : List String → SearchState → SearchState
note cycle s = if recorded cycle s.cycles then s else record s { cycles = s.cycles ++ cycle ∷ [] }

-- `path.pop()`: the path without its last node, and that node.
unfoldable pub pop_last : String → List String → List String × String
pop_last x [] = ([], x)
pop_last x (y ∷ ys) = let (front, last) = pop_last y ys in (x ∷ front, last)

-- `del d[key]`
unfoldable pub delete : {A : Type 0} → String → Dict A → Result SearchError (Dict A)
delete key [] = raise key_error
delete key ((k, v) ∷ d) = if k == key then ok d else delete key d >>= λ rest. ok ((k, v) ∷ rest)

unfoldable pub at_key : {A : Type 0} → String → Dict A → Result SearchError A
at_key key d = elim (lookup key d) [ none ↦ raise key_error | some v ↦ ok v ]

-- The end of a frame.
unfoldable pub finish :
    String → List (String × List String) → SearchState → Result SearchError SearchState
unfolding pop_last delete
finish node rest s = elim s.path [
  | [] ↦ raise index_error
  | x ∷ xs ↦
      let (front, last) = pop_last x xs in
      delete last s.depth >>= λ depth. ok (record s {
        colour = insert node Colour.black s.colour;
        path = front;
        depth = depth;
        stack = rest;
      })
]

-- `dict.fromkeys(graph.node_keys, _WHITE)`
abbrev pub all_white : List String → Dict Colour
all_white [] = []
all_white (key ∷ keys) = insert key Colour.white (all_white keys)

abbrev pub unvisited : List String → SearchState
unvisited keys = record { colour = all_white keys; path = []; depth = []; stack = []; cycles = [] }

module _ (next : String → List String) where
  -- A white successor becomes the top of the stack.
  unfoldable pub descend :
      String → List String → List (String × List String) → String → SearchState → SearchState
  descend node left rest successor s = record s {
    colour = insert successor Colour.grey s.colour;
    depth = insert successor (length s.path) s.depth;
    path = s.path ++ successor ∷ [];
    stack = (successor, next successor) ∷ (node, left) ∷ rest;
  }

  -- A round of the `while` loop: the `for` loop over what the iterator of the top frame still gives.
  unfoldable pub scan :
      String
      → List (String × List String)
      → List String
      → SearchState
      → Result SearchError SearchState
  unfolding at_key note finish descend
  scan node rest [] s = finish node rest s
  scan node rest (successor ∷ left) s = at_key successor s.colour >>= λ colour. elim colour [
    | white ↦ ok (descend node left rest successor s)
    | grey ↦ at_key successor s.depth >>= λ depth.
        scan node rest left (note (normalise (drop depth s.path)) s)
    | black ↦ scan node rest left s
  ]

  unfoldable pub rounds : (fuel : ℕ) → SearchState → Result SearchError SearchState
  unfolding scan
  rounds zero s = elim s.stack [ [] ↦ ok s | _ ∷ _ ↦ raise out_of_fuel ]
  rounds (suc fuel) s = elim s.stack [
    | [] ↦ ok s
    | (node, left) ∷ rest ↦ scan node rest left s >>= λ s'. rounds fuel s'
  ]

  -- The search from one root.
  abbrev pub rooted : String → SearchState → SearchState
  rooted start s = record s {
    colour = insert start Colour.grey s.colour;
    path = start ∷ [];
    depth = (start, 0) ∷ [];
    stack = (start, next start) ∷ [];
  }

  unfoldable pub search_from :
      (fuel : ℕ) → List String → SearchState → Result SearchError SearchState
  unfolding rounds
  search_from fuel [] s = ok s
  search_from fuel (start ∷ starts) s = at_key start s.colour >>= λ colour. elim colour [
    | white ↦ rounds fuel (rooted start s) >>= λ s'. search_from fuel starts s'
    | grey ↦ search_from fuel starts s
    | black ↦ search_from fuel starts s
  ]

  -- A search meets every node at most twice: as it enters it and as it leaves it.
  unfoldable pub cycles_of : List String → Result SearchError (List (List String))
  unfolding search_from
  cycles_of keys = search_from (2 * length keys + 2) keys (unvisited keys) >>= λ s. ok s.cycles

-- `_find_cycles`
unfoldable pub find_cycles :
    {V : Type 0} → WorkflowGraph V → Result SearchError (List (List String))
unfolding successors cycles_of
find_cycles graph = cycles_of (successors graph) (node_keys graph)

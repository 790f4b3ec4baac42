-- ===== src/Graph/Cycles/Verdict.antt =====
-- The cycle search of a graph that was built: what its answer says of the graph's edges.
use orqent.Base.{
  suc, ◌+◌, ◌*◌, ◌≤◌, String, List, [], ◌∷◌, some, ◌==◌, eq_iff, length, All, Dict, lookup, insert,
  lookup-insert, ok, ◌≡◌, ◌↔◌, keys, refl, sym, ap, ◌∙◌, arith, inl, inr, In, Bool-cases,
}
use orqent.Graph.Model.{GraphNode, GraphEdge, WorkflowGraph, workflow_graph, node_keys}
use orqent.Graph.Cycles.{Colour, all_white, unvisited, successors, cycles_of, find_cycles}
use orqent.Graph.Cycles.Walks.{Edge, Linked, IsCycle, Walk, edge, onward, Ordered-acyclic}
use orqent.Graph.Cycles.Rounds.{Shape, Tidy}
use orqent.Graph.Cycles.Scans.{whites, Colour-cases}
use orqent.Graph.Cycles.Joins.{Joined, Trail, only, more, successors_lem, Joined-known}
use orqent.Graph.Cycles.Found.{search_ends}

all_white_lem :
    (keys : List String) (x : String) → In x keys → lookup x (all_white keys) ≡ some Colour.white
all_white_lem [] x m = absurd m
all_white_lem (key ∷ keys) x m =
    let looked = lookup-insert key x Colour.white (all_white keys) in
    elim (Bool-cases (key == x)) [
      | inl e ↦ looked ∙ rw e refl
      | inr e ↦ elim m [
        | inl same ↦ ground (arith, eq_iff key x)
        | inr later ↦ looked ∙ rw e (all_white_lem keys x later)
      ]
    ]

all_white_only :
    (keys : List String) (x : String) (c : Colour)
    → lookup x (all_white keys) ≡ some c
    → c ≡ Colour.white
unfolding lookup
all_white_only [] x c h = cc
all_white_only (key ∷ keys) x c h =
    let looked = lookup-insert key x Colour.white (all_white keys) in
    elim (Bool-cases (key == x)) [
      | inl e ↦ let now : some c ≡ some Colour.white = sym h ∙ looked ∙ rw e refl in cc
      | inr e ↦ all_white_only keys x c (ground arith)
    ]

whites-insert :
    (key : String) (colour : Colour) (d : Dict Colour)
    → whites (insert key colour d) ≤ suc (whites d)
unfolding insert
whites-insert key colour [] = ground arith
whites-insert key colour ((k, c) ∷ d) = ground (arith, whites-insert key colour d)

whites-all_white : (keys : List String) → whites (all_white keys) ≤ length keys
whites-all_white [] = omega arith
whites-all_white (key ∷ keys) =
    omega (arith, whites-insert key Colour.white (all_white keys), whites-all_white keys)

module _ (next : String → List String) (keys : List String)
    (known : (x y : String) → Edge next x y → In y keys) where
  start_Shape : Shape next keys [] (unvisited keys)
  start_Shape = record {
    coloured = λ x m. (Colour.white, all_white_lem keys x m);
    greys = λ x g. let no = all_white_only keys x Colour.grey g in cc;
    stacked = λ x m. absurd m;
    path = refl;
    placed = tt;
    chain = tt;
    pending = tt;
    cycles = tt;
  }

  start_Tidy : Tidy next [] (unvisited keys)
  start_Tidy = record {
    order = [];
    ordered = tt;
    blacks = λ x b. let no = all_white_only keys x Colour.black b in cc;
    covered = tt;
  }

  Linked-Walk :
      (x : String) (xs : List String) (y z : String)
      → Walk next z x
      → Linked next x xs y
      → Walk next z y
  Linked-Walk x [] y z w h = onward w h
  Linked-Walk x (m ∷ ms) y z w (e, h) = Linked-Walk m ms y z (onward w e) h

  IsCycle-Walk : (cycle : List String) → IsCycle next cycle → (x : String) × Walk next x x
  IsCycle-Walk [] h = absurd h
  IsCycle-Walk (x ∷ []) h = (x, edge h)
  IsCycle-Walk (x ∷ y ∷ ys) (e, h) = (x, Linked-Walk y ys x x (edge e) h)

  Walk-known : (x y : String) → Walk next x y → In y keys
  Walk-known x y (edge e) = known x y e
  Walk-known x y (onward {y = z} w e) = known z y e

  pub cycles_of_lem :
      (cycles : List (List String)) × (cycles_of next keys ≡ ok cycles)
      × All (IsCycle next) cycles
      × (cycles ≡ [] → (x : String) → ¬ Walk next x x)
  unfolding cycles_of
  cycles_of_lem =
      let few = whites-all_white keys in
      let r =
        search_ends next keys known (2 * length keys + 2) keys (unvisited keys) (λ x m. m)
          start_Shape (omega arith) in
      (
        r.after.cycles,
        rw (r.returned, cycles_of) refl,
        r.ended.shape.cycles,
        λ none_found x w.
            let t = r.ended.tidy none_found start_Tidy in
            let m = Walk-known x x w in
            let (colour, found) = r.ended.shape.coloured x m in
            elim (Colour-cases colour) [
              | inl c ↦ r.entered x m (found ∙ ap some c)
              | inr o ↦ elim o [
                | inl c ↦ r.ended.shape.greys x (found ∙ ap some c)
                | inr c ↦
                    Ordered-acyclic next t.order x t.ordered (t.blacks x (found ∙ ap some c)) w
              ]
            ],
      )

-- Edges lead from `x` through the nodes of the list to `y`.
abbrev pub Along : List GraphEdge → String → List String → String → Type 0
Along edges x [] y = Joined edges x y
Along edges x (z ∷ zs) y = Joined edges x z × Along edges z zs y

-- Each node is joined to the next one, and the last to the first.
abbrev pub Around : List GraphEdge → List String → Type 0
Around edges [] = ⊥
Around edges (x ∷ xs) = Along edges x xs x

module _ {V : Type 0} (nodes : List (GraphNode V)) (edges : List GraphEdge)
    {graph : WorkflowGraph V} (built : workflow_graph nodes edges ≡ ok graph) where
  Linked-Along :
      (x : String) (xs : List String) (y : String)
      → Linked (successors graph) x xs y
      → Along edges x xs y
  Linked-Along x [] y h = (successors_lem nodes edges built x y).0 h
  Linked-Along x (z ∷ zs) y (e, h) =
      ((successors_lem nodes edges built x z).0 e, Linked-Along z zs y h)

  IsCycle-Around : (cycle : List String) → IsCycle (successors graph) cycle → Around edges cycle
  IsCycle-Around [] h = h
  IsCycle-Around (x ∷ xs) h = Linked-Along x xs x h

  All-Around :
      (cycles : List (List String))
      → All (IsCycle (successors graph)) cycles
      → All (Around edges) cycles
  All-Around [] h = tt
  All-Around (c ∷ cs) (here, later) = (IsCycle-Around c here, All-Around cs later)

  Trail-Walk : (x y : String) → Trail edges x y → Walk (successors graph) x y
  Trail-Walk x y (only j) = edge ((successors_lem nodes edges built x y).1 j)
  Trail-Walk x y (more {y = z} t j) =
      onward (Trail-Walk x z t) ((successors_lem nodes edges built z y).1 j)

  Along-Trail :
      (x : String) (xs : List String) (y z : String)
      → Trail edges z x
      → Along edges x xs y
      → Trail edges z y
  Along-Trail x [] y z t j = more t j
  Along-Trail x (m ∷ ms) y z t (j, h) = Along-Trail m ms y z (more t j) h

  pub Around-Trail : (cycle : List String) → Around edges cycle → (x : String) × Trail edges x x
  Around-Trail [] h = absurd h
  Around-Trail (x ∷ []) h = (x, only h)
  Around-Trail (x ∷ y ∷ ys) (j, h) = (x, Along-Trail y ys x x (only j) h)

-- On a graph that the constructor accepts the cycle search ends without an error. Each list of
-- nodes that it reports goes around a cycle of the given edges, and it reports none exactly when no
-- node has a way back to itself.
pub find_cycles_lem :
    {V : Type 0} (nodes : List (GraphNode V)) (edges : List GraphEdge) {graph : WorkflowGraph V}
    → workflow_graph nodes edges ≡ ok graph
    → (cycles : List (List String)) × (find_cycles graph ≡ ok cycles)
      × All (Around edges) cycles
      × ((cycles ≡ []) ↔ ((x : String) → ¬ Trail edges x x))
unfolding find_cycles
find_cycles_lem nodes edges {graph} built =
    let joins = successors_lem nodes edges built in
    let (cycles, returned, real, complete) =
      cycles_of_lem (successors graph) (node_keys graph)
        (λ x y e. Joined-known nodes edges built x y ((joins x y).0 e)) in
    let around = All-Around nodes edges built cycles real in
    (
      cycles,
      returned,
      around,
      (
        λ none_found x t. complete none_found x (Trail-Walk nodes edges built x x t),
        λ free. none_around cycles around free,
      ),
    )
  where
    none_around :
        (cycles : List (List String))
        → All (Around edges) cycles
        → ((x : String) → ¬ Trail edges x x)
        → cycles ≡ []
    none_around [] h free = refl
    none_around (c ∷ cs) (here, later) free =
        let (x, t) = Around-Trail nodes edges built c here in absurd (free x t)

-- ===== src/Graph/Cycles/Rounds.antt =====
-- What holds between the rounds of the search: the stack, the path, the positions and the colours
-- tell the same story, and as long as no cycle has been found the finished nodes are in order.
use orqent.Base.{
  ℕ, String, List, [], ◌∷◌, ◌++◌, Option, none, some, false, ◌==◌, eq_iff, length, length-append,
  drop, All, Dict, lookup, insert, lookup-insert, ok, ◌≡◌, ◌⊎◌, refl, ap, ◌∙◌, arith, inl, inr, In,
  append_assoc, Bool-cases,
}
use orqent.Graph.Cycles.{Colour, grey, black, SearchState, pop_last, delete}
use orqent.Graph.Cycles.Walks.{Edge, Linked, IsCycle, Linked-append, Ordered}

abbrev pub Frames : Type 0
Frames = List (String × List String)

abbrev pub nodes_of : Frames → List String
nodes_of [] = []
nodes_of ((node, _) ∷ frames) = node ∷ nodes_of frames

abbrev pub reverse : List String → List String
reverse [] = []
reverse (x ∷ xs) = reverse xs ++ x ∷ []

-- Each node of the stack has its position in the path.
abbrev pub Placed : List String → Dict ℕ → Type 0
Placed [] depth = Unit
Placed (node ∷ nodes) depth =
    (lookup node depth ≡ some (length nodes)) × (¬ In node nodes) × Placed nodes depth

pub length-reverse : (xs : List String) → length (reverse xs) ≡ length xs
length-reverse [] = refl
length-reverse (x ∷ xs) = omega (arith, length-append {0} (reverse xs) (x ∷ []), length-reverse xs)

pop_last-snoc :
    (x : String) (xs : List String) (y : String) → pop_last x (xs ++ y ∷ []) ≡ (x ∷ xs, y)
unfolding pop_last
pop_last-snoc x [] y = refl
pop_last-snoc x (z ∷ zs) y = rw (pop_last-snoc z zs y) refl

-- A path that ends in `y`, as `pop` sees it.
pub pop_parts :
    (xs : List String) (y : String)
    → (first : String) × (others : List String) × (xs ++ y ∷ [] ≡ first ∷ others)
      × (pop_last first others ≡ (xs, y))
unfolding pop_last
pop_parts [] y = (y, [], refl, refl)
pop_parts (x ∷ xs) y = (x, xs ++ y ∷ [], refl, pop_last-snoc x xs y)

drop-length : (xs ys : List String) → drop (length xs) (xs ++ ys) ≡ ys
drop-length [] ys = refl
drop-length (x ∷ xs) ys = drop-length xs ys

pub Placed-insert :
    (nodes : List String) (key : String) (n : ℕ) (depth : Dict ℕ)
    → ¬ In key nodes
    → Placed nodes depth
    → Placed nodes (insert key n depth)
Placed-insert [] key n depth other h = tt
Placed-insert (node ∷ nodes) key n depth other (here, alone, later) = (
  ground (arith, lookup-insert key node n depth, eq_iff key node),
  alone,
  Placed-insert nodes key n depth (λ m. other (inr m)) later,
)

-- `delete` of a key that is there succeeds, and no other key notices it.
pub delete_lem :
    {A : Type 0} (key : String) (d : Dict A) (v : A)
    → lookup key d ≡ some v
    → (e : Dict A) × (delete key d ≡ ok e)
      × ((other : String) → (key == other) ≡ false → lookup other e ≡ lookup other d)
unfolding delete lookup
delete_lem key [] v h = cc
delete_lem key ((k, w) ∷ d) v h = elim (Bool-cases (k == key)) [
  | inl e ↦
      (d, rw e refl, λ other n. ground (arith, eq_iff k key, eq_iff k other, eq_iff key other))
  | inr e ↦
      let (rest, r, same) = delete_lem key d v (ground arith) in
      ((k, w) ∷ rest, rw (e, r) refl, λ other n. ground (arith, same other n))
]

pub Placed-delete :
    (nodes : List String) (key : String) (d e : Dict ℕ)
    → ¬ In key nodes
    → ((other : String) → (key == other) ≡ false → lookup other e ≡ lookup other d)
    → Placed nodes d
    → Placed nodes e
Placed-delete [] key d e other same h = tt
Placed-delete (node ∷ nodes) key d e other same (here, alone, later) = (
  same node (ground (arith, other, eq_iff key node)) ∙ here,
  alone,
  Placed-delete nodes key d e (λ m. other (inr m)) same later,
)

-- Where a node of the path stands, and what comes after it.
pub Placed-split :
    (nodes : List String) (key : String) (d : Dict ℕ)
    → Placed nodes d
    → In key nodes
    → (above below : List String) × (nodes ≡ above ++ key ∷ below)
      × (lookup key d ≡ some (length below))
Placed-split [] key d h m = absurd m
Placed-split (node ∷ nodes) key d (here, alone, later) (inl same) =
    ([], nodes, rw same refl, rw same here)
Placed-split (node ∷ nodes) key d (here, alone, later) (inr m) =
    let (above, below, e, place) = Placed-split nodes key d later m in
    (node ∷ above, below, ap (λ xs. node ∷ xs) e, place)

reverse-append :
    (above : List String) (key : String) (below : List String)
    → reverse (above ++ key ∷ below) ≡ reverse below ++ key ∷ reverse above
reverse-append [] key below = refl
reverse-append (x ∷ xs) key below =
    rw (reverse-append xs key below) (append_assoc (reverse below) (key ∷ reverse xs) (x ∷ []))

-- `path[depth[key]:]`
pub drop-path :
    (above : List String) (key : String) (below : List String)
    → drop (length below) (reverse (above ++ key ∷ below)) ≡ key ∷ reverse above
drop-path above key below =
    rw (reverse-append above key below, ← length-reverse below)
      (drop-length (reverse below) (key ∷ reverse above))

module _ (next : String → List String) where
  abbrev pub Chain : List String → Type 0
  Chain [] = Unit
  Chain (node ∷ []) = Unit
  Chain (node ∷ parent ∷ nodes) = Edge next parent node × Chain (parent ∷ nodes)

  abbrev pub HeadEdge : List String → String → Type 0
  HeadEdge [] to = Unit
  HeadEdge (node ∷ _) to = Edge next node to

  -- From a node of the path through those that came after it, and on to a successor of the last.
  pub Linked-path :
      (above : List String) (key : String) (below : List String) (to : String)
      → Chain (above ++ key ∷ below)
      → HeadEdge (above ++ key ∷ below) to
      → Linked next key (reverse above) to
  Linked-path [] key below to chain e = e
  Linked-path (node ∷ []) key below to (last, chain) e = (last, e)
  Linked-path (node ∷ parent ∷ above) key below to (last, chain) e =
      Linked-append next key (reverse (parent ∷ above)) node [] to
        (Linked-path (parent ∷ above) key below node chain last) e

  -- What the stack says of the rest of the state. `keys` are the nodes of the graph.
  pub record Shape (keys : List String) (stack : Frames) (s : SearchState) : Type 0 where
    pub coloured : (x : String) → In x keys → (c : Colour) × (lookup x s.colour ≡ some c)
    pub greys : (x : String) → lookup x s.colour ≡ some grey → In x (nodes_of stack)
    pub stacked : (x : String) → In x (nodes_of stack) → lookup x s.colour ≡ some grey
    pub path : s.path ≡ reverse (nodes_of stack)
    pub placed : Placed (nodes_of stack) s.depth
    pub chain : Chain (nodes_of stack)
    pub pending :
        All (λ (f : String × List String). (y : String) → In y f.1 → Edge next f.0 y) stack
    pub cycles : All (IsCycle next) s.cycles

  -- Each successor of a stacked node is still to come, is finished, or is the next node of the
  -- stack.
  abbrev pub Covered : List String → Option String → Frames → Type 0
  Covered order above [] = Unit
  Covered order above ((node, left) ∷ frames) =
      ((y : String) → Edge next node y → In y left ⊎ In y order ⊎ (above ≡ some y))
      × Covered order (some node) frames

  -- The finished nodes, the last one first.
  pub record Tidy (stack : Frames) (s : SearchState) : Type 0 where
    pub order : List String
    pub ordered : Ordered next order
    pub blacks : (x : String) → lookup x s.colour ≡ some black → In x order
    pub covered : Covered order none stack

  Covered-weaken :
      (order : List String) (node : String) (above : Option String) (frames : Frames)
      → Covered order above frames
      → Covered (node ∷ order) above frames
  Covered-weaken order node above [] h = tt
  Covered-weaken order node above ((n, left) ∷ frames) (here, later) = (
    λ y e. elim (here y e) [
      | inl m ↦ inl m
      | inr r ↦ elim r [ inl m ↦ inr (inl (inr m)) | inr m ↦ inr (inr m) ]
    ],
    Covered-weaken order node (some n) frames later,
  )

  -- The node on top leaves the stack and joins the finished ones.
  pub Covered-finish :
      (order : List String) (node : String) (frames : Frames)
      → Covered order (some node) frames
      → Covered (node ∷ order) none frames
  Covered-finish order node [] h = tt
  Covered-finish order node ((n, left) ∷ frames) (here, later) = (
    λ y e. elim (here y e) [
      | inl m ↦ inl m
      | inr r ↦ elim r [ inl m ↦ inr (inl (inr m)) | inr m ↦ inr (inl (inl (cc))) ]
    ],
    Covered-weaken order node (some n) frames later,
  )

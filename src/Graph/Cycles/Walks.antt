-- ===== src/Graph/Cycles/Walks.antt =====
-- Walks and cycles in a graph given by its successors, and orders in which every edge goes back.
use orqent.Base.{
  ℕ, zero, suc, String, List, [], ◌∷◌, ◌++◌, take, drop, ◌≡◌, refl, inl, inr, In, append-nil,
}
use mathlib.Core.Path.{subst}
use orqent.Graph.Cycles.{index_of, least, normalise}

module _ (next : String → List String) where
  abbrev pub Edge : String → String → Type 0
  Edge x y = In y (next x)

  -- The edges from `x` through the nodes of the list to `y`.
  abbrev pub Linked : String → List String → String → Type 0
  Linked x [] y = Edge x y
  Linked x (z ∷ zs) y = Edge x z × Linked z zs y

  abbrev pub IsCycle : List String → Type 0
  IsCycle [] = ⊥
  IsCycle (x ∷ xs) = Linked x xs x

  -- A walk of at least one edge.
  pub data Walk (x : String) : String → Type 0 where
    edge : {y : String} → Edge x y → Walk x y
    onward : {y z : String} → Walk x y → Edge y z → Walk x z

  pub Linked-append :
      (x : String) (xs : List String) (y : String) (ys : List String) (z : String)
      → Linked x xs y
      → Linked y ys z
      → Linked x (xs ++ y ∷ ys) z
  Linked-append x [] y ys z h k = (h, k)
  Linked-append x (w ∷ ws) y ys z (e, h) k = (e, Linked-append w ws y ys z h k)

  pub Linked-parts :
      (x : String) (xs : List String) (y : String) (ys : List String) (z : String)
      → Linked x (xs ++ y ∷ ys) z
      → Linked x xs y × Linked y ys z
  Linked-parts x [] y ys z h = h
  Linked-parts x (w ∷ ws) y ys z (e, h) = let (a, b) = Linked-parts w ws y ys z h in ((e, a), b)

  rotated : (front back : List String) → IsCycle (front ++ back) → IsCycle (back ++ front)
  rotated [] back h = rw (append-nil back) h
  rotated (x ∷ xs) [] h = rw (append-nil xs) at h
  rotated (x ∷ xs) (y ∷ ys) h =
      let (a, b) = Linked-parts x xs y ys x h in Linked-append y ys x xs y b a

  take-drop : (n : ℕ) (xs : List String) → take n xs ++ drop n xs ≡ xs
  take-drop zero xs = refl
  take-drop (suc n) [] = refl
  take-drop (suc n) (x ∷ xs) = rw (take-drop n xs) refl

  pub normalise-IsCycle : (cycle : List String) → IsCycle cycle → IsCycle (normalise cycle)
  unfolding normalise
  normalise-IsCycle [] h = h
  normalise-IsCycle (x ∷ xs) h =
      rotated (take (index_of (least x xs) (x ∷ xs)) (x ∷ xs))
        (drop (index_of (least x xs) (x ∷ xs)) (x ∷ xs))
        (rw (take-drop (index_of (least x xs) (x ∷ xs)) (x ∷ xs)) h)

  -- Every successor of a node stands further down.
  abbrev pub Ordered : List String → Type 0
  Ordered [] = Unit
  Ordered (x ∷ xs) = ((y : String) → Edge x y → In y xs) × Ordered xs

  Ordered-closed :
      (order : List String) (x y : String) → Ordered order → In x order → Edge x y → In y order
  Ordered-closed [] x y o m e = absurd m
  Ordered-closed (first ∷ order) x y (here, later) (inl same) e =
      inr (here y (subst (λ z. Edge z y) same e))
  Ordered-closed (first ∷ order) x y (here, later) (inr m) e =
      inr (Ordered-closed order x y later m e)

  Walk-closed :
      (order : List String) (x y : String) → Ordered order → In x order → Walk x y → In y order
  Walk-closed order x y o m (edge e) = Ordered-closed order x y o m e
  Walk-closed order x y o m (onward {y = z} w e) =
      Ordered-closed order z y o (Walk-closed order x z o m w) e

  -- From the first node of an order a walk goes into the rest.
  Walk-descends :
      (first : String) (order : List String) (y : String)
      → Ordered (first ∷ order)
      → Walk first y
      → In y order
  Walk-descends first order y (here, later) (edge e) = here y e
  Walk-descends first order y (here, later) (onward {y = z} w e) =
      Ordered-closed order z y later (Walk-descends first order z (here, later) w) e

  pub Ordered-acyclic : (order : List String) (x : String) → Ordered order → In x order → ¬ Walk x x
  Ordered-acyclic [] x o m w = m
  Ordered-acyclic (first ∷ order) x (here, later) (inl same) w =
      let again = subst (λ z. Walk z z) same w in
      Ordered-acyclic order first later (Walk-descends first order first (here, later) again) again
  Ordered-acyclic (first ∷ order) x (here, later) (inr m) w = Ordered-acyclic order x later m w

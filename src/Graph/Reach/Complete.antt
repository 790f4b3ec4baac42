-- ===== src/Graph/Reach/Complete.antt =====
-- The traversal ends, with exactly the nodes that a trigger leads to.
use orqent.Base.{
  ℕ, zero, suc, ◌+◌, ◌≤◌, String, List, [], ◌∷◌, some, false, not, length, filter, mem, In, mem→In,
  In-append, eq_iff, ok, ◌≡◌, ◌↔◌, ◌⊎◌, refl, sym, ap, ◌∙◌, arith, inl, inr, Bool-cases,
}
use mathlib.Core.Path.{subst}
use orqent.Graph.Model.{GraphNode, GraphEdge, WorkflowGraph, workflow_graph, node_keys}
use orqent.Graph.Cycles.{successors}
use orqent.Graph.Cycles.Walks.{Edge}
use orqent.Graph.Cycles.Rounds.{reverse, length-reverse}
use orqent.Graph.Cycles.Joins.{Joined, successors_lem, Joined-known}
use orqent.Graph.Reach.{absorb, spread, reachable_from}

-- How many of the keys have not been met.
abbrev unmet : List String → List String → ℕ
unmet reached keys = length (filter (λ k. not (mem k reached)) keys)

unmet-le : (x : String) (reached keys : List String) → unmet (x ∷ reached) keys ≤ unmet reached keys
unmet-le x reached [] = omega arith
unmet-le x reached (k ∷ keys) = ground (arith, unmet-le x reached keys)

unmet-lt :
    (x : String) (reached keys : List String)
    → In x keys
    → mem x reached ≡ false
    → suc (unmet (x ∷ reached) keys) ≤ unmet reached keys
unmet-lt x reached [] m new = absurd m
unmet-lt x reached (k ∷ keys) (inl same) new =
    let own = (eq_iff k x).1 (sym same) in
    let fresh = sym (ap (λ z. mem z reached) same) ∙ new in ground (arith, unmet-le x reached keys)
unmet-lt x reached (k ∷ keys) (inr m) new = ground (arith, unmet-lt x reached keys m new)

module _ (next : String → List String) (keys starts : List String)
    (known : (x y : String) → Edge next x y → In y keys) where
  pub data Reach : String → Type 0 where
    start : {x : String} → In x starts → Reach x
    step : {x y : String} → Reach x → Edge next x y → Reach y

  -- Between rounds; `left` are successors of a node whose other ones have been absorbed.
  record Inv (reached queue : List String) : Type 0 where
    sound : (x : String) → In x reached → Reach x
    source : (x : String) → In x starts → In x reached
    queued : (x : String) → In x queue → In x reached
    closed : (x y : String) → In x reached → Edge next x y → In x queue ⊎ In y reached

  absorb_lem :
      (key : String) (reached queue left : List String)
      → Reach key
      → ((y : String) → In y left → Edge next key y)
      → ((y : String) → Edge next key y → In y left ⊎ In y reached)
      → ((x : String) → In x reached → Reach x)
      → ((x : String) → In x starts → In x reached)
      → ((x : String) → In x queue → In x reached)
      → ((x y : String) → In x reached → Edge next x y → (x ≡ key) ⊎ In x queue ⊎ In y reached)
      → Inv (absorb reached queue left).0 (absorb reached queue left).1
        × (length (absorb reached queue left).1 + unmet (absorb reached queue left).0 keys
            ≤ length queue + unmet reached keys)
  unfolding absorb
  absorb_lem key reached queue [] r edges rest sound source queued closed = (
    record {
      sound = sound;
      source = source;
      queued = queued;
      closed = λ x y m e. elim (closed x y m e) [
        | inl same ↦ elim (rest y (subst (λ z. Edge next z y) same e)) [
          | inl none_left ↦ absurd none_left
          | inr m' ↦ inr m'
        ]
        | inr o ↦ o
      ];
    },
    omega arith,
  )
  absorb_lem key reached queue (z ∷ zs) r edges rest sound source queued closed =
      elim (Bool-cases (mem z reached)) [
        | inl met ↦
            rw (met, absorb)
              (absorb_lem key reached queue zs r (λ y m. edges y (inr m))
                (λ y e. elim (rest y e) [
                  | inl m ↦ elim m [
                    | inl same ↦ inr (subst (λ w. In w reached) (sym same) (mem→In z reached met))
                    | inr m' ↦ inl m'
                  ]
                  | inr m ↦ inr m
                ])
                sound source queued closed)
        | inr new ↦
            let fewer = unmet-lt z reached keys (known key z (edges z (inl refl))) new in
            let ih =
              absorb_lem key (z ∷ reached) (z ∷ queue) zs r (λ y m. edges y (inr m))
                (λ y e. elim (rest y e) [
                  | inl m ↦ elim m [ inl same ↦ inr (inl same) | inr m' ↦ inl m' ]
                  | inr m ↦ inr (inr m)
                ])
                (λ x m. elim m [
                  | inl same ↦ subst Reach (sym same) (step r (edges z (inl refl)))
                  | inr m' ↦ sound x m'
                ])
                (λ x m. inr (source x m))
                (λ x m. elim m [ inl same ↦ inl same | inr m' ↦ inr (queued x m') ])
                (λ x y m e. elim m [
                  | inl same ↦ inr (inl (inl same))
                  | inr m' ↦ elim (closed x y m' e) [
                    | inl same ↦ inl same
                    | inr o ↦ elim o [ inl q ↦ inr (inl (inr q)) | inr t ↦ inr (inr (inr t)) ]
                  ]
                ]) in
            rw (new, absorb) (ih.0, (let bound = ih.1 in omega arith))
      ]

  spread_lem :
      (fuel : ℕ) (reached queue : List String)
      → Inv reached queue
      → length queue + unmet reached keys ≤ fuel
      → (last : List String) × (spread next fuel reached queue ≡ some last) × Inv last []
  unfolding spread
  spread_lem fuel reached [] inv enough = (reached, refl, inv)
  spread_lem zero reached (key ∷ queue) inv enough = absurd (omega arith)
  spread_lem (suc fuel) reached (key ∷ queue) inv enough =
      let (inv', less) =
        absorb_lem key reached queue (next key) (inv.sound key (inv.queued key (inl refl)))
          (λ y m. m) (λ y e. inl e) inv.sound inv.source (λ x m. inv.queued x (inr m))
          (λ x y m e. elim (inv.closed x y m e) [
            | inl q ↦ elim q [ inl same ↦ inl same | inr q' ↦ inr (inl q') ]
            | inr t ↦ inr (inr t)
          ]) in
      spread_lem fuel (absorb reached queue (next key)).0 (absorb reached queue (next key)).1 inv'
        (omega arith)

  complete : (last : List String) → Inv last [] → (x : String) → Reach x → In x last
  complete last inv x (start m) = inv.source x m
  complete last inv x (step {x = u} r e) = elim (inv.closed u x (complete last inv u r) e) [
    | inl q ↦ absurd q
    | inr m ↦ m
  ]

  In-reverse : (xs : List String) (x : String) → In x (reverse xs) ↔ In x xs
  In-reverse [] x = (λ m. m, λ m. m)
  In-reverse (y ∷ ys) x = ground (arith, In-append x (reverse ys) (y ∷ []), In-reverse ys x)

  unmet-length : (reached ks : List String) → unmet reached ks ≤ length ks
  unmet-length reached [] = omega arith
  unmet-length reached (k ∷ ks) = ground (arith, unmet-length reached ks)

  pub spread_all :
      (last : List String) × (spread next (length keys + length starts) starts (reverse starts)
        ≡ some last)
      × ((x : String) → In x last ↔ Reach x)
  spread_all =
      let many = unmet-length starts keys in
      let size = length-reverse starts in
      let (last, returned, inv) =
        spread_lem (length keys + length starts) starts (reverse starts)
          (record {
            sound = λ x m. start m;
            source = λ x m. m;
            queued = λ x m. (In-reverse starts x).0 m;
            closed = λ x y m e. inl ((In-reverse starts x).1 m);
          })
          (omega arith) in
      (last, returned, λ x. (inv.sound x, complete last inv x))

-- A start, or a node that an edge leads to from such a node.
pub data Led (edges : List GraphEdge) (starts : List String) : String → Type 0 where
  from : {x : String} → In x starts → Led edges starts x
  on : {x y : String} → Led edges starts x → Joined edges x y → Led edges starts y

module _ {V : Type 0} (nodes : List (GraphNode V)) (edges : List GraphEdge)
    {graph : WorkflowGraph V} (built : workflow_graph nodes edges ≡ ok graph)
    (starts : List String) where
  known : (x y : String) → Edge (successors graph) x y → In y (node_keys graph)
  known x y e = Joined-known nodes edges built x y ((successors_lem nodes edges built x y).0 e)

  Reach-Led :
      (x : String) → Reach (successors graph) (node_keys graph) starts known x → Led edges starts x
  Reach-Led x (start m) = from m
  Reach-Led x (step {x = u} r e) = on (Reach-Led u r) ((successors_lem nodes edges built u x).0 e)

  Led-Reach :
      (x : String) → Led edges starts x → Reach (successors graph) (node_keys graph) starts known x
  Led-Reach x (from m) = start m
  Led-Reach x (on {x = u} l j) = step (Led-Reach u l) ((successors_lem nodes edges built u x).1 j)

  -- On a graph that the constructor accepts the traversal ends, and it has reached exactly the
  -- starts and what a way along the edges leads to from them.
  pub reachable_from_lem :
      (last : List String) × (reachable_from graph starts ≡ some last)
      × ((x : String) → In x last ↔ Led edges starts x)
  unfolding reachable_from
  reachable_from_lem =
      let (last, returned, exact) = spread_all (successors graph) (node_keys graph) starts known in
      (last, returned, λ x. (λ m. Reach-Led x ((exact x).0 m), λ l. (exact x).1 (Led-Reach x l)))

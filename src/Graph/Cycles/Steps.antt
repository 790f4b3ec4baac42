-- ===== src/Graph/Cycles/Steps.antt =====
-- Each step of the search keeps the stack's story, and the order while no cycle has been found.
use orqent.Base.{
  ℕ, String, List, [], ◌∷◌, ◌++◌, some, false, ◌==◌, eq_iff, length, Dict, lookup, insert,
  lookup-insert, ok, ◌≡◌, refl, sym, ap, ◌∙◌, arith, inl, inr, In, Bool-cases,
}
use mathlib.Core.Path.{subst}
use orqent.Graph.Cycles.{Colour, SearchState, delete, finish, descend}
use orqent.Graph.Cycles.Rounds.{
  Frames, nodes_of, reverse, length-reverse, pop_parts, Placed-insert, delete_lem, Placed-delete,
  Chain, Shape, Tidy, Covered-finish,
}

module _ (next : String → List String) (keys : List String) (node : String) (rest : Frames)
    (s : SearchState) where
  -- The state that `finish` leaves.
  pub record Finished (s' : SearchState) : Type 0 where
    pub returned : finish node rest s ≡ ok s'
    pub stack : s'.stack ≡ rest
    pub colour : s'.colour ≡ insert node Colour.black s.colour
    pub cycles : s'.cycles ≡ s.cycles

  pop_path :
      (nodes : List String)
      → s.path ≡ reverse (node ∷ nodes)
      → (depth : Dict ℕ) → delete node s.depth ≡ ok depth
      → finish node rest s
        ≡ ok (record s {
          colour = insert node Colour.black s.colour;
          path = reverse nodes;
          depth = depth;
          stack = rest;
        })
  unfolding finish
  pop_path nodes h depth d =
      let (first, others, ends, popped) = pop_parts (reverse nodes) node in
      rw (h ∙ ends, popped, d, finish) refl

  Chain-tail : (n : String) (nodes : List String) → Chain next (n ∷ nodes) → Chain next nodes
  Chain-tail n [] h = tt
  Chain-tail n (m ∷ nodes) h = h.1

  pub finish-Shape :
      Shape next keys ((node, []) ∷ rest) s
      → (s' : SearchState) × Finished s' × Shape next keys rest s'
  finish-Shape h =
      let (here, alone, later) = h.placed in
      let (depth, deleted, same) = delete_lem node s.depth (length (nodes_of rest)) here in
      let colour = insert node Colour.black s.colour in
      let looked = λ (x : String). lookup-insert node x Colour.black s.colour in
      (
        record s { colour = colour; path = reverse (nodes_of rest); depth = depth; stack = rest },
        record {
          returned = pop_path (nodes_of rest) h.path depth deleted;
          stack = refl;
          colour = refl;
          cycles = refl;
        },
        record {
          coloured = λ x m. elim (Bool-cases (node == x)) [
            | inl e ↦ (Colour.black, looked x ∙ rw e refl)
            | inr e ↦ let (c, k) = h.coloured x m in (c, looked x ∙ rw e k)
          ];
          greys = λ x g. elim (Bool-cases (node == x)) [
            | inl e ↦ let no = looked x in ground (arith, eq_iff node x)
            | inr e ↦
                let no = looked x in
                let old = h.greys x (ground arith) in ground (arith, eq_iff node x)
          ];
          stacked = λ x m. elim (Bool-cases (node == x)) [
            | inl e ↦
                absurd (alone (subst (λ z. In z (nodes_of rest)) (sym ((eq_iff node x).0 e)) m))
            | inr e ↦ looked x ∙ rw e (h.stacked x (inr m))
          ];
          path = refl;
          placed = Placed-delete (nodes_of rest) node s.depth depth alone same later;
          chain = Chain-tail node (nodes_of rest) h.chain;
          pending = h.pending.1;
          cycles = h.cycles;
        },
      )

  pub finish-Tidy :
      (s' : SearchState) → Finished s' → Tidy next ((node, []) ∷ rest) s → Tidy next rest s'
  finish-Tidy s' f t = record {
    order = node ∷ t.order;
    ordered = (
      λ y e. elim (t.covered.0 y e) [
        | inl m ↦ absurd m
        | inr r ↦ elim r [ inl m ↦ m | inr m ↦ cc ]
      ],
      t.ordered,
    );
    blacks = λ x b.
        let looked = lookup-insert node x Colour.black s.colour in
        let now = ap (λ (d : Dict Colour). lookup x d) f.colour in
        elim (Bool-cases (node == x)) [
          | inl e ↦ inl (sym ((eq_iff node x).0 e))
          | inr e ↦ inr (t.blacks x (ground arith))
        ];
    covered = Covered-finish next t.order node rest t.covered.1;
  }

  module _ (left : List String) (successor : String)
      (fresh : lookup successor s.colour ≡ some Colour.white) where
    abbrev pub entered : SearchState
    unfolding descend
    entered = descend next node left rest successor s

    not_stacked :
        Shape next keys ((node, successor ∷ left) ∷ rest) s → ¬ In successor (node ∷ nodes_of rest)
    not_stacked h m = let g = h.stacked successor m in cc

    pub descend-Shape :
        Shape next keys ((node, successor ∷ left) ∷ rest) s
        → Shape next keys ((successor, next successor) ∷ (node, left) ∷ rest) entered
    unfolding entered
    descend-Shape h =
        let looked = λ (x : String). lookup-insert successor x Colour.grey s.colour in
        let away = not_stacked h in
        record {
          coloured = λ x m. elim (Bool-cases (successor == x)) [
            | inl e ↦ (Colour.grey, looked x ∙ rw e refl)
            | inr e ↦ let (c, k) = h.coloured x m in (c, looked x ∙ rw e k)
          ];
          greys = λ x g. elim (Bool-cases (successor == x)) [
            | inl e ↦ inl (sym ((eq_iff successor x).0 e))
            | inr e ↦ let no = looked x in inr (h.greys x (ground arith))
          ];
          stacked = λ x m. elim (Bool-cases (successor == x)) [
            | inl e ↦ looked x ∙ rw e refl
            | inr e ↦ looked x ∙ rw e (h.stacked x (others x e m))
          ];
          path = ap (λ (p : List String). p ++ successor ∷ []) h.path;
          placed = (
            placed_now h,
            away,
            Placed-insert (node ∷ nodes_of rest) successor (length s.path) s.depth away h.placed,
          );
          chain = (h.pending.0 successor (inl refl), h.chain);
          pending = (λ y m. m, (λ y m. h.pending.0 y (inr m), h.pending.1));
          cycles = h.cycles;
        }
      where
        others :
            (x : String)
            → (successor == x) ≡ false
            → In x (successor ∷ node ∷ nodes_of rest)
            → In x (node ∷ nodes_of rest)
        others x e (inl same) = ground (arith, eq_iff successor x)
        others x e (inr m) = m

        placed_now :
            Shape next keys ((node, successor ∷ left) ∷ rest) s
            → lookup successor (insert successor (length s.path) s.depth)
              ≡ some (length (node ∷ nodes_of rest))
        placed_now h =
            let looked = lookup-insert successor successor (length s.path) s.depth in
            let own = (eq_iff successor successor).1 refl in
            let size = ap length h.path ∙ length-reverse (node ∷ nodes_of rest) in
            looked ∙ rw own (ap some size)

    pub descend-Tidy :
        Tidy next ((node, successor ∷ left) ∷ rest) s
        → Tidy next ((successor, next successor) ∷ (node, left) ∷ rest) entered
    unfolding entered
    descend-Tidy t = record {
      order = t.order;
      ordered = t.ordered;
      blacks = λ x b.
          let looked = lookup-insert successor x Colour.grey s.colour in
          elim (Bool-cases (successor == x)) [
            | inl e ↦
                let grey_now : lookup x (insert successor Colour.grey s.colour) ≡ some Colour.grey =
                  looked ∙ rw e refl in
                cc
            | inr e ↦ t.blacks x (ground arith)
          ];
      covered = (
        λ y m. inl m,
        (
          λ y e. elim (t.covered.0 y e) [
            | inl m ↦ elim m [ inl same ↦ inr (inr (ap some (sym same))) | inr m' ↦ inl m' ]
            | inr r ↦ elim r [ inl m ↦ inr (inl m) | inr m ↦ cc ]
          ],
          t.covered.1,
        ),
      );
    }

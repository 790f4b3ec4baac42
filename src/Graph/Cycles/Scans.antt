-- ===== src/Graph/Cycles/Scans.antt =====
-- A round of the search: it returns, brings the search closer to its end, and finds real cycles.
use orqent.Base.{
  ℕ, suc, ◌+◌, ◌*◌, ◌≤◌, ◌<◌, String, List, [], ◌∷◌, ◌++◌, some, Bool, true, false, ◌==◌, length,
  drop, All, All-snoc, Dict, lookup, insert, lookup-insert, ok, ◌≡◌, ◌⊎◌, refl, sym, ap, ◌∙◌, arith,
  inl, inr, In, Bool-cases, if◌then◌else◌,
}
use mathlib.Core.Path.{subst}
use orqent.Graph.Cycles.{
  Colour, white, grey, black, SearchState, at_key, note, recorded, descend, scan, normalise,
}
use orqent.Graph.Cycles.Walks.{IsCycle, normalise-IsCycle}
use orqent.Graph.Cycles.Rounds.{
  Frames, nodes_of, reverse, Placed-split, drop-path, Chain, HeadEdge, Linked-path, Shape, Tidy,
}
use orqent.Graph.Cycles.Steps.{finish-Shape, finish-Tidy, descend-Shape, descend-Tidy}

abbrev pub is_white : Colour → Bool
is_white white = true
is_white _ = false

pub Colour-cases : (c : Colour) → (c ≡ Colour.white) ⊎ (c ≡ Colour.grey) ⊎ (c ≡ Colour.black)
Colour-cases white = inl refl
Colour-cases grey = inr (inl refl)
Colour-cases black = inr (inr refl)

abbrev pub whites : Dict Colour → ℕ
whites [] = 0
whites ((_, colour) ∷ d) = if is_white colour then suc (whites d) else whites d

whites-insert :
    (key : String) (colour : Colour) (d : Dict Colour)
    → is_white colour ≡ false
    → whites (insert key colour d) ≤ whites d
unfolding insert
whites-insert key colour [] dark = ground arith
whites-insert key colour ((k, c) ∷ d) dark = ground (arith, whites-insert key colour d dark)

pub whites-enter :
    (key : String) (colour : Colour) (d : Dict Colour)
    → is_white colour ≡ false
    → lookup key d ≡ some Colour.white
    → whites (insert key colour d) < whites d
unfolding insert lookup
whites-enter key colour [] dark h = cc
whites-enter key colour ((k, c) ∷ d) dark h = ground (arith, whites-enter key colour d dark)

-- A colour other than white is never taken back.
pub white-insert :
    (key x : String) (colour : Colour) (d : Dict Colour)
    → is_white colour ≡ false
    → lookup x (insert key colour d) ≡ some Colour.white
    → lookup x d ≡ some Colour.white
white-insert key x colour d dark h =
    let looked = lookup-insert key x colour d in
    elim (Bool-cases (key == x)) [
      | inl e ↦
          let now : some colour ≡ some Colour.white = sym (looked ∙ rw e refl) ∙ h in
          let same : colour ≡ Colour.white = cc in let light = ap is_white same in cc
      | inr e ↦ ground arith
    ]

snoc-ne-nil : {A : Type 0} (xs : List A) (x : A) → ¬ (xs ++ x ∷ [] ≡ [])
snoc-ne-nil [] x h = cc
snoc-ne-nil (y ∷ ys) x h = cc

pub at_key-some :
    {A : Type 0} (key : String) (d : Dict A) (v : A) → lookup key d ≡ some v → at_key key d ≡ ok v
unfolding at_key
at_key-some key d v h = rw (h, at_key) refl

module _ (next : String → List String) (keys : List String) where
  note-nonempty : (cycle : List String) (s : SearchState) → ¬ ((note cycle s).cycles ≡ [])
  unfolding note
  note-nonempty cycle s h = elim (Bool-cases (recorded cycle s.cycles)) [
    | inl e ↦
        let none_yet : s.cycles ≡ [] = rw (e, note) at h in
        let there = ap (recorded cycle) none_yet in cc
    | inr e ↦ let longer = rw (e, note) at h in snoc-ne-nil s.cycles cycle longer
  ]

  note_colour : (cycle : List String) (s : SearchState) → (note cycle s).colour ≡ s.colour
  unfolding note
  note_colour cycle s = elim (Bool-cases (recorded cycle s.cycles)) [
    | inl e ↦ rw (e, note) refl
    | inr e ↦ rw (e, note) refl
  ]

  note-Shape :
      (stack : Frames) (cycle : List String) (s : SearchState)
      → IsCycle next cycle
      → Shape next keys stack s
      → Shape next keys stack (note cycle s)
  unfolding note
  note-Shape stack cycle s c h = elim (Bool-cases (recorded cycle s.cycles)) [
    | inl e ↦ rw (e, note) h
    | inr e ↦
        rw (e, note)
          (record {
            coloured = h.coloured;
            greys = h.greys;
            stacked = h.stacked;
            path = h.path;
            placed = h.placed;
            chain = h.chain;
            pending = h.pending;
            cycles = All-snoc (IsCycle next) s.cycles cycle h.cycles c;
          })
  ]

  module _ (node : String) (rest : Frames) where
    skip-Shape :
        (successor : String) (left : List String) (s : SearchState)
        → Shape next keys ((node, successor ∷ left) ∷ rest) s
        → Shape next keys ((node, left) ∷ rest) s
    skip-Shape successor left s h = record {
      coloured = h.coloured;
      greys = h.greys;
      stacked = h.stacked;
      path = h.path;
      placed = h.placed;
      chain = h.chain;
      pending = (λ y m. h.pending.0 y (inr m), h.pending.1);
      cycles = h.cycles;
    }

    skip-Tidy :
        (successor : String) (left : List String) (s : SearchState)
        → lookup successor s.colour ≡ some Colour.black
        → Tidy next ((node, successor ∷ left) ∷ rest) s
        → Tidy next ((node, left) ∷ rest) s
    skip-Tidy successor left s b t = record {
      order = t.order;
      ordered = t.ordered;
      blacks = t.blacks;
      covered = (
        λ y e. elim (t.covered.0 y e) [
          | inl m ↦ elim m [
            | inl same ↦ inr (inl (subst (λ z. In z t.order) (sym same) (t.blacks successor b)))
            | inr m' ↦ inl m'
          ]
          | inr r ↦ inr r
        ],
        t.covered.1,
      );
    }

    -- A successor on the path closes a cycle.
    closes :
        (successor : String) (left : List String) (s : SearchState)
        → Shape next keys ((node, successor ∷ left) ∷ rest) s
        → lookup successor s.colour ≡ some Colour.grey
        → (depth : ℕ) × (at_key successor s.depth ≡ ok depth)
          × IsCycle next (normalise (drop depth s.path))
    unfolding at_key
    closes successor left s h g =
        let (above, below, parts, place) =
          Placed-split (node ∷ nodes_of rest) successor s.depth h.placed (h.greys successor g) in
        let back : drop (length below) s.path ≡ successor ∷ reverse above =
          ap (drop (length below)) (h.path ∙ ap reverse parts) ∙ drop-path above successor below in
        let linked =
          Linked-path next above successor below successor (subst (Chain next) parts h.chain)
            (subst (λ ns. HeadEdge next ns successor) parts (h.pending.0 successor (inl refl))) in
        (
          length below,
          rw (place, at_key) refl,
          normalise-IsCycle next (drop (length below) s.path) (rw back linked),
        )

    -- What a round brings about.
    pub record Scanned (left : List String) (s : SearchState) : Type 0 where
      pub after : SearchState
      pub returned : scan next node rest left s ≡ ok after
      pub shape : Shape next keys after.stack after
      pub tidy : after.cycles ≡ [] → Tidy next ((node, left) ∷ rest) s → Tidy next after.stack after
      pub kept : after.cycles ≡ [] → s.cycles ≡ []
      pub whiter :
          (x : String)
          → lookup x after.colour ≡ some Colour.white
          → lookup x s.colour ≡ some Colour.white
      pub less :
          2 * whites after.colour + length after.stack < 2 * whites s.colour + suc (length rest)

    enter :
        (successor : String) (left : List String) (s : SearchState)
        → Shape next keys ((node, successor ∷ left) ∷ rest) s
        → lookup successor s.colour ≡ some Colour.white
        → Scanned (successor ∷ left) s
    unfolding scan at_key descend
    enter successor left s h fresh = record {
      after = descend next node left rest successor s;
      returned = rw (fresh, at_key, scan) refl;
      shape = descend-Shape next keys node rest s left successor fresh h;
      tidy = λ _ t. descend-Tidy next keys node rest s left successor fresh t;
      kept = λ none_left. none_left;
      whiter = λ x w. white-insert successor x Colour.grey s.colour refl w;
      less = let fewer = whites-enter successor Colour.grey s.colour refl fresh in ground arith;
    }

    pass :
        (successor : String) (left : List String) (s : SearchState)
        → lookup successor s.colour ≡ some Colour.black
        → Scanned left s
        → Scanned (successor ∷ left) s
    unfolding scan at_key
    pass successor left s b r = record {
      after = r.after;
      returned = rw (b, at_key, scan) r.returned;
      shape = r.shape;
      tidy = λ none_found t. r.tidy none_found (skip-Tidy successor left s b t);
      kept = r.kept;
      whiter = r.whiter;
      less = r.less;
    }

    close :
        (successor : String) (left : List String) (s : SearchState)
        → lookup successor s.colour ≡ some Colour.grey
        → (depth : ℕ) → at_key successor s.depth ≡ ok depth
        → Scanned left (note (normalise (drop depth s.path)) s)
        → Scanned (successor ∷ left) s
    unfolding scan
    close successor left s g depth placed r =
        let cycle = normalise (drop depth s.path) in
        let none_found = λ (e : r.after.cycles ≡ []). note-nonempty cycle s (r.kept e) in
        let same = note_colour cycle s in
        record {
          after = r.after;
          returned = rw (at_key-some successor s.colour Colour.grey g, placed, scan) r.returned;
          shape = r.shape;
          tidy = λ e t. absurd (none_found e);
          kept = λ e. absurd (none_found e);
          whiter = λ x w.
              subst (λ (d : Dict Colour). lookup x d ≡ some Colour.white) same (r.whiter x w);
          less = let dimmer = ap whites same in let fewer = r.less in ground arith;
        }

    pub scanned :
        (left : List String) (s : SearchState)
        → All (λ (x : String). In x keys) left
        → Shape next keys ((node, left) ∷ rest) s
        → Scanned left s
    unfolding scan at_key
    scanned [] s known h =
        let (after, f, shape) = finish-Shape next keys node rest s h in
        record {
          after = after;
          returned = f.returned;
          shape = rw f.stack shape;
          tidy = λ _ t. rw f.stack (finish-Tidy next keys node rest s after f t);
          kept = λ none_left. sym f.cycles ∙ none_left;
          whiter = λ x w.
              white-insert node x Colour.black s.colour refl
                (subst (λ (d : Dict Colour). lookup x d ≡ some Colour.white) f.colour w);
          less =
              let stacked = ap length f.stack in
              let dimmer = ap whites f.colour in
              let fewer = whites-insert node Colour.black s.colour refl in ground arith;
        }
    scanned (successor ∷ left) s known h =
        let (colour, found) = h.coloured successor known.0 in
        elim (Colour-cases colour) [
          | inl w ↦ enter successor left s h (found ∙ ap some w)
          | inr o ↦ elim o [
            | inl g ↦
                let (depth, placed, cycle) = closes successor left s h (found ∙ ap some g) in
                let noted = note (normalise (drop depth s.path)) s in
                close successor left s (found ∙ ap some g) depth placed (
                  scanned left noted known.1 (
                    note-Shape ((node, left) ∷ rest) (normalise (drop depth s.path)) s cycle
                      (skip-Shape successor left s h)))
            | inr b ↦
                pass successor left s (found ∙ ap some b)
                  (scanned left s known.1 (skip-Shape successor left s h))
          ]
        ]

-- ===== src/Graph/Cycles/Found.antt =====
-- The whole search: it returns, every cycle it lists is one, and it lists none only where there is
-- none.
use orqent.Base.{
  ℕ, zero, suc, ◌+◌, ◌*◌, ◌≤◌, String, List, [], ◌∷◌, some, ◌==◌, eq_iff, length, All, lookup,
  insert, lookup-insert, ok, ◌≡◌, List-cases, refl, sym, ap, ◌∙◌, arith, inl, inr, In, Bool-cases,
}
use mathlib.Core.Path.{subst}
use orqent.Graph.Cycles.{Colour, SearchState, rounds, rooted, search_from}
use orqent.Graph.Cycles.Walks.{Edge}
use orqent.Graph.Cycles.Rounds.{Frames, Shape, Tidy}
use orqent.Graph.Cycles.Scans.{
  whites, whites-enter, white-insert, Colour-cases, at_key-some, scanned,
}

All-known :
    (keys left : List String)
    → ((y : String) → In y left → In y keys)
    → All (λ (y : String). In y keys) left
All-known keys [] h = tt
All-known keys (x ∷ xs) h = (h x (inl refl), All-known keys xs (λ y m. h y (inr m)))

module _ (next : String → List String) (keys : List String)
    (known : (x y : String) → Edge next x y → In y keys) where
  -- What a search from one stack, or from several roots, brings about.
  pub record Ended (stack : Frames) (s after : SearchState) : Type 0 where
    pub shape : Shape next keys [] after
    pub tidy : after.cycles ≡ [] → Tidy next stack s → Tidy next [] after
    pub kept : after.cycles ≡ [] → s.cycles ≡ []
    pub whiter :
        (x : String)
        → lookup x after.colour ≡ some Colour.white
        → lookup x s.colour ≡ some Colour.white
    pub less : 2 * whites after.colour ≤ 2 * whites s.colour + length stack

  no_frames : (stack : Frames) → length stack ≤ 0 → stack ≡ []
  no_frames [] h = refl
  no_frames (f ∷ stack) h = ground arith

  rounds_idle : (fuel : ℕ) (s : SearchState) → s.stack ≡ [] → rounds next fuel s ≡ ok s
  unfolding rounds
  rounds_idle zero s e = ground arith
  rounds_idle (suc fuel) s e = ground arith

  rounds_stay : (s : SearchState) → s.stack ≡ [] → Shape next keys s.stack s → Ended s.stack s s
  rounds_stay s e h = record {
    shape = subst (λ f. Shape next keys f s) e h;
    tidy = λ _ t. subst (λ f. Tidy next f s) e t;
    kept = λ none_found. none_found;
    whiter = λ x w. w;
    less = ground arith;
  }

  rounds_end :
      (fuel : ℕ) (s : SearchState)
      → Shape next keys s.stack s
      → 2 * whites s.colour + length s.stack ≤ fuel
      → (after : SearchState) × (rounds next fuel s ≡ ok after) × Ended s.stack s after
  unfolding rounds
  rounds_end zero s h enough =
      let empty : s.stack ≡ [] = no_frames s.stack (ground arith) in
      (s, rounds_idle zero s empty, rounds_stay s empty h)
  rounds_end (suc fuel) s h enough = elim (List-cases s.stack) [
    | inl empty ↦ (s, rounds_idle (suc fuel) s empty, rounds_stay s empty h)
    | inr ((node, left), rest, e) ↦
        let h' = subst (λ f. Shape next keys f s) e h in
        let r =
          scanned next keys node rest left s
            (All-known keys left (λ y m. known node y (h'.pending.0 y m))) h' in
        let size = ap length e in
        let nearer = r.less in
        let (after, returned, ended) = rounds_end fuel r.after r.shape (ground arith) in
        (
          after,
          rw (e, r.returned, rounds) returned,
          record {
            shape = ended.shape;
            tidy = λ none_found t.
                ended.tidy none_found
                  (r.tidy (ended.kept none_found) (subst (λ f. Tidy next f s) e t));
            kept = λ none_found. r.kept (ended.kept none_found);
            whiter = λ x w. r.whiter x (ended.whiter x w);
            less = let further = ended.less in ground arith;
          },
        )
  ]

  root_Shape :
      (start : String) (s : SearchState)
      → lookup start s.colour ≡ some Colour.white
      → Shape next keys [] s
      → Shape next keys ((start, next start) ∷ []) (rooted next start s)
  unfolding lookup
  root_Shape start s fresh h =
      let looked = λ (x : String). lookup-insert start x Colour.grey s.colour in
      record {
        coloured = λ x m. elim (Bool-cases (start == x)) [
          | inl e ↦ (Colour.grey, looked x ∙ rw e refl)
          | inr e ↦ let (c, k) = h.coloured x m in (c, looked x ∙ rw e k)
        ];
        greys = λ x g. elim (Bool-cases (start == x)) [
          | inl e ↦ inl (sym ((eq_iff start x).0 e))
          | inr e ↦ let no = looked x in absurd (h.greys x (ground arith))
        ];
        stacked = λ x m. elim m [
          | inl same ↦ looked x ∙ rw ((eq_iff start x).1 (sym same)) refl
          | inr other ↦ absurd other
        ];
        path = refl;
        placed = (rw ((eq_iff start start).1 refl) refl, λ m. m, tt);
        chain = tt;
        pending = (λ y m. m, tt);
        cycles = h.cycles;
      }

  root_Tidy :
      (start : String) (s : SearchState)
      → Tidy next [] s
      → Tidy next ((start, next start) ∷ []) (rooted next start s)
  root_Tidy start s t = record {
    order = t.order;
    ordered = t.ordered;
    blacks = λ x b.
        let looked = lookup-insert start x Colour.grey s.colour in
        elim (Bool-cases (start == x)) [
          | inl e ↦
              let grey_now : lookup x (insert start Colour.grey s.colour) ≡ some Colour.grey =
                looked ∙ rw e refl in
              cc
          | inr e ↦ t.blacks x (ground arith)
        ];
    covered = (λ y m. inl m, tt);
  }

  -- All roots have been entered.
  pub record Searched (starts : List String) (s : SearchState) (fuel : ℕ) : Type 0 where
    pub after : SearchState
    pub returned : search_from next fuel starts s ≡ ok after
    pub ended : Ended [] s after
    pub entered : (x : String) → In x starts → ¬ (lookup x after.colour ≡ some Colour.white)

  Ended-refl : (s : SearchState) → Shape next keys [] s → Ended [] s s
  Ended-refl s h = record {
    shape = h;
    tidy = λ _ t. t;
    kept = λ e. e;
    whiter = λ x w. w;
    less = ground arith;
  }

  Ended-trans : (s mid after : SearchState) → Ended [] s mid → Ended [] mid after → Ended [] s after
  Ended-trans s mid after a b = record {
    shape = b.shape;
    tidy = λ e t. b.tidy e (a.tidy (b.kept e) t);
    kept = λ e. a.kept (b.kept e);
    whiter = λ x w. a.whiter x (b.whiter x w);
    less = let first = a.less in let second = b.less in ground arith;
  }

  -- The search of one root that is still white.
  Ended-root :
      (fuel : ℕ) (start : String) (s : SearchState)
      → lookup start s.colour ≡ some Colour.white
      → Shape next keys [] s
      → 2 * whites s.colour ≤ fuel
      → (mid : SearchState) × (rounds next fuel (rooted next start s) ≡ ok mid)
        × Ended [] s mid
        × ¬ (lookup start mid.colour ≡ some Colour.white)
  Ended-root fuel start s fresh h enough =
      let fewer = whites-enter start Colour.grey s.colour refl fresh in
      let (mid, returned, e) =
        rounds_end fuel (rooted next start s) (root_Shape start s fresh h) (ground arith) in
      let looked = lookup-insert start start Colour.grey s.colour in
      let own = (eq_iff start start).1 refl in
      (
        mid,
        returned,
        record {
          shape = e.shape;
          tidy = λ none_found t. e.tidy none_found (root_Tidy start s t);
          kept = e.kept;
          whiter = λ x w. white-insert start x Colour.grey s.colour refl (e.whiter x w);
          less = let further = e.less in ground arith;
        },
        λ w.
            let still = e.whiter start w in
            let grey_now : lookup start (insert start Colour.grey s.colour) ≡ some Colour.grey =
              looked ∙ rw own refl in
            cc,
      )

  pub search_ends :
      (fuel : ℕ) (starts : List String) (s : SearchState)
      → ((x : String) → In x starts → In x keys)
      → Shape next keys [] s
      → 2 * whites s.colour ≤ fuel
      → Searched starts s fuel
  unfolding search_from
  search_ends fuel [] s nodes h enough = record {
    after = s;
    returned = refl;
    ended = Ended-refl s h;
    entered = λ x m. absurd m;
  }
  search_ends fuel (start ∷ starts) s nodes h enough =
      let (colour, found) = h.coloured start (nodes start (inl refl)) in
      let others = λ (x : String) (m : In x starts). nodes x (inr m) in
      elim (Colour-cases colour) [
        | inl w ↦
            let fresh = found ∙ ap some w in
            let (mid, returned, e, past) = Ended-root fuel start s fresh h enough in
            let further = e.less in
            let r = search_ends fuel starts mid others e.shape (ground arith) in
            record {
              after = r.after;
              returned =
                  rw (at_key-some start s.colour Colour.white fresh, returned, search_from)
                    r.returned;
              ended = Ended-trans s mid r.after e r.ended;
              entered = λ x m. elim m [
                | inl same ↦ λ w'. past (
                    subst (λ z. lookup z mid.colour ≡ some Colour.white) same (r.ended.whiter x w'))
                | inr m' ↦ r.entered x m'
              ];
            }
        | inr o ↦
            let r = search_ends fuel starts s others h enough in
            let dark : ¬ (lookup start s.colour ≡ some Colour.white) =
              λ w'. elim o [ inl g ↦ (cc) | inr b ↦ (cc) ] in
            record {
              after = r.after;
              returned = elim o [
                | inl g ↦
                    rw (at_key-some start s.colour Colour.grey (found ∙ ap some g), search_from)
                      r.returned
                | inr b ↦
                    rw (at_key-some start s.colour Colour.black (found ∙ ap some b), search_from)
                      r.returned
              ];
              ended = r.ended;
              entered = λ x m. elim m [
                | inl same ↦ λ w'.
                    dark (
                      subst (λ z. lookup z s.colour ≡ some Colour.white) same (r.ended.whiter x w'))
                | inr m' ↦ r.entered x m'
              ];
            }
      ]

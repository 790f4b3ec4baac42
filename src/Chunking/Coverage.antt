-- ===== src/Chunking/Coverage.antt =====
-- No text is lost between the chunks of src/app/domain/memory/chunking.py.
use orqent.Base.{
  ℕ, zero, suc, ◌+◌, ◌-◌, ◌≤◌, ◌<◌, List, [], ◌∷◌, Option, none, some, true, false, min, max, ltb,
  leb, length, is_nil, get_elem?, take, drop, strip, lstrip, rstrip, In, is_space, arith, ◌≡◌, refl,
  inl, inr, ap, sym, ◌∙◌, Option-cases, Bool-cases, leb-false→lt, ltb→lt, leb→le, ◌⊎◌, ltb-false→le,
}
use mathlib.Core.Path.{subst}
use orqent.Chunking.{
  Chunk, snapped, chunk_size, chunk_overlap, snap_window, slice, rfind_space, boundary, add_piece,
  counted, chunks_from, chunk_text,
}

rfind_space_bounds :
    (text : List ℕ) (start count w : ℕ)
    → rfind_space text start count ≡ some w
    → (start ≤ w) × (w < start + count)
unfolding rfind_space
rfind_space_bounds text start zero w h = cc
rfind_space_bounds text start (suc count) w h =
    elim (Option-cases (get_elem? text (start + count))) [
      | inl e ↦ ground (arith, rfind_space_bounds text start count w)
      | inr (c, e) ↦ ground (arith, rfind_space_bounds text start count w)
    ]

snapped_bounds :
    (start hard : ℕ) (o : Option ℕ)
    → start < hard
    → ((w : ℕ) → o ≡ some w → w < hard)
    → (start < snapped start hard o) × (snapped start hard o ≤ hard)
unfolding snapped
snapped_bounds start hard none h inside = (h, omega arith)
snapped_bounds start hard (some w) h inside = ground (arith, inside w refl)

-- A boundary lies behind the start of its chunk, inside the text and at most a chunk further on.
pub boundary_bounds :
    (text : List ℕ) (start : ℕ)
    → start < length text
    → (start < boundary text start)
      × (boundary text start ≤ length text)
      × (boundary text start ≤ start + chunk_size)
unfolding boundary
boundary_bounds text start h =
    let hard = min (start + chunk_size) (length text) in
    elim (Bool-cases (leb (length text) hard)) [
      | inl e ↦ rw e (omega arith)
      | inr e ↦
          let low = hard - snap_window in
          let short : hard < length text = leb-false→lt (length text) hard e in
          let (later, earlier) =
            snapped_bounds start hard (rfind_space text low snap_window) (omega arith) (λ w found.
              let (_, high) = rfind_space_bounds text low snap_window w found in omega arith) in
          rw e (later, omega arith, omega arith)
    ]

get_elem?-drop : (n i : ℕ) (text : List ℕ) → get_elem? (drop n text) i ≡ get_elem? text (n + i)
get_elem?-drop zero i text = ap (get_elem? text) (omega arith)
get_elem?-drop (suc n) i [] = refl
get_elem?-drop (suc n) i (c ∷ text) =
    let same : suc n + i ≡ suc (n + i) = omega arith in rw same (get_elem?-drop n i text)

In-take : (n i x : ℕ) (text : List ℕ) → get_elem? text i ≡ some x → i < n → In x (take n text)
In-take n i x [] found h = ground arith
In-take zero i x (c ∷ text) found h = omega arith
In-take (suc n) zero x (c ∷ text) found h = ground arith
In-take (suc n) (suc i) x (c ∷ text) found h = inr (In-take n i x text found (omega arith))

get_elem?-bound : (i x : ℕ) (text : List ℕ) → get_elem? text i ≡ some x → i < length text
get_elem?-bound i x [] found = cc
get_elem?-bound zero x (c ∷ text) found = omega arith
get_elem?-bound (suc i) x (c ∷ text) found = omega (arith, get_elem?-bound i x text found)

get_elem?-In : (i x : ℕ) (text : List ℕ) → get_elem? text i ≡ some x → In x text
get_elem?-In i x [] found = cc
get_elem?-In zero x (c ∷ text) found = ground arith
get_elem?-In (suc i) x (c ∷ text) found = inr (get_elem?-In i x text found)

In-slice :
    (start stop i x : ℕ) (text : List ℕ)
    → get_elem? text i ≡ some x
    → start ≤ i
    → i < stop
    → In x (slice text start stop)
unfolding slice
In-slice start stop i x text found low high =
    let same : start + (i - start) ≡ i = omega arith in
    In-take (stop - start) (i - start) x (drop start text)
      (get_elem?-drop start (i - start) text ∙ ap (get_elem? text) same ∙ found) (omega arith)

In-not_nil : (x : ℕ) (text : List ℕ) → In x text → is_nil text ≡ false
In-not_nil x [] h = absurd h
In-not_nil x (c ∷ text) h = refl

module _ (x : ℕ) (solid : is_space x ≡ false) where
  In-lstrip : (text : List ℕ) → In x text → In x (lstrip text)
  unfolding lstrip
  In-lstrip [] h = h
  In-lstrip (c ∷ text) (inl e) = rw (ap is_space (sym e) ∙ solid) (inl e)
  In-lstrip (c ∷ text) (inr m) = ground (arith, In-lstrip text m)

  In-rstrip : (text : List ℕ) → In x text → In x (rstrip text)
  unfolding rstrip
  In-rstrip [] h = h
  In-rstrip (c ∷ text) (inl e) = ground (arith, ap is_space (sym e) ∙ solid)
  In-rstrip (c ∷ text) (inr m) =
      rw (In-not_nil x (rstrip text) (In-rstrip text m)) (inr (In-rstrip text m))

  In-strip : (text : List ℕ) → In x text → In x (strip text)
  unfolding strip
  In-strip text h = In-rstrip (lstrip text) (In-lstrip text h)

lt→leb-false : (a b : ℕ) → b < a → leb a b ≡ false
lt→leb-false a b h = ground arith

lt→ltb : (a b : ℕ) → a < b → ltb a b ≡ true
lt→ltb a b h = ground arith

-- What one round of the loop appends, and where the next round begins.
pub round :
    (fuel : ℕ) (text : List ℕ) (start count : ℕ)
    → start < length text
    → (later : List Chunk) × (chunks_from (suc fuel) text start count
        ≡ add_piece count start (strip (slice text start (boundary text start))) later)
      × ((later ≡ [])
          ⊎ (later
              ≡ chunks_from fuel text
                  (max (boundary text start - chunk_overlap) (start + 1))
                  (counted count (strip (slice text start (boundary text start))))))
      × (boundary text start < length text
          → later
            ≡ chunks_from fuel text
                (max (boundary text start - chunk_overlap) (start + 1))
                (counted count (strip (slice text start (boundary text start)))))
unfolding chunks_from
round fuel text start count inside =
    let going = lt→ltb start (length text) inside in
    elim (Bool-cases (leb (length text) (boundary text start))) [
      | inl e ↦ (
        [],
        rw (going, e, chunks_from) refl,
        inl refl,
        λ h. absurd (omega (arith, leb→le (length text) (boundary text start) e)),
      )
      | inr e ↦ (_, rw (going, e, chunks_from) refl, inr refl, λ h. refl)
    ]

module _ (text : List ℕ) (i x : ℕ) (found : get_elem? text i ≡ some x)
    (solid : is_space x ≡ false) where
  add_piece-In :
      (count start : ℕ) (piece : List ℕ) (later : List Chunk) (c : Chunk)
      → In c later
      → In c (add_piece count start piece later)
  add_piece-In count start [] later c m = m
  add_piece-In count start (y ∷ piece) later c m = inr m

  add_piece_covers :
      (count start : ℕ) (piece : List ℕ) (later : List Chunk)
      → In x piece
      → (c : Chunk) × In c (add_piece count start piece later) × (c.start ≡ start) × In x c.text
  add_piece_covers count start [] later m = absurd m
  add_piece_covers count start (y ∷ piece) later m = (_, inl refl, refl, m)

  -- The loop puts every later character into a chunk, if the fuel reaches the end of the text.
  chunks_from_covers :
      (fuel start count : ℕ)
      → start ≤ i
      → length text ≤ start + fuel
      → (c : Chunk) × In c (chunks_from fuel text start count)
        × (c.start ≤ i)
        × (i < c.start + chunk_size)
        × In x c.text
  unfolding chunks_from
  chunks_from_covers zero start count low enough =
      absurd (omega (arith, get_elem?-bound i x text found))
  chunks_from_covers (suc fuel) start count low enough =
      let inside = get_elem?-bound i x text found in
      let (onward, _, near) = boundary_bounds text start (omega arith) in
      let stop = boundary text start in
      let piece = strip (slice text start stop) in
      let (later, same, _, next) = round fuel text start count (omega arith) in
      elim (Bool-cases (ltb i stop)) [
        | inl e ↦
            let here = ltb→lt i stop e in
            let (c, m, at, held) = add_piece_covers count start piece later (
              In-strip x solid (slice text start stop)
                (In-slice start stop i x text found low here)) in
            (c, rw same m, omega arith, omega arith, held)
        | inr e ↦
            let past = ltb-false→le i stop e in
            let (c, m, before, reach, held) =
              chunks_from_covers fuel (max (stop - chunk_overlap) (start + 1)) (counted count piece)
                (omega arith) (omega arith) in
            (
              c,
              rw same (
                  add_piece-In count start piece later c
                    (subst (In c) (sym (next (omega arith))) m)),
              before,
              reach,
              held,
            )
      ]

-- No text is lost: every character of the stripped text that is not whitespace stands in the text
-- of a chunk whose start is at most 999 characters before it.
pub chunk_text_covers :
    (text : List ℕ) (i x : ℕ)
    → get_elem? (strip text) i ≡ some x
    → is_space x ≡ false
    → (c : Chunk) × In c (chunk_text text)
      × (c.start ≤ i)
      × (i < c.start + chunk_size)
      × In x c.text
unfolding chunk_text
chunk_text_covers text i x found solid =
    let inside = get_elem?-bound i x (strip text) found in
    let present = get_elem?-In i x (strip text) found in
    let some_text = In-not_nil x (strip text) present in
    elim (Bool-cases (leb (length (strip text)) chunk_size)) [
      | inl e ↦ (
        record { ordinal = 0; text = strip text; start = 0 },
        rw (some_text, e) (inl refl),
        omega arith,
        omega (arith, leb→le (length (strip text)) chunk_size e),
        present,
      )
      | inr e ↦
          rw (some_text, e)
            (chunks_from_covers (strip text) i x found solid (length (strip text)) 0 0 (omega arith)
              (omega arith))
    ]

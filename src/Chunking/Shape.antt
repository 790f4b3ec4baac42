-- ===== src/Chunking/Shape.antt =====
-- The order, the numbering and the size of the chunks of src/app/domain/memory/chunking.py.
use orqent.Base.{
  ℕ, zero, suc, ◌+◌, ◌-◌, ◌≤◌, ◌<◌, List, [], ◌∷◌, false, max, ltb, leb, length, is_nil, take, drop,
  strip, lstrip, rstrip, arith, ◌≡◌, refl, inl, inr, sym, Bool-cases, leb→le, ltb→lt,
}
use mathlib.Core.Path.{subst}
use orqent.Chunking.{
  Chunk, chunk_size, chunk_overlap, slice, boundary, add_piece, counted, chunks_from, chunk_text,
}
use orqent.Chunking.Coverage.{boundary_bounds, round}

-- Chunks numbered from `n` on, each behind the one before it and the first at `low` or later, with
-- a text that is not empty and has at most 1000 characters.
abbrev pub ShapedFrom : ℕ → ℕ → List Chunk → Type 0
ShapedFrom n low [] = Unit
ShapedFrom n low (c ∷ chunks) =
    (c.ordinal ≡ n)
    × (low ≤ c.start)
    × (0 < length c.text)
    × (length c.text ≤ chunk_size)
    × ShapedFrom (suc n) (suc c.start) chunks

ShapedFrom-lower :
    (n low high : ℕ) (chunks : List Chunk)
    → low ≤ high
    → ShapedFrom n high chunks
    → ShapedFrom n low chunks
ShapedFrom-lower n low high [] h shaped = tt
ShapedFrom-lower n low high (c ∷ chunks) h (numbered, at, full, short, rest) =
    (numbered, omega arith, full, short, rest)

length-take : (n : ℕ) (text : List ℕ) → length (take n text) ≤ n
length-take zero text = omega arith
length-take (suc n) [] = omega arith
length-take (suc n) (c ∷ text) = omega (arith, length-take n text)

length-slice : (text : List ℕ) (start stop : ℕ) → length (slice text start stop) ≤ stop - start
unfolding slice
length-slice text start stop = length-take (stop - start) (drop start text)

length-lstrip : (text : List ℕ) → length (lstrip text) ≤ length text
unfolding lstrip
length-lstrip [] = omega arith
length-lstrip (c ∷ text) = ground (arith, length-lstrip text)

length-rstrip : (text : List ℕ) → length (rstrip text) ≤ length text
unfolding rstrip
length-rstrip [] = omega arith
length-rstrip (c ∷ text) = ground (arith, length-rstrip text)

length-strip : (text : List ℕ) → length (strip text) ≤ length text
unfolding strip
length-strip text = omega (arith, length-rstrip (lstrip text), length-lstrip text)

add_piece-ShapedFrom :
    (count low start : ℕ) (piece : List ℕ) (later : List Chunk)
    → low ≤ start
    → length piece ≤ chunk_size
    → ShapedFrom (counted count piece) (suc start) later
    → ShapedFrom count low (add_piece count start piece later)
add_piece-ShapedFrom count low start [] later h short shaped =
    ShapedFrom-lower count low (suc start) later (omega arith) shaped
add_piece-ShapedFrom count low start (c ∷ piece) later h short shaped =
    let same : count + 1 ≡ suc count = omega arith in
    (refl, h, omega arith, short, subst (λ n. ShapedFrom n (suc start) later) same shaped)

chunks_from-ShapedFrom :
    (fuel : ℕ) (text : List ℕ) (start count : ℕ)
    → ShapedFrom count start (chunks_from fuel text start count)
unfolding chunks_from
chunks_from-ShapedFrom zero text start count = tt
chunks_from-ShapedFrom (suc fuel) text start count = elim (Bool-cases (ltb start (length text))) [
  | inr e ↦ rw (e, chunks_from) tt
  | inl e ↦
      let inside = ltb→lt start (length text) e in
      let (_, _, near) = boundary_bounds text start inside in
      let stop = boundary text start in
      let piece = strip (slice text start stop) in
      let next = max (stop - chunk_overlap) (start + 1) in
      let (later, same, alternatives, _) = round fuel text start count inside in
      let shaped : ShapedFrom (counted count piece) (suc start) later = elim alternatives [
        | inl none_left ↦ subst (ShapedFrom (counted count piece) (suc start)) (sym none_left) tt
        | inr again ↦ subst (ShapedFrom (counted count piece) (suc start)) (sym again) (
            ShapedFrom-lower (counted count piece) (suc start) next _ (omega arith)
              (chunks_from-ShapedFrom fuel text next (counted count piece)))
      ] in
      subst (ShapedFrom count start) (sym same) (
        add_piece-ShapedFrom count start start piece later (omega arith)
          (omega (arith, length-strip (slice text start stop), length-slice text start stop))
          shaped)
]

is_nil-length : (text : List ℕ) → is_nil text ≡ false → 0 < length text
is_nil-length [] h = cc
is_nil-length (c ∷ text) h = omega arith

-- The chunks of a text are numbered 0, 1, 2 and so on, their starts increase, and each has a text
-- of 1 to 1000 characters.
pub chunk_text-ShapedFrom : (text : List ℕ) → ShapedFrom 0 0 (chunk_text text)
unfolding chunk_text
chunk_text-ShapedFrom text = elim (Bool-cases (is_nil (strip text))) [
  | inl blank ↦ rw blank tt
  | inr full ↦ elim (Bool-cases (leb (length (strip text)) chunk_size)) [
    | inl e ↦
        rw (full, e)
          (
            refl,
            omega arith,
            is_nil-length (strip text) full,
            leb→le (length (strip text)) chunk_size e,
            tt,
          )
    | inr e ↦ rw (full, e) (chunks_from-ShapedFrom (length (strip text)) (strip text) 0 0)
  ]
]

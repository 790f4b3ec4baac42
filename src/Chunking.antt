-- ===== src/Chunking.antt =====
-- src/app/domain/memory/chunking.py: a document cut into overlapping chunks. Text is its list of
-- code points.
pub mod Coverage
pub mod Shape
use orqent.Base.{
  ℕ, zero, suc, ◌+◌, ◌-◌, List, [], ◌∷◌, Option, none, some, Bool, true, false, min, max,
  if◌then◌else◌, ltb, leb, eqb, length, is_nil, get_elem?, take, drop, strip, arith,
}

abbrev pub chunk_size : ℕ
chunk_size = 1_000

abbrev pub chunk_overlap : ℕ
chunk_overlap = 200

abbrev pub snap_window : ℕ
snap_window = 100

pub record Chunk : Type 0 where
  pub ordinal : ℕ
  pub text : List ℕ
  pub start : ℕ

-- `Chunk.end`
abbrev pub end_of : Chunk → ℕ
end_of c = c.start + length c.text

-- `text[start:stop]`
unfoldable pub slice : List ℕ → ℕ → ℕ → List ℕ
slice text start stop = take (stop - start) (drop start text)

-- `text.rfind(" ", start, start + count)`, with `none` for -1.
unfoldable pub rfind_space : List ℕ → ℕ → ℕ → Option ℕ
rfind_space text start zero = none
rfind_space text start (suc count) =
    let earlier = rfind_space text start count in
    elim (get_elem? text (start + count)) [
      | none ↦ earlier
      | some c ↦ if eqb c 0x20 then some (start + count) else earlier
    ]

-- `window if window > start else hard`
unfoldable pub snapped : ℕ → ℕ → Option ℕ → ℕ
snapped start hard none = hard
snapped start hard (some window) = if ltb start window then window else hard

-- `_boundary`
unfoldable pub boundary : List ℕ → ℕ → ℕ
unfolding rfind_space snapped
boundary text start =
    let hard = min (start + chunk_size) (length text) in
    if leb (length text) hard
    then hard
    else snapped start hard (rfind_space text (hard - snap_window) snap_window)

-- `if piece: chunks.append(...)`, in front of what the later rounds append.
abbrev pub add_piece : ℕ → ℕ → List ℕ → List Chunk → List Chunk
add_piece count start piece later =
    if is_nil piece then later else record { ordinal = count; text = piece; start = start } ∷ later

abbrev pub counted : ℕ → List ℕ → ℕ
counted count piece = if is_nil piece then count else count + 1

-- The `while` loop, from `start` and with `count` chunks appended already. Each round moves `start`
-- forward, so that the length of the text is enough fuel.
unfoldable pub chunks_from : ℕ → List ℕ → ℕ → ℕ → List Chunk
unfolding boundary slice strip
chunks_from zero text start count = []
chunks_from (suc fuel) text start count =
    let stop = boundary text start in
    let piece = strip (slice text start stop) in
    elim (ltb start (length text)) [
      | false ↦ []
      | true ↦ add_piece count start piece (elim (leb (length text) stop) [
        | true ↦ []
        | false ↦
            chunks_from fuel text (max (stop - chunk_overlap) (start + 1)) (counted count piece)
      ])
    ]

unfoldable pub chunk_text : List ℕ → List Chunk
unfolding chunks_from strip
chunk_text text =
    let stripped = strip text in
    if is_nil stripped then [] else elim (leb (length stripped) chunk_size) [
      | true ↦ record { ordinal = 0; text = stripped; start = 0 } ∷ []
      | false ↦ chunks_from (length stripped) stripped 0 0
    ]

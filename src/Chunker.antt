-- ===== src/Chunker.antt =====
-- narration-enrichment/src/narration_enrichment/chunker.py: overlapping fixed-size spans. A text is
-- the list of its code points; the chunk size and the overlap are Python ints.
pub mod Cover
mod Examples
use gen_ai_backend.Prelude.{
  ℕ, zero, suc, ◌+◌, ◌-◌, Option, none, some, leb, ltb, if◌then◌else◌, List, [], ◌∷◌, length, take,
  drop, ◌||◌, ◌==◌,
}
use gen_ai_backend.Prelude.Int.{ℤ, is_negative, pos_part}
use gen_ai_backend.Prelude.Text.{Text, is_empty, strip}

pub record Chunk : Type 0 where
  pub index : ℕ
  pub content : Text

-- The three `ValueError`s. `out_of_fuel` is the model's own, and is never returned.
pub data ChunkError : Type 0 where
  size_not_positive overlap_negative overlap_too_large out_of_fuel : ChunkError

pub data Chunks : Type 0 where
  chunks : List Chunk → Chunks
  invalid : ChunkError → Chunks

-- `text[start:start + size]`
abbrev pub slice : Text → ℕ → ℕ → Text
slice text start size = take size (drop start text)

-- What one round of the loop adds in front of the chunks of the later rounds.
abbrev pub put_chunk : Chunk → Option (List Chunk) → Option (List Chunk)
put_chunk c none = none
put_chunk c (some cs) = some (c ∷ cs)

-- The `while start < len(stripped)` loop on fuel; it breaks after the chunk that reaches the end.
unfoldable pub chunk_loop : ℕ → Text → ℕ → ℕ → ℕ → ℕ → Option (List Chunk)
chunk_loop zero text size step idx start = none
chunk_loop (suc fuel) text size step idx start =
    let rest = chunk_loop fuel text size step (idx + 1) (start + step) in
    if ltb start (length text)
    then put_chunk (record { index = idx; content = slice text start size })
        (if leb (length text) (start + size) then some [] else rest)
    else some []

abbrev or_fuel : Option (List Chunk) → Chunks
or_fuel none = invalid out_of_fuel
or_fuel (some cs) = chunks cs

-- The body behind the guards, for a stripped text.
pub chunk_stripped : Text → ℕ → ℕ → Chunks
chunk_stripped text size overlap =
    if is_empty text
    then chunks []
    else if leb (length text) size
    then chunks (record { index = 0; content = text } ∷ [])
    else or_fuel (chunk_loop (length text) text size (size - overlap) 0 0)

unfoldable pub chunk : Text → ℤ → ℤ → Chunks
unfolding chunk_stripped
chunk text chunk_size overlap =
    if is_negative chunk_size || pos_part chunk_size == 0
    then invalid size_not_positive
    else if is_negative overlap
    then invalid overlap_negative
    else if leb (pos_part chunk_size) (pos_part overlap)
    then invalid overlap_too_large
    else chunk_stripped (strip text) (pos_part chunk_size) (pos_part overlap)

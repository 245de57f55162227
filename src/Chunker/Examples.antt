-- ===== src/Chunker/Examples.antt =====
-- The chunker on a short text, and its refusals.
use gen_ai_backend.Prelude.{◌≡◌, refl, [], ◌∷◌, arith}
use gen_ai_backend.Prelude.Int.{pos, negsuc}
use gen_ai_backend.Prelude.Text.{Text, strip, lstrip, rstrip, is_space}
use gen_ai_backend.Chunker.{
  chunks, invalid, size_not_positive, overlap_negative, overlap_too_large, chunk, chunk_loop,
}
use gen_ai_backend.Chunker.Cover.{Covering, chunk-Covering}

-- "  abcdefg "
abbrev padded : Text
padded = 32 ∷ 32 ∷ 97 ∷ 98 ∷ 99 ∷ 100 ∷ 101 ∷ 102 ∷ 103 ∷ 32 ∷ []

three_chunks :
    chunk padded (pos 4) (pos 2)
    ≡ chunks (
        record { index = 0; content = 97 ∷ 98 ∷ 99 ∷ 100 ∷ [] }
        ∷ record { index = 1; content = 99 ∷ 100 ∷ 101 ∷ 102 ∷ [] }
        ∷ record { index = 2; content = 101 ∷ 102 ∷ 103 ∷ [] }
        ∷ [])
unfolding chunk chunk_loop strip lstrip rstrip is_space
three_chunks = refl

refusals :
    (chunk padded (pos 0) (pos 2) ≡ invalid size_not_positive)
    × (chunk padded (negsuc 3) (pos 2) ≡ invalid size_not_positive)
    × (chunk padded (pos 4) (negsuc 0) ≡ invalid overlap_negative)
    × (chunk padded (pos 4) (pos 4) ≡ invalid overlap_too_large)
unfolding chunk
refusals = (refl, refl, refl, refl)

chunk-Covering_example : Covering (strip padded) 4 2 (chunk padded (pos 4) (pos 2))
chunk-Covering_example = chunk-Covering padded 4 2 (omega arith)

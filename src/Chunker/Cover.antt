-- ===== src/Chunker/Cover.antt =====
-- The chunks of a text: where each one lies, and that they give the text back.
use gen_ai_backend.Prelude.{
  ℕ, zero, suc, ◌+◌, ◌-◌, ◌*◌, ◌≤◌, ◌<◌, min, ◌≡◌, refl, sym, ◌∙◌, ap, Bool-cases, inl, inr, false,
  Option, some, List, [], ◌∷◌, ◌++◌, length, drop, ◌==◌, length-drop, length-take, take_all,
  take-append-drop, drop-append, drop-drop, arith, leb, lt→ltb,
}
use mathlib.Core.List.{append-nil}
use gen_ai_backend.Prelude.Int.{pos}
use gen_ai_backend.Prelude.Text.{Text, strip}
use gen_ai_backend.Chunker.{
  Chunk, Chunks, chunks, slice, put_chunk, chunk_loop, chunk_stripped, chunk,
}

-- The text that chunks stand for: the first whole, the others without what they repeat.
abbrev fresh_parts : ℕ → List Chunk → Text
fresh_parts overlap [] = []
fresh_parts overlap (c ∷ cs) = drop overlap c.content ++ fresh_parts overlap cs

abbrev pub reassemble : ℕ → List Chunk → Text
reassemble overlap [] = []
reassemble overlap (c ∷ cs) = c.content ++ fresh_parts overlap cs

-- From position `k` on, chunk number k has index k and lies `step` further than the one before it.
abbrev pub AtOffsets : Text → ℕ → ℕ → ℕ → List Chunk → Type 0
AtOffsets text size step k [] = Unit
AtOffsets text size step k (c ∷ cs) =
    (c.index ≡ k)
    × (c.content ≡ slice text (k * step) size)
    × (0 < length c.content)
    × (length c.content ≤ size)
    × AtOffsets text size step (k + 1) cs

length-slice :
    (text : Text) (start size : ℕ) → length (slice text start size) ≡ min size (length text - start)
length-slice text start size = rw length-take (rw length-drop refl)

-- Where the loop's result stands: it produced chunks, they lie where they should, and they give
-- back the text from `start` on.
record Covers (text : Text) (size overlap step idx start : ℕ) (result : Option (List Chunk))
    : Type 0 where
  first : Chunk
  others : List Chunk
  produced : result ≡ some (first ∷ others)
  offsets : AtOffsets text size step idx (first ∷ others)
  whole : reassemble overlap (first ∷ others) ≡ drop start text

module _ (text : Text) (size overlap : ℕ) (h : overlap < size) where
  joins :
      (start : ℕ) (c : Chunk) (cs : List Chunk)
      → c.content ≡ slice text (start + (size - overlap)) size
      → start + size < length text
      → reassemble overlap (c ∷ cs) ≡ drop (start + (size - overlap)) text
      → slice text start size ++ fresh_parts overlap (c ∷ cs) ≡ drop start text
  joins start c cs at more whole =
      let long : overlap ≤ length c.content =
        rw at (omega (arith, length-slice text (start + (size - overlap)) size)) in
      let fresh : fresh_parts overlap (c ∷ cs) ≡ drop size (drop start text) =
        sym (drop-append overlap c.content (fresh_parts overlap cs) long)
        ∙ ap (drop overlap) whole
        ∙ drop-drop overlap (start + (size - overlap)) text
        ∙ ap (λ k. drop k text) (omega arith)
        ∙ sym (drop-drop size start text) in
      rw fresh (take-append-drop size (drop start text))

  last_round :
      (idx start : ℕ)
      → start < length text
      → length text ≤ start + size
      → start ≡ idx * (size - overlap)
      → Covers text size overlap
          (size - overlap)
          idx
          start
          (some (record { index = idx; content = slice text start size } ∷ []))
  last_round idx start l last e = record {
    first = record { index = idx; content = slice text start size };
    others = [];
    produced = refl;
    offsets = (
      refl,
      ap (λ k. slice text k size) e,
      omega (arith, length-slice text start size),
      omega (arith, length-slice text start size),
      tt,
    );
    whole =
        append-nil (slice text start size)
        ∙ take_all size (drop start text) (omega (arith, length-drop start text));
  }

  next_round :
      (idx start : ℕ) (rest : Option (List Chunk))
      → start + size < length text
      → start ≡ idx * (size - overlap)
      → Covers text size overlap (size - overlap) (idx + 1) (start + (size - overlap)) rest
      → Covers text size overlap
          (size - overlap)
          idx
          start
          (put_chunk (record { index = idx; content = slice text start size }) rest)
  next_round idx start rest more e ih = record {
    first = record { index = idx; content = slice text start size };
    others = ih.first ∷ ih.others;
    produced = rw ih.produced;
    offsets = (
      refl,
      ap (λ k. slice text k size) e,
      omega (arith, length-slice text start size),
      omega (arith, length-slice text start size),
      ih.offsets,
    );
    whole =
        joins start ih.first ih.others (ih.offsets.1 ∙ ap (λ k. slice text k size) (grind arith))
          more ih.whole;
  }

  loop-Covers :
      (fuel idx start : ℕ)
      → start < length text
      → length text ≤ start + fuel
      → start ≡ idx * (size - overlap)
      → Covers text size overlap
          (size - overlap)
          idx
          start
          (chunk_loop fuel text size (size - overlap) idx start)
  unfolding chunk_loop
  loop-Covers zero idx start l f e = absurd (omega arith)
  loop-Covers (suc fuel) idx start l f e = elim (Bool-cases (leb (length text) (start + size))) [
    | inl last ↦ rw (lt→ltb start (length text) l, last) (last_round idx start l (ground arith) e)
    | inr more ↦
        rw (lt→ltb start (length text) l, more)
          (next_round idx start _ (ground arith) e (
            loop-Covers fuel (idx + 1) (start + (size - overlap)) (ground arith) (omega arith)
              (grind arith)))
  ]

-- The chunks that a call returns, where they lie and what they stand for.
pub record Covering (text : Text) (size overlap : ℕ) (result : Chunks) : Type 0 where
  pub parts : List Chunk
  pub returned : result ≡ chunks parts
  pub offsets : AtOffsets text size (size - overlap) 0 parts
  pub whole : reassemble overlap parts ≡ text

stripped-Covering :
    (text : Text) (size overlap : ℕ)
    → overlap < size
    → Covering text size overlap (chunk_stripped text size overlap)
unfolding chunk_stripped
stripped-Covering [] size overlap h = record {
  parts = [];
  returned = refl;
  offsets = tt;
  whole = refl;
}
stripped-Covering (t ∷ ts) size overlap h = elim (Bool-cases (leb (length (t ∷ ts)) size)) [
  | inl short ↦ rw short (record {
    parts = record { index = 0; content = t ∷ ts } ∷ [];
    returned = refl;
    offsets = (
      refl,
      sym (ap (λ k. slice (t ∷ ts) k size) zero_mul ∙ take_all size (t ∷ ts) (ground arith)),
      omega arith,
      ground arith,
      tt,
    );
    whole = append-nil (t ∷ ts);
  })
  | inr long ↦
      let c =
        loop-Covers (t ∷ ts) size overlap h (length (t ∷ ts)) 0 0 (omega arith) (omega arith)
          (omega arith) in
      rw (long, c.produced)
        (record {
          parts = c.first ∷ c.others;
          returned = refl;
          offsets = c.offsets;
          whole = c.whole;
        })
]
  where
    zero_mul : 0 * (size - overlap) ≡ 0
    zero_mul = omega arith

-- With an overlap below the chunk size `chunk` returns, its loop included: the chunks are numbered
-- from 0, chunk k is the stripped text's slice of the chunk size from k times the step on, none is
-- empty or longer than the chunk size, and leaving out what each later chunk repeats they give the
-- stripped text back.
pub chunk-Covering :
    (text : Text) (size overlap : ℕ)
    → overlap < size
    → Covering (strip text) size overlap (chunk text (pos size) (pos overlap))
unfolding chunk
chunk-Covering text size overlap h =
    let positive : (size == 0) ≡ false = ground arith in
    let apart : leb size overlap ≡ false = ground arith in
    rw (positive, apart) (stripped-Covering (strip text) size overlap h)

-- ===== src/Chunking/Bounds.antt =====
-- The shape of the chunks of app/chunking.py: how long they are, and what stands at their ends.
use vegapunk_web.Base.{
  ◌≤◌, Bool, true, false, not, ◌&&◌, List, [], ◌∷◌, map, leb, is_nil, concat, length, ◌≡◌, ◌≢◌,
  refl, sym, subst, ◌⊎◌, inl, inr, arith, All, All-append, In, if_intro, leb→le,
}
use vegapunk_web.Text.{Text, strip, starts_with, split, join}
use vegapunk_web.Text.Laws.{strip-strip, length-strip}
use vegapunk_web.Chunking.{
  max_chunk_chars, fence, newline, is_heading, Blocks, flush_lines, add_block, flush, push_line,
  block_line, block_lines, no_blocks, split_blocks, nonempty, split_long, block_chunks,
  split_into_chunks,
}
use vegapunk_web.Chunking.Long.{split_long-bound}

abbrev pub IsStripped : Text → Type 0
IsStripped t = strip t ≡ t

abbrev pub BlockIsStripped : Text × Bool → Type 0
BlockIsStripped (t, _) = IsStripped t × (t ≢ [])

abbrev AllStripped : Blocks → Type 0
AllStripped b = All BlockIsStripped b.blocks

add_block-AllStripped :
    (t : Text) (code : Bool) (bs : List (Text × Bool))
    → IsStripped t
    → All BlockIsStripped bs
    → All BlockIsStripped (add_block t code bs)
add_block-AllStripped [] code bs e h = h
add_block-AllStripped (c ∷ t) code bs e h =
    All-append BlockIsStripped bs ((c ∷ t, code) ∷ []) h ((e, λ n. cc), tt)

flush_lines-AllStripped :
    (ls : List Text) (code : Bool) (b : Blocks)
    → AllStripped b
    → AllStripped (flush_lines ls code b)
unfolding flush_lines
flush_lines-AllStripped [] code b h = h
flush_lines-AllStripped (l ∷ ls) code b h =
    add_block-AllStripped (strip (join newline (l ∷ ls))) code b.blocks
      (strip-strip (join newline (l ∷ ls))) h

flush-AllStripped : (code : Bool) (b : Blocks) → AllStripped b → AllStripped (flush code b)
unfolding flush
flush-AllStripped code b h = flush_lines-AllStripped b.cur code b h

block_line-AllStripped :
    (b : Blocks) (line : Text) → AllStripped b → AllStripped (block_line b line)
unfolding block_line
block_line-AllStripped b line h =
    if_intro AllStripped (not b.in_fence && starts_with fence (strip line)) _ _
      (λ _. flush-AllStripped false b h)
      (λ _.
        if_intro AllStripped b.in_fence _ _
          (λ _.
            if_intro AllStripped (starts_with fence (strip line)) _ _
              (λ _. flush-AllStripped true (record (push_line line b) { in_fence = false }) h)
              (λ _. h))
          (λ _.
            if_intro AllStripped (is_nil (strip line)) _ _ (λ _. flush-AllStripped false b h)
              (λ _.
                if_intro AllStripped (is_heading line) _ _ (λ _. flush-AllStripped false b h)
                  (λ _. h))))

block_lines-AllStripped :
    (b : Blocks) (lines : List Text) → AllStripped b → AllStripped (block_lines b lines)
unfolding block_lines
block_lines-AllStripped b [] h = h
block_lines-AllStripped b (line ∷ lines) h =
    block_lines-AllStripped (block_line b line) lines (block_line-AllStripped b line h)

pub split_blocks-AllStripped : (body : Text) → All BlockIsStripped (split_blocks body)
unfolding split_blocks
split_blocks-AllStripped body =
    let b = block_lines no_blocks (split b'\n' body) in
    flush-AllStripped b.in_fence b (block_lines-AllStripped no_blocks (split b'\n' body) tt)

-- A chunk is within the bound, or it is a code block.
abbrev pub IsBounded : List (Text × Bool) → Text → Type 0
IsBounded bs c = (length c ≤ max_chunk_chars) ⊎ In (c, true) bs

abbrev pub IsChunk : List (Text × Bool) → Text → Type 0
IsChunk bs c = IsBounded bs c × IsStripped c × (c ≢ [])

strip-IsBounded :
    (bs : List (Text × Bool)) (p : Text) → length p ≤ max_chunk_chars → IsBounded bs (strip p)
strip-IsBounded bs p h = inl (omega (arith, length-strip p))

All-strip :
    (bs : List (Text × Bool)) (ps : List Text)
    → All (λ p. length p ≤ max_chunk_chars) ps
    → All (λ p. IsBounded bs (strip p)) ps
All-strip bs [] h = tt
All-strip bs (p ∷ ps) h = (strip-IsBounded bs p h.0, All-strip bs ps h.1)

block_chunks-IsBounded :
    (bs : List (Text × Bool)) (b : Text × Bool)
    → In b bs
    → BlockIsStripped b
    → All (λ p. IsBounded bs (strip p)) (block_chunks b)
unfolding block_chunks
block_chunks-IsBounded bs (t, true) i e = (inr (subst (λ s. In (s, true) bs) (sym e.0) i), tt)
block_chunks-IsBounded bs (t, false) i e =
    if_intro (All (λ p. IsBounded bs (strip p))) (leb (length t) max_chunk_chars) _ _
      (λ d. (strip-IsBounded bs t (leb→le _ _ d), tt))
      (λ _. All-strip bs (split_long t) (split_long-bound t))

chunks_of_blocks-IsBounded :
    (bs cs : List (Text × Bool))
    → ((b : Text × Bool) → In b cs → In b bs)
    → All BlockIsStripped cs
    → All (λ p. IsBounded bs (strip p)) (concat (map block_chunks cs))
chunks_of_blocks-IsBounded bs [] sub h = tt
chunks_of_blocks-IsBounded bs (c ∷ cs) sub h =
    All-append (λ p. IsBounded bs (strip p)) (block_chunks c) (concat (map block_chunks cs))
      (block_chunks-IsBounded bs c (sub c (inl refl)) h.0)
      (chunks_of_blocks-IsBounded bs cs (λ b i. sub b (inr i)) h.1)

not_nil-ne : (t : Text) → not (is_nil t) ≡ true → t ≢ []
not_nil-ne [] h e = cc
not_nil-ne (c ∷ t) h e = cc

nonempty-IsChunk :
    (bs : List (Text × Bool)) (ps : List Text)
    → All (λ p. IsBounded bs (strip p)) ps
    → All (IsChunk bs) (nonempty (map strip ps))
nonempty-IsChunk bs [] h = tt
nonempty-IsChunk bs (p ∷ ps) h =
    if_intro (All (IsChunk bs)) (not (is_nil (strip p))) _ _
      (λ e. ((h.0, strip-strip p, not_nil-ne (strip p) e), nonempty-IsChunk bs ps h.1))
      (λ _. nonempty-IsChunk bs ps h.1)

-- Every chunk is stripped and not empty, and has at most `MAX_CHUNK_CHARS` characters or is a
-- block that is kept as code.
pub split_into_chunks-IsChunk :
    (body : Text) → All (IsChunk (split_blocks body)) (split_into_chunks body)
unfolding split_into_chunks
split_into_chunks-IsChunk body =
    nonempty-IsChunk (split_blocks body) (concat (map block_chunks (split_blocks body))) (
      chunks_of_blocks-IsBounded (split_blocks body) (split_blocks body) (λ _ i. i)
        (split_blocks-AllStripped body))

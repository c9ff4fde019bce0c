-- ===== src/Chunking/Pieces.antt =====
-- What the chunks of split_into_chunks of app/chunking.py are.
use vegapunk_web.Base.{
  ◌≤◌, Bool, true, false, List, [], ◌∷◌, ◌++◌, length, ◌≡◌, ◌≢◌, refl, ap, sym, subst, ◌∙◌, ◌⊎◌,
  inl, inr, All, In, append-nil,
}
use vegapunk_web.Text.{Text, strip, split, join}
use vegapunk_web.Chunking.{
  max_chunk_chars, newline, Blocks, flush_lines, flush, block_lines, no_blocks, split_blocks,
  split_into_chunks,
}
use vegapunk_web.Chunking.Bounds.{IsStripped, IsChunk, split_into_chunks-IsChunk}
use vegapunk_web.Chunking.CodeBlocks.{IsFence, IsPlain}
use vegapunk_web.Chunking.Regions.{is_open, IsCode, BlockIsCode}
use vegapunk_web.Chunking.Scanned.{
  Standing, Invariant, add_block-IsCode, flush-IsCode, block_lines-Invariant,
}

-- The blocks that are code are fenced regions of the lines.
last_flush-IsCode :
    (lines : List Text) (b : Blocks)
    → Invariant lines lines b
    → All (BlockIsCode lines) (flush b.in_fence b).blocks
unfolding flush_lines
last_flush-IsCode lines b (h, st) = go b.in_fence st
  where
    flushed :
        (cur before inner : List Text) (opening : Text)
        → lines ≡ before ++ (opening ∷ inner)
        → is_open false before ≡ false
        → IsFence opening
        → All IsPlain inner
        → cur ≡ opening ∷ inner
        → All (BlockIsCode lines) (flush_lines cur true b).blocks
    flushed [] before inner opening e o f p c = cc
    flushed (l ∷ ls) before inner opening e o f p c =
        add_block-IsCode lines (strip (join newline (l ∷ ls))) true b.blocks
          (
            l ∷ ls,
            record {
              before = before;
              rest = [];
              opening = opening;
              inner = inner;
              closing = [];
              splits = e ∙ ap (λ (x : List Text). before ++ x) (sym c ∙ sym (append-nil (l ∷ ls)));
              outside = o;
              shape = c ∙ ap (◌∷◌ opening) (sym (append-nil inner));
              opens = f;
              plain = p;
              ends = inl (refl, refl);
            },
            refl,
          )
          h

    go : (f : Bool) → Standing lines f b.cur → All (BlockIsCode lines) (flush f b).blocks
    go false o = flush-IsCode lines b h
    go true (before, opening, inner, e, o, f, p, c) =
        unfold flush in flushed b.cur before inner opening e o f p c

split_blocks-IsCode : (body : Text) → All (BlockIsCode (split b'\n' body)) (split_blocks body)
unfolding split_blocks is_open
split_blocks-IsCode body =
    let lines = split b'\n' body in
    last_flush-IsCode lines (block_lines no_blocks lines)
      (block_lines-Invariant lines [] lines no_blocks refl (tt, refl))

-- A chunk is within the bound, or a fenced region; it is stripped and not empty.
abbrev pub IsPiece : List Text → Text → Type 0
IsPiece lines c = ((length c ≤ max_chunk_chars) ⊎ IsCode lines c) × IsStripped c × (c ≢ [])

IsCode-of_In :
    (lines : List Text) (bs : List (Text × Bool)) (t : Text)
    → All (BlockIsCode lines) bs
    → In (t, true) bs
    → IsCode lines t
IsCode-of_In lines [] t h i = absurd i
IsCode-of_In lines (b ∷ bs) t h (inl e) = subst (BlockIsCode lines) (sym e) h.0
IsCode-of_In lines (b ∷ bs) t h (inr i) = IsCode-of_In lines bs t h.1 i

All-IsPiece :
    (lines : List Text) (bs : List (Text × Bool)) (cs : List Text)
    → All (BlockIsCode lines) bs
    → All (IsChunk bs) cs
    → All (IsPiece lines) cs
All-IsPiece lines bs [] h k = tt
All-IsPiece lines bs (c ∷ cs) h ((inl b, s, n), ks) = ((inl b, s, n), All-IsPiece lines bs cs h ks)
All-IsPiece lines bs (c ∷ cs) h ((inr i, s, n), ks) =
    ((inr (IsCode-of_In lines bs c h i), s, n), All-IsPiece lines bs cs h ks)

-- Every chunk is stripped and not empty, and has at most 500 characters or is, stripped, a fenced
-- region of the body's lines: from a line that opens a fence to the next line that starts with one,
-- or to the end.
pub split_into_chunks-IsPiece :
    (body : Text) → All (IsPiece (split b'\n' body)) (split_into_chunks body)
split_into_chunks-IsPiece body =
    All-IsPiece (split b'\n' body) (split_blocks body) (split_into_chunks body)
      (split_blocks-IsCode body) (split_into_chunks-IsChunk body)

-- ===== src/Chunking/CodeBlocks.antt =====
-- Fenced code in _split_blocks and split_into_chunks of app/chunking.py.
use vegapunk_web.Base.{
  Bool, true, false, not, List, [], ◌∷◌, ◌++◌, map, is_nil, concat, ◌≡◌, ◌≢◌, refl, ap, sym, subst,
  ◌∙◌, inl, inr, All, In, In-map, In-keep, In-append_left, In-append_right, append_assoc,
  append-nil,
}
use vegapunk_web.Text.{Text, strip, starts_with, join}
use vegapunk_web.Chunking.{
  fence, newline, Blocks, flush_lines, add_block, flush, push_line, block_line, block_lines,
  split_blocks, block_chunks, split_into_chunks,
}
use vegapunk_web.Chunking.Bounds.{BlockIsStripped, split_blocks-AllStripped}

abbrev pub IsFence : Text → Type 0
IsFence line = starts_with fence (strip line) ≡ true

abbrev pub IsPlain : Text → Type 0
IsPlain line = starts_with fence (strip line) ≡ false

pub line_in_fence :
    (b : Blocks) (line : Text)
    → b.in_fence ≡ true
    → IsPlain line
    → block_line b line ≡ push_line line b
unfolding block_line
line_in_fence b line e p = simp (e, p)

pub fence_opens :
    (b : Blocks) (line : Text)
    → b.in_fence ≡ false
    → IsFence line
    → block_line b line ≡ push_line line (record (flush false b) { in_fence = true })
unfolding block_line
fence_opens b line e p = simp (e, p)

pub fence_closes :
    (b : Blocks) (line : Text)
    → b.in_fence ≡ true
    → IsFence line
    → block_line b line ≡ flush true (record (push_line line b) { in_fence = false })
unfolding block_line
fence_closes b line e p = simp (e, p)

fence_body :
    (b : Blocks) (ls : List Text)
    → b.in_fence ≡ true
    → All IsPlain ls
    → block_lines b ls ≡ record b { cur = b.cur ++ ls }
unfolding block_lines
fence_body b [] e h = ap (λ (x : List Text). record b { cur = x }) (sym (append-nil b.cur))
fence_body b (l ∷ ls) e h =
    ap (λ (x : Blocks). block_lines x ls) (line_in_fence b l e h.0)
    ∙ fence_body (push_line l b) ls e h.1
    ∙ ap (λ (x : List Text). record b { cur = x }) (append_assoc b.cur (l ∷ []) ls)

pub block_lines-append :
    (b : Blocks) (ls ms : List Text) → block_lines b (ls ++ ms) ≡ block_lines (block_lines b ls) ms
unfolding block_lines
block_lines-append b [] ms = refl
block_lines-append b (l ∷ ls) ms = block_lines-append (block_line b l) ls ms

-- What a fenced region does to the loop's state: one code block behind the text that waited.
abbrev pub after_fence : Blocks → List Text → Blocks
after_fence b region = record {
  blocks = add_block (strip (join newline region)) true (flush false b).blocks;
  cur = [];
  in_fence = false;
}

cur-flush : (b : Blocks) → (flush false b).cur ≡ []
unfolding flush flush_lines
cur-flush b = go b.cur refl
  where
    go : (ls : List Text) → b.cur ≡ ls → (flush_lines ls false b).cur ≡ []
    go [] e = e
    go (l ∷ ls) e = refl

flush_cons :
    (b : Blocks) (l : Text) (ls : List Text)
    → b.cur ≡ l ∷ ls
    → flush true b
      ≡ record b { blocks = add_block (strip (join newline b.cur)) true b.blocks; cur = [] }
unfolding flush flush_lines
flush_cons b l ls e = rw e

-- The state inside a fence, with the lines of it that were read.
unfoldable pub in_region : Blocks → List Text → Blocks
in_region b region = record (flush false b) { cur = region; in_fence = true }

pub enter_region :
    (b : Blocks) (opening : Text)
    → b.in_fence ≡ false
    → IsFence opening
    → block_line b opening ≡ in_region b (opening ∷ [])
unfolding in_region
enter_region b opening e o =
    fence_opens b opening e o
    ∙ ap (λ (x : List Text). record (flush false b) { cur = x ++ (opening ∷ []); in_fence = true })
        (cur-flush b)

leave_region :
    (b : Blocks) (l : Text) (ls : List Text) (closing : Text)
    → IsFence closing
    → block_line (in_region b (l ∷ ls)) closing ≡ after_fence b ((l ∷ ls) ++ (closing ∷ []))
unfolding in_region
leave_region b l ls closing c =
    fence_closes (in_region b (l ∷ ls)) closing refl c
    ∙ flush_cons (record (push_line closing (in_region b (l ∷ ls))) { in_fence = false }) l
        (ls ++ (closing ∷ [])) refl

-- From a line that opens a fence to the next line that starts with a fence, whatever stands between
-- (blank lines and headings too) becomes one code block, and the text before it is a block of its
-- own.
pub block_lines_fenced :
    (b : Blocks) (opening closing : Text) (inner rest : List Text)
    → b.in_fence ≡ false
    → IsFence opening
    → All IsPlain inner
    → IsFence closing
    → block_lines b ((opening ∷ inner) ++ (closing ∷ rest))
      ≡ block_lines (after_fence b ((opening ∷ inner) ++ (closing ∷ []))) rest
unfolding in_region block_lines
block_lines_fenced b opening closing inner rest e o h c =
    ap (λ (x : Blocks). block_lines x (inner ++ (closing ∷ rest))) (enter_region b opening e o)
    ∙ block_lines-append (in_region b (opening ∷ [])) inner (closing ∷ rest)
    ∙ ap (λ (x : Blocks). block_lines (block_line x closing) rest)
        (fence_body (in_region b (opening ∷ [])) inner refl h)
    ∙ ap (λ (x : Blocks). block_lines x rest) (leave_region b opening inner closing c)

In-concat-map :
    (b : Text × Bool) (p : Text) (bs : List (Text × Bool))
    → In b bs
    → In p (block_chunks b)
    → In p (concat (map block_chunks bs))
In-concat-map b p [] i h = absurd i
In-concat-map b p (c ∷ bs) (inl e) h =
    In-append_left p (block_chunks c) (concat (map block_chunks bs))
      (subst (λ x. In p (block_chunks x)) e h)
In-concat-map b p (c ∷ bs) (inr i) h =
    In-append_right p (block_chunks c) (concat (map block_chunks bs)) (In-concat-map b p bs i h)

All-In :
    (b : Text × Bool) (bs : List (Text × Bool))
    → All BlockIsStripped bs
    → In b bs
    → BlockIsStripped b
All-In b [] h i = absurd i
All-In b (c ∷ bs) h (inl e) = subst BlockIsStripped (sym e) h.0
All-In b (c ∷ bs) h (inr i) = All-In b bs h.1 i

ne-not_nil : (t : Text) → t ≢ [] → not (is_nil t) ≡ true
ne-not_nil [] h = absurd (h refl)
ne-not_nil (c ∷ t) h = refl

-- Every code block of the body is a chunk as it stands, however long it is.
pub code_block-In-chunks :
    (body t : Text) → In (t, true) (split_blocks body) → In t (split_into_chunks body)
unfolding split_into_chunks block_chunks
code_block-In-chunks body t i =
    let h = All-In (t, true) (split_blocks body) (split_blocks-AllStripped body) i in
    let pieces = concat (map block_chunks (split_blocks body)) in
    In-keep (λ p. not (is_nil p)) t (map strip pieces)
      (subst (λ s. In s (map strip pieces)) h.0
        (In-map strip t pieces (In-concat-map (t, true) t (split_blocks body) i (inl refl))))
      (ne-not_nil t h.1)

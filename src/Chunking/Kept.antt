-- ===== src/Chunking/Kept.antt =====
-- The characters of a body and those of its chunks, split_into_chunks of app/chunking.py.
use vegapunk_web.Base.{
  Bool, true, false, not, ◌&&◌, ◌||◌, List, [], ◌∷◌, ◌++◌, map, leb, is_nil, concat, length, ◌≡◌,
  refl, ap, ap₂, sym, ◌∙◌, append_assoc, append-nil, concat-append, if_intro,
}
use vegapunk_web.Text.{Text, is_space, strip, starts_with, split, join}
use vegapunk_web.Text.Laws.{visible, visible-append, visible-strip, visible-split, visible-join}
use vegapunk_web.Chunking.{
  max_chunk_chars, fence, newline, is_heading, Blocks, flush_lines, add_block, flush, push_line,
  block_line, block_lines, no_blocks, split_blocks, nonempty, block_chunks, split_into_chunks,
}
use vegapunk_web.Chunking.Long.{is_nil_eq, visible-split_long}

text_of : Text × Bool → Text
text_of (text, _) = text

-- What is not whitespace in the blocks and in the lines that wait.
seen : Blocks → Text
seen b = visible (concat (map text_of b.blocks)) ++ visible (concat b.cur)

map_text-append :
    (xs ys : List (Text × Bool)) → map text_of (xs ++ ys) ≡ map text_of xs ++ map text_of ys
map_text-append [] ys = refl
map_text-append (x ∷ xs) ys = ap (◌∷◌ (text_of x)) (map_text-append xs ys)

visible-add_block :
    (text : Text) (code : Bool) (blocks : List (Text × Bool))
    → visible (concat (map text_of (add_block text code blocks)))
      ≡ visible (concat (map text_of blocks)) ++ visible text
unfolding text_of
visible-add_block [] code blocks = sym (append-nil (visible (concat (map text_of blocks))))
visible-add_block (c ∷ s) code blocks =
    ap visible (
      ap concat (map_text-append blocks ((c ∷ s, code) ∷ []))
      ∙ concat-append (map text_of blocks) ((c ∷ s) ∷ [])
      ∙ ap (◌++◌ (concat (map text_of blocks))) (append-nil (c ∷ s)))
    ∙ visible-append (concat (map text_of blocks)) (c ∷ s)

seen-flush_lines :
    (ls : List Text) (code : Bool) (b : Blocks)
    → b.cur ≡ ls
    → (seen (flush_lines ls code b) ≡ seen b) × ((flush_lines ls code b).cur ≡ [])
unfolding seen flush_lines
seen-flush_lines [] code b e = (refl, e)
seen-flush_lines (l ∷ ls) code b e = (
  append-nil _
      ∙ visible-add_block (strip (join newline (l ∷ ls))) code b.blocks
      ∙ ap (◌++◌ (visible (concat (map text_of b.blocks)))) (
          visible-strip (join newline (l ∷ ls))
          ∙ visible-join newline (l ∷ ls) (unfold is_space in refl)
          ∙ ap (λ (x : List Text). visible (concat x)) (sym e)),
  refl,
)

seen-flush : (code : Bool) (b : Blocks) → seen (flush code b) ≡ seen b
unfolding flush
seen-flush code b = (seen-flush_lines b.cur code b refl).0

cur-flush : (code : Bool) (b : Blocks) → (flush code b).cur ≡ []
unfolding flush
cur-flush code b = (seen-flush_lines b.cur code b refl).1

seen-push_line : (line : Text) (b : Blocks) → seen (push_line line b) ≡ seen b ++ visible line
unfolding seen
seen-push_line line b =
    ap (◌++◌ (visible (concat (map text_of b.blocks)))) (
      ap visible (concat-append b.cur (line ∷ []) ∙ ap (◌++◌ (concat b.cur)) (append-nil line))
      ∙ visible-append (concat b.cur) line)
    ∙ sym (
        append_assoc (visible (concat (map text_of b.blocks))) (visible (concat b.cur))
          (visible line))

visible_of_blank : (line : Text) → is_nil (strip line) ≡ true → visible line ≡ []
visible_of_blank line e = sym (visible-strip line) ∙ ap visible (is_nil_eq (strip line) e)

with_fence : Bool → Blocks → Blocks
with_fence f b = record b { in_fence = f }

seen-with_fence : (f : Bool) (b : Blocks) → seen (with_fence f b) ≡ seen b
unfolding seen with_fence
seen-with_fence f b = refl

-- Each line adds its visible characters, whichever branch takes it.
seen-block_line : (b : Blocks) (line : Text) → seen (block_line b line) ≡ seen b ++ visible line
unfolding block_line with_fence
seen-block_line b line =
    if_intro P (not b.in_fence && fenced) _ _
      (λ _.
        seen-push_line line (with_fence true (flush false b))
        ∙ ap plus (seen-with_fence true (flush false b) ∙ seen-flush false b))
      (λ _.
        if_intro P b.in_fence _ _
          (λ _.
            if_intro P fenced _ _
              (λ _.
                seen-flush true (with_fence false (push_line line b))
                ∙ seen-with_fence false (push_line line b)
                ∙ seen-push_line line b)
              (λ _. seen-push_line line b))
          (λ _.
            if_intro P (is_nil (strip line)) _ _
              (λ e.
                seen-flush false b
                ∙ sym (append-nil (seen b))
                ∙ ap (◌++◌ (seen b)) (sym (visible_of_blank line e)))
              (λ _.
                if_intro P (is_heading line) _ _
                  (λ _. seen-push_line line (flush false b) ∙ ap plus (seen-flush false b))
                  (λ _. seen-push_line line b))))
  where
    fenced : Bool
    fenced = starts_with fence (strip line)

    plus : Text → Text
    plus s = s ++ visible line

    P : Blocks → Type 0
    P b' = seen b' ≡ seen b ++ visible line

seen-block_lines :
    (b : Blocks) (lines : List Text) → seen (block_lines b lines) ≡ seen b ++ visible (concat lines)
unfolding block_lines
seen-block_lines b [] = sym (append-nil (seen b))
seen-block_lines b (line ∷ lines) =
    seen-block_lines (block_line b line) lines
    ∙ ap (λ (s : Text). s ++ visible (concat lines)) (seen-block_line b line)
    ∙ append_assoc (seen b) (visible line) (visible (concat lines))
    ∙ ap (◌++◌ (seen b)) (sym (visible-append line (concat lines)))

visible-split_blocks :
    (body : Text) → visible (concat (map text_of (split_blocks body))) ≡ visible body
unfolding split_blocks seen
visible-split_blocks body =
    let b = block_lines no_blocks (split b'\n' body) in
    let f = flush b.in_fence b in
    sym (append-nil (visible (concat (map text_of f.blocks))))
    ∙ ap (λ (x : List Text). visible (concat (map text_of f.blocks)) ++ visible (concat x))
        (sym (cur-flush b.in_fence b))
    ∙ seen-flush b.in_fence b
    ∙ seen-block_lines no_blocks (split b'\n' body)
    ∙ visible-split b'\n' body (unfold is_space in refl)

visible-block_chunks : (b : Text × Bool) → visible (concat (block_chunks b)) ≡ visible (text_of b)
unfolding block_chunks text_of
visible-block_chunks (text, code) =
    if_intro (λ ps. visible (concat ps) ≡ visible text) (code || leb (length text) max_chunk_chars)
      _ _ (λ _. ap visible (append-nil text)) (λ _. visible-split_long text)

visible-concat-append :
    (ps qs : List Text) → visible (concat (ps ++ qs)) ≡ visible (concat ps) ++ visible (concat qs)
visible-concat-append ps qs =
    ap visible (concat-append ps qs) ∙ visible-append (concat ps) (concat qs)

visible-chunks_of_blocks :
    (bs : List (Text × Bool))
    → visible (concat (concat (map block_chunks bs))) ≡ visible (concat (map text_of bs))
visible-chunks_of_blocks [] = refl
visible-chunks_of_blocks (b ∷ bs) =
    visible-concat-append (block_chunks b) (concat (map block_chunks bs))
    ∙ ap₂ ◌++◌ (visible-block_chunks b) (visible-chunks_of_blocks bs)
    ∙ sym (visible-append (text_of b) (concat (map text_of bs)))

visible-strip_all :
    (ps : List Text) → visible (concat (nonempty (map strip ps))) ≡ visible (concat ps)
visible-strip_all [] = refl
visible-strip_all (p ∷ ps) =
    if_intro (λ qs. visible (concat qs) ≡ visible (p ++ concat ps)) (not (is_nil (strip p))) _ _
      (λ _.
        visible-append (strip p) (concat (nonempty (map strip ps)))
        ∙ ap₂ ◌++◌ (visible-strip p) (visible-strip_all ps)
        ∙ sym (visible-append p (concat ps)))
      (λ e.
        visible-strip_all ps
        ∙ ap (λ (s : Text). s ++ visible (concat ps))
            (sym (visible_of_blank p (not-false (is_nil (strip p)) e)))
        ∙ sym (visible-append p (concat ps)))
  where
    not-false : (b : Bool) → not b ≡ false → b ≡ true
    not-false true h = refl
    not-false false h = sym h

-- The chunks of a note, read one after the other, hold exactly the characters of the body that are
-- not whitespace, each as often as the body does and in the order of the body.
pub visible-split_into_chunks :
    (body : Text) → visible (concat (split_into_chunks body)) ≡ visible body
unfolding split_into_chunks
visible-split_into_chunks body =
    visible-strip_all (concat (map block_chunks (split_blocks body)))
    ∙ visible-chunks_of_blocks (split_blocks body)
    ∙ visible-split_blocks body

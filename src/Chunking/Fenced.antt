-- ===== src/Chunking/Fenced.antt =====
-- Fenced regions in split_into_chunks of app/chunking.py.
use vegapunk_web.Base.{
  Bool, true, false, not, ◌&&◌, List, [], ◌∷◌, ◌++◌, is_nil, concat, ◌≡◌, ◌≢◌, refl, ap, sym, subst,
  ◌∙◌, inl, All, In, In-append_left, In-append_right, if_intro, eqb, eqb_iff, &&-true,
}
use vegapunk_web.Text.{Text, is_space, strip, starts_with, split, join}
use vegapunk_web.Text.Laws.{visible, visible-append, visible-strip, visible-join}
use vegapunk_web.Chunking.{
  fence, newline, is_heading, Blocks, flush_lines, add_block, flush, push_line, block_line,
  block_lines, no_blocks, split_blocks, split_into_chunks,
}
use vegapunk_web.Chunking.CodeBlocks.{
  IsFence, IsPlain, after_fence, block_lines-append, block_lines_fenced, code_block-In-chunks,
}
use vegapunk_web.Chunking.Regions.{is_open, is_open-region}
use vegapunk_web.Chunking.Scanned.{Standing, block_lines-Invariant}

add_block-In :
    (t : Text) (code : Bool) (bs : List (Text × Bool)) → t ≢ [] → In (t, code) (add_block t code bs)
add_block-In [] code bs n = absurd (n refl)
add_block-In (c ∷ t) code bs n = In-append_right (c ∷ t, code) bs ((c ∷ t, code) ∷ []) (inl refl)

In-add_block :
    (x : Text × Bool) (t : Text) (code : Bool) (bs : List (Text × Bool))
    → In x bs
    → In x (add_block t code bs)
In-add_block x [] code bs i = i
In-add_block x (c ∷ t) code bs i = In-append_left x bs ((c ∷ t, code) ∷ []) i

In-flush : (x : Text × Bool) (code : Bool) (b : Blocks) → In x b.blocks → In x (flush code b).blocks
unfolding flush flush_lines
In-flush x code b i = go b.cur
  where
    go : (ls : List Text) → In x (flush_lines ls code b).blocks
    go [] = i
    go (l ∷ ls) = In-add_block x (strip (join newline (l ∷ ls))) code b.blocks i

In-block_line :
    (x : Text × Bool) (b : Blocks) (line : Text) → In x b.blocks → In x (block_line b line).blocks
unfolding block_line
In-block_line x b line i =
    if_intro P (not b.in_fence && starts_with fence (strip line)) _ _ (λ _. In-flush x false b i)
      (λ _.
        if_intro P b.in_fence _ _
          (λ _.
            if_intro P (starts_with fence (strip line)) _ _
              (λ _. In-flush x true (record (push_line line b) { in_fence = false }) i) (λ _. i))
          (λ _.
            if_intro P (is_nil (strip line)) _ _ (λ _. In-flush x false b i)
              (λ _. if_intro P (is_heading line) _ _ (λ _. In-flush x false b i) (λ _. i))))
  where
    P : Blocks → Type 0
    P c = In x c.blocks

In-block_lines :
    (x : Text × Bool) (b : Blocks) (ls : List Text) → In x b.blocks → In x (block_lines b ls).blocks
unfolding block_lines
In-block_lines x b [] i = i
In-block_lines x b (l ∷ ls) i = In-block_lines x (block_line b l) ls (In-block_line x b l i)

fence-visible : (s : Text) → starts_with fence s ≡ true → visible s ≢ []
unfolding starts_with is_space
fence-visible [] h = cc
fence-visible (c ∷ s) h =
    let e : b'`' ≡ c = (eqb_iff b'`' c).0 (&&-true (eqb b'`' c) _ h).0 in rw (← e) (λ n. cc)

region-visible :
    (opening : Text) (ls : List Text) → IsFence opening → strip (join newline (opening ∷ ls)) ≢ []
region-visible opening ls f e = fence-visible (strip opening) f (
    visible-strip opening
    ∙ nil_left (visible opening) (visible (concat ls)) (
        sym (visible-append opening (concat ls))
        ∙ sym (visible-join newline (opening ∷ ls) (unfold is_space in refl))
        ∙ sym (visible-strip (join newline (opening ∷ ls)))
        ∙ ap visible e))
  where
    nil_left : (s t : Text) → s ++ t ≡ [] → s ≡ []
    nil_left [] t q = refl
    nil_left (c ∷ s) t q = cc

Standing-outside :
    (done cur : List Text) (f : Bool) → Standing done f cur → is_open false done ≡ false → f ≡ false
Standing-outside done cur false st o = refl
Standing-outside done cur true (before, opening, inner, e, b, f, p, c) o =
    let t : is_open false done ≡ true = rw e (is_open-region before inner opening b f p) in cc

-- A fenced region of a body, from a line outside of any fence that starts with one to the next such
-- line, with whatever stands between them (blank lines and headings too), is one chunk, stripped,
-- however long it is.
pub region-In-chunks :
    (body opening closing : Text) (before inner rest : List Text)
    → split b'\n' body ≡ before ++ ((opening ∷ inner) ++ (closing ∷ rest))
    → is_open false before ≡ false
    → IsFence opening
    → All IsPlain inner
    → IsFence closing
    → In (strip (join newline ((opening ∷ inner) ++ (closing ∷ [])))) (split_into_chunks body)
unfolding is_open
region-In-chunks body opening closing before inner rest e o f p c =
    code_block-In-chunks body (strip (join newline region)) (
      unfold split_blocks in
      (In-flush x (block_lines no_blocks lines).in_fence (block_lines no_blocks lines) (
        subst (λ (b : Blocks). In x b.blocks) (sym reached)
          (In-block_lines x (after_fence b region) rest (
            add_block-In (strip (join newline region)) true (flush false b).blocks
              (region-visible opening (inner ++ (closing ∷ [])) f))))))
  where
    lines : List Text
    lines = split b'\n' body

    region : List Text
    region = (opening ∷ inner) ++ (closing ∷ [])

    x : Text × Bool
    x = (strip (join newline region), true)

    b : Blocks
    b = block_lines no_blocks before

    outside : b.in_fence ≡ false
    outside =
        Standing-outside before b.cur b.in_fence
          (block_lines-Invariant before [] before no_blocks refl (tt, refl)).1 o

    reached : block_lines no_blocks lines ≡ block_lines (after_fence b region) rest
    reached =
        ap (block_lines no_blocks) e
        ∙ block_lines-append no_blocks before ((opening ∷ inner) ++ (closing ∷ rest))
        ∙ block_lines_fenced b opening closing inner rest outside f p c

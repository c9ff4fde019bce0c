-- ===== src/Chunking/Scanned.antt =====
-- What the loop of _split_blocks of app/chunking.py has found behind each line.
use vegapunk_web.Base.{
  Bool, true, false, List, [], ◌∷◌, ◌++◌, is_nil, ◌≡◌, refl, ap, sym, subst, ◌∙◌, inr, All,
  All-append, append_assoc, append-nil, if_intro, if◌then◌else◌,
}
use vegapunk_web.Text.{Text, strip, starts_with, join}
use vegapunk_web.Chunking.{
  fence, newline, is_heading, Blocks, flush_lines, add_block, flush, push_line, block_line,
  block_lines,
}
use vegapunk_web.Chunking.CodeBlocks.{
  IsFence, IsPlain, line_in_fence, fence_closes, in_region, enter_region,
}
use vegapunk_web.Chunking.Regions.{
  is_open, BlockIsCode, is_open-append, is_open-plain, is_open-fence, is_open-region,
}

-- Where the loop stands behind the lines `done`.
abbrev pub Standing : List Text → Bool → List Text → Type 0
Standing done false cur = is_open false done ≡ false
Standing done true cur =
    (before : List Text) × (opening : Text) × (inner : List Text) × (done
      ≡ before ++ (opening ∷ inner))
    × (is_open false before ≡ false)
    × IsFence opening
    × All IsPlain inner
    × (cur ≡ opening ∷ inner)

abbrev pub Invariant : List Text → List Text → Blocks → Type 0
Invariant lines done b = All (BlockIsCode lines) b.blocks × Standing done b.in_fence b.cur

pub add_block-IsCode :
    (lines : List Text) (t : Text) (code : Bool) (bs : List (Text × Bool))
    → BlockIsCode lines (t, code)
    → All (BlockIsCode lines) bs
    → All (BlockIsCode lines) (add_block t code bs)
add_block-IsCode lines [] code bs i h = h
add_block-IsCode lines (c ∷ t) code bs i h =
    All-append (BlockIsCode lines) bs ((c ∷ t, code) ∷ []) h (i, tt)

pub flush-IsCode :
    (lines : List Text) (b : Blocks)
    → All (BlockIsCode lines) b.blocks
    → All (BlockIsCode lines) (flush false b).blocks
unfolding flush flush_lines
flush-IsCode lines b h = go b.cur
  where
    go : (ls : List Text) → All (BlockIsCode lines) (flush_lines ls false b).blocks
    go [] = h
    go (l ∷ ls) = add_block-IsCode lines (strip (join newline (l ∷ ls))) false b.blocks tt h

in_fence-flush : (code : Bool) (b : Blocks) → (flush code b).in_fence ≡ b.in_fence
unfolding flush flush_lines
in_fence-flush code b = go b.cur
  where
    go : (ls : List Text) → (flush_lines ls code b).in_fence ≡ b.in_fence
    go [] = refl
    go (l ∷ ls) = refl

outside-Invariant :
    (lines done : List Text) (b : Blocks)
    → All (BlockIsCode lines) b.blocks
    → b.in_fence ≡ false
    → is_open false done ≡ false
    → Invariant lines done b
outside-Invariant lines done b h e o = (h, subst (λ f. Standing done f b.cur) (sym e) o)

plain_line :
    (b : Blocks) (line : Text)
    → b.in_fence ≡ false
    → IsPlain line
    → block_line b line ≡ (
        if is_nil (strip line)
        then flush false b
        else if is_heading line
        then push_line line (flush false b)
        else push_line line b)
unfolding block_line
plain_line b line e p = simp (e, p)

-- The step at a line that starts with no fence, outside of one.
plain_line-Invariant :
    (lines done : List Text) (b : Blocks) (line : Text)
    → All (BlockIsCode lines) b.blocks
    → b.in_fence ≡ false
    → IsPlain line
    → is_open false done ≡ false
    → Invariant lines done (block_line b line)
plain_line-Invariant lines done b line h e p o =
    let outside : (c : Blocks)
        → All (BlockIsCode lines) c.blocks
        → c.in_fence ≡ false
        → Invariant lines done c =
      λ c k g. outside-Invariant lines done c k g o in
    let flushed = flush-IsCode lines b h in
    let closed = in_fence-flush false b ∙ e in
    subst (Invariant lines done) (sym (plain_line b line e p)) (
      if_intro (Invariant lines done) (is_nil (strip line)) _ _
        (λ _. outside (flush false b) flushed closed)
        (λ _.
          if_intro (Invariant lines done) (is_heading line) _ _
            (λ _. outside (push_line line (flush false b)) flushed closed)
            (λ _. outside (push_line line b) h e)))

-- The line that closes a region.
closing_line-Invariant :
    (lines before inner rest : List Text) (bs : List (Text × Bool)) (opening line : Text)
    → All (BlockIsCode lines) bs
    → lines ≡ (before ++ (opening ∷ inner)) ++ (line ∷ rest)
    → is_open false before ≡ false
    → IsFence opening
    → All IsPlain inner
    → IsFence line
    → Invariant lines ((before ++ (opening ∷ inner)) ++ (line ∷ [])) (
        flush true
          (record { blocks = bs; cur = (opening ∷ inner) ++ (line ∷ []); in_fence = false }))
unfolding flush flush_lines
closing_line-Invariant lines before inner rest bs opening line h e o f p c =
    let region : List Text = opening ∷ (inner ++ (line ∷ [])) in
    (
      add_block-IsCode lines (strip (join newline region)) true bs
          (
            region,
            record {
              before = before;
              rest = rest;
              opening = opening;
              inner = inner;
              closing = line ∷ [];
              splits =
                  e
                  ∙ append_assoc before (opening ∷ inner) (line ∷ rest)
                  ∙ ap (λ (x : List Text). before ++ (opening ∷ x))
                      (sym (append_assoc inner (line ∷ []) rest));
              outside = o;
              shape = refl;
              opens = f;
              plain = p;
              ends = inr (line, refl, c);
            },
            refl,
          )
          h,
      is_open-append false (before ++ (opening ∷ inner)) (line ∷ [])
          ∙ rw (is_open-region before inner opening o f p) (is_open-fence true line c),
    )

step-Invariant :
    (lines done rest : List Text) (b : Blocks) (line : Text)
    → lines ≡ done ++ (line ∷ rest)
    → Invariant lines done b
    → Invariant lines (done ++ (line ∷ [])) (block_line b line)
step-Invariant lines done rest b line e (h, st) =
    go b.in_fence (starts_with fence (strip line)) refl refl st
  where
    go :
        (f c : Bool)
        → b.in_fence ≡ f
        → starts_with fence (strip line) ≡ c
        → Standing done f b.cur
        → Invariant lines (done ++ (line ∷ [])) (block_line b line)
    go false false ef ec o =
        plain_line-Invariant lines (done ++ (line ∷ [])) b line h ef ec
          (is_open-append false done (line ∷ []) ∙ rw o (is_open-plain false (line ∷ []) (ec, tt)))
    go false true ef ec o =
        subst (Invariant lines (done ++ (line ∷ []))) (sym (enter_region b line ef ec))
          (unfold in_region in (flush-IsCode lines b h, (done, line, [], refl, o, ec, tt, refl)))
    go true false ef ec (before, opening, inner, ed, o, fo, p, cu) =
        subst (Invariant lines (done ++ (line ∷ []))) (sym (line_in_fence b line ef ec)) (
          h,
          subst (λ f. Standing (done ++ (line ∷ [])) f (b.cur ++ (line ∷ []))) (sym ef)
              (
                before,
                opening,
                inner ++ (line ∷ []),
                ap (λ (x : List Text). x ++ (line ∷ [])) ed
                    ∙ append_assoc before (opening ∷ inner) (line ∷ []),
                o,
                fo,
                All-append IsPlain inner (line ∷ []) p (ec, tt),
                ap (λ (x : List Text). x ++ (line ∷ [])) cu,
              ),
        )
    go true true ef ec (before, opening, inner, ed, o, fo, p, cu) =
        subst (Invariant lines (done ++ (line ∷ []))) (sym (fence_closes b line ef ec)) (
          rw (ed, cu)
            (closing_line-Invariant lines before inner rest b.blocks opening line h
              (e ∙ ap (λ (x : List Text). x ++ (line ∷ rest)) ed) o fo p ec))

pub block_lines-Invariant :
    (lines done todo : List Text) (b : Blocks)
    → lines ≡ done ++ todo
    → Invariant lines done b
    → Invariant lines lines (block_lines b todo)
unfolding block_lines
block_lines-Invariant lines done [] b e h =
    subst (λ (x : List Text). Invariant lines x b) (sym (append-nil done) ∙ sym e) h
block_lines-Invariant lines done (line ∷ todo) b e h =
    block_lines-Invariant lines (done ++ (line ∷ [])) todo (block_line b line)
      (e ∙ sym (append_assoc done (line ∷ []) todo)) (step-Invariant lines done todo b line e h)

-- ===== src/Chunking.antt =====
-- app/chunking.py: splitting the body of a note into chunks for search.
pub mod CodeBlocks
pub mod Long
pub mod Kept
pub mod Bounds
pub mod Regions
pub mod Scanned
pub mod Pieces
pub mod Fenced
use vegapunk_web.Base.{
  ℕ, zero, suc, ◌+◌, Bool, true, false, not, ◌&&◌, ◌||◌, List, [], ◌∷◌, ◌++◌, map, leb, ltb, eqb,
  is_nil, keep, concat, length, take, drop, if◌then◌else◌,
}
use vegapunk_web.Text.{Text, codes, is_space, strip, starts_with, split, cons_head, join}

abbrev pub max_chunk_chars : ℕ
max_chunk_chars = 500

abbrev pub fence : Text
fence = codes "```"

abbrev pub newline : Text
newline = codes "\n"

abbrev pub blank : Text
blank = codes " "

-- `#{0,k}\s`
hashes : ℕ → Text → Bool
hashes k [] = false
hashes zero (c ∷ s) = is_space c
hashes (suc k) (c ∷ s) = is_space c || (eqb c b'#' && hashes k s)

-- `_HEADING.match(line)`: one to six hashes, then whitespace
unfoldable pub is_heading : Text → Bool
unfolding hashes
is_heading [] = false
is_heading (c ∷ s) = eqb c b'#' && hashes 5 s

-- The variables of the loop of `_split_blocks`; a block is a text and whether it is code.
pub record Blocks : Type 0 where
  pub blocks : List (Text × Bool)
  pub cur : List Text
  pub in_fence : Bool

abbrev add_block : Text → Bool → List (Text × Bool) → List (Text × Bool)
add_block text is_code blocks = if is_nil text then blocks else blocks ++ ((text, is_code) ∷ [])

flush_lines : List Text → Bool → Blocks → Blocks
flush_lines [] is_code b = b
flush_lines (l ∷ ls) is_code b = record b {
  blocks = add_block (strip (join newline (l ∷ ls))) is_code b.blocks;
  cur = [];
}

unfoldable pub flush : Bool → Blocks → Blocks
unfolding flush_lines
flush is_code b = flush_lines b.cur is_code b

abbrev pub push_line : Text → Blocks → Blocks
push_line line b = record b { cur = b.cur ++ (line ∷ []) }

-- The body of the loop over the lines.
unfoldable pub block_line : Blocks → Text → Blocks
unfolding flush is_heading
block_line b line =
    let stripped = strip line in
    let fenced = starts_with fence stripped in
    if not b.in_fence && fenced
    then push_line line (record (flush false b) { in_fence = true })
    else if b.in_fence
    then (if fenced
        then flush true (record (push_line line b) { in_fence = false })
        else push_line line b)
    else if is_nil stripped
    then flush false b
    else if is_heading line
    then push_line line (flush false b)
    else push_line line b

unfoldable pub block_lines : Blocks → List Text → Blocks
block_lines b [] = b
block_lines b (line ∷ lines) = block_lines (block_line b line) lines

abbrev pub no_blocks : Blocks
no_blocks = record { blocks = []; cur = []; in_fence = false }

-- `_split_blocks`
unfoldable pub split_blocks : Text → List (Text × Bool)
unfolding block_lines block_line flush
split_blocks body = let b = block_lines no_blocks (split b'\n' body) in (flush b.in_fence b).blocks

-- Where the scan of `_SENT.split` stands: not behind a sentence end, right behind one, or in the
-- whitespace behind one.
pub data SentMode : Type 0 where
  inside ended gap : SentMode

-- The class `[.!?。！？]`.
abbrev pub is_sentence_end : ℕ → Bool
is_sentence_end c =
    eqb c b'.' || eqb c b'!' || eqb c b'?' || eqb c 0x3002 || eqb c 0xff01 || eqb c 0xff1f

abbrev pub mode_after : ℕ → SentMode
mode_after c = if is_sentence_end c then SentMode.ended else SentMode.inside

-- `_SENT.split(line)`: cut at each run of whitespace behind a sentence end.
unfoldable pub sent_split : SentMode → Text → List Text
sent_split mode [] = [] ∷ []
sent_split SentMode.inside (c ∷ s) = cons_head c (sent_split (mode_after c) s)
sent_split SentMode.ended (c ∷ s) =
    let cut = [] ∷ sent_split SentMode.gap s in
    let on = cons_head c (sent_split (mode_after c) s) in if is_space c then cut else on
sent_split SentMode.gap (c ∷ s) =
    let skip = sent_split SentMode.gap s in
    let on = cons_head c (sent_split (mode_after c) s) in if is_space c then skip else on

abbrev pub nonempty : List Text → List Text
nonempty = keep (λ p. not (is_nil p))

-- The units of one line.
unfoldable pub line_units : Text → List Text
unfolding sent_split
line_units raw =
    let line = strip raw in
    if is_nil line
    then []
    else if leb (length line) max_chunk_chars
    then line ∷ []
    else nonempty (sent_split SentMode.inside line)

-- The greedy loop over the units, from the buffer `buf` on: the chunks that it still emits.
unfoldable pub pack : Text → List Text → List Text
pack buf [] = if is_nil buf then [] else buf ∷ []
pack buf (u ∷ us) =
    let cut = buf ∷ pack u us in
    let on = pack (if is_nil buf then u else buf ++ (blank ++ u)) us in
    if not (is_nil buf) && ltb max_chunk_chars (length buf + 1 + length u) then cut else on

-- `[c[i:i+MAX] for i in range(0, len(c), MAX)]`; the fuel is `len(c)`.
slices_fuel : ℕ → Text → List Text
slices_fuel zero c = []
slices_fuel (suc fuel) [] = []
slices_fuel (suc fuel) (x ∷ c) =
    take max_chunk_chars (x ∷ c) ∷ slices_fuel fuel (drop max_chunk_chars (x ∷ c))

unfoldable pub slices : Text → List Text
unfolding slices_fuel
slices c = slices_fuel (length c) c

abbrev pub slice_long : Text → List Text
slice_long c = if leb (length c) max_chunk_chars then c ∷ [] else slices c

-- `_split_long`
unfoldable pub split_long : Text → List Text
unfolding line_units pack slices
split_long text = concat (map slice_long (pack [] (concat (map line_units (split b'\n' text)))))

unfoldable pub block_chunks : Text × Bool → List Text
unfolding split_long
block_chunks (text, is_code) =
    if is_code || leb (length text) max_chunk_chars then text ∷ [] else split_long text

unfoldable pub split_into_chunks : Text → List Text
unfolding split_blocks block_chunks
split_into_chunks body = nonempty (map strip (concat (map block_chunks (split_blocks body))))

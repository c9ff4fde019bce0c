-- ===== src/Search.antt =====
-- app/search.py: reciprocal rank fusion, the expansion along links and the relevance gate. Floats
-- are a parameter, and so is what the database computes from vectors and bigrams: the two ranked
-- lists, the nearest chunk of a note, and the rows of the chunks.
pub mod Fusion
pub mod Gate
pub mod Relevance
use vegapunk_web.Base.{
  ℕ, zero, suc, ◌+◌, Bool, true, false, not, ◌&&◌, ◌||◌, Option, none, some, List, [], ◌∷◌, ◌++◌,
  map, take, keep, length, is_nil, contains, leb, ltb, eqb, if◌then◌else◌, ◌==◌, nat_eq,
}
use vegapunk_web.Base.Dict
use vegapunk_web.Base.Dict.{Dict}
use vegapunk_web.Base.Sorting.{sorted}
use vegapunk_web.Text.{Text}

-- Finite floats with `+`, `1.0 / n`, `<` and `<=`, and the constants of the module.
pub record Floats : Type 1 where
  pub Float : Type 0
  pub zero_float : Float
  pub add : Float → Float → Float
  pub recip : ℕ → Float
  pub lt : Float → Float → Bool
  pub le : Float → Float → Bool
  pub bigm_keep : Float
  pub far : Float

abbrev pub candidates : ℕ
candidates = 20

abbrev pub rrf_k : ℕ
rrf_k = 60

abbrev pub mcp_top_k_limit : ℕ
mcp_top_k_limit = 30

-- A row of `edges`, the columns that the expansion reads.
pub record Link : Type 0 where
  pub src_note : ℕ
  pub dst_note : Option ℕ

-- A row of the query for the chunks' notes and texts.
pub record Meta : Type 0 where
  pub note_id : ℕ
  pub title : Text
  pub text : Text

module _ (F : Floats) where
  open F use {Float, zero_float, add, recip, lt, le, bigm_keep, far}

  pub record SearchHit : Type 0 where
    pub chunk_id : ℕ
    pub note_id : ℕ
    pub note_title : Text
    pub text : Text
    pub score : Float

  -- (chunk_id, note_id, distance or similarity)
  abbrev pub Row : Type 0
  Row = ℕ × ℕ × Float

  abbrev pub Scores : Type 0
  Scores = Dict ℕ Float

  -- `scores.get(c, 0.0)`
  abbrev pub score_of : ℕ → Scores → Float
  score_of c scores = elim (Dict.lookup c scores) [ none ↦ zero_float | some v ↦ v ]

  -- The inner loop of `rrf`, from rank `r` on.
  unfoldable pub add_ranks : ℕ → ℕ → List ℕ → Scores → Scores
  add_ranks k r [] scores = scores
  add_ranks k r (c ∷ cs) scores =
      add_ranks k (suc r) cs (Dict.insert c (add (score_of c scores) (recip (k + r + 1))) scores)

  unfoldable pub add_lists : ℕ → List (List ℕ) → Scores → Scores
  unfolding add_ranks
  add_lists k [] scores = scores
  add_lists k (l ∷ ls) scores = add_lists k ls (add_ranks k 0 l scores)

  -- `sorted(scores.items(), key=..., reverse=True)`: stable, the higher score first
  abbrev pub higher : ℕ × Float → ℕ × Float → Bool
  higher (_, a) (_, b) = lt b a

  unfoldable pub rrf : List (List ℕ) → ℕ → Scores
  unfolding add_lists
  rrf rank_lists k = sorted higher (add_lists k rank_lists [])

  abbrev pub id_of : Row → ℕ
  id_of (c, _, _) = c

  -- `{cid: nid for cid, nid, _ in rows}`, on top of a dict
  abbrev pub note_entries : List Row → Dict ℕ ℕ → Dict ℕ ℕ
  note_entries [] d = d
  note_entries ((c, n, _) ∷ rows) d = note_entries rows (Dict.insert c n d)

  abbrev pub value_entries : List Row → Scores → Scores
  value_entries [] d = d
  value_entries ((c, _, v) ∷ rows) d = value_entries rows (Dict.insert c v d)

  -- `SELECT DISTINCT dst_note`: a note linked from the candidates that is none of them
  unfoldable pub neighbors : List ℕ → List Link → List ℕ
  neighbors note_ids [] = []
  neighbors note_ids (l ∷ ls) =
      let rest = neighbors note_ids ls in
      elim l.dst_note [
        | none ↦ rest
        | some d ↦
            if contains note_ids l.src_note && not (contains note_ids d) && not (contains rest d)
            then d ∷ rest
            else rest
      ]

  -- The loop over the neighbours, on the scores and the set of the chunks that were added.
  abbrev pub neighbor_step : Option ℕ → Scores × List ℕ → Scores × List ℕ
  neighbor_step none st = st
  neighbor_step (some c) (scores, added) =
      (Dict.insert c (add (score_of c scores) (recip (rrf_k + 1))) scores, c ∷ added)

  unfoldable pub add_neighbors : (ℕ → Option ℕ) → List ℕ → Scores × List ℕ → Scores × List ℕ
  add_neighbors nearest [] st = st
  add_neighbors nearest (n ∷ ns) st = add_neighbors nearest ns (neighbor_step (nearest n) st)

  -- `list({...})`; the order of a set is not specified and does not matter.
  unfoldable pub candidate_notes : Dict ℕ ℕ → Scores → List ℕ
  candidate_notes note_of [] = []
  candidate_notes note_of ((c, _) ∷ scores) =
      let rest = candidate_notes note_of scores in
      elim (Dict.lookup c note_of) [
        | none ↦ rest
        | some n ↦ if contains rest n then rest else n ∷ rest
      ]

  unfoldable pub graph_expand : List Link → (ℕ → Option ℕ) → List ℕ → Scores → Scores × List ℕ
  unfolding neighbors add_neighbors
  graph_expand links nearest note_ids scores =
      add_neighbors nearest (neighbors note_ids links) (scores, [])

  -- `d.get(c, default)` on the gate's two dicts
  abbrev pub value_or : ℕ → Scores → Float → Float
  value_or c d default = elim (Dict.lookup c d) [ none ↦ default | some v ↦ v ]

  unfoldable pub is_relevant : List ℕ → Scores → Scores → Float → ℕ → Bool
  is_relevant graph vec_dist bigm_score max_dist c =
      contains graph c
      || le (value_or c vec_dist far) max_dist
      || le bigm_keep (value_or c bigm_score zero_float)

  -- The body of the last loop: a chunk that is gone is passed over.
  abbrev pub hit_of : ℕ → Float → Option Meta → List SearchHit → List SearchHit
  hit_of c v none rest = rest
  hit_of c v (some m) rest =
      record { chunk_id = c; note_id = m.note_id; note_title = m.title; text = m.text; score = v }
      ∷ rest

  unfoldable pub hits_of : (ℕ → Option Meta) → Scores → List SearchHit
  hits_of meta [] = []
  hits_of meta ((c, v) ∷ top) = hit_of c v (meta c) (hits_of meta top)

  -- `max(1, min(top_k, MCP_TOP_K_LIMIT))`, a negative `top_k` being read as 0
  abbrev pub clamp_top_k : ℕ → ℕ
  clamp_top_k k =
      let m : ℕ = if ltb mcp_top_k_limit k then mcp_top_k_limit else k in if ltb m 1 then 1 else m

  -- `fused[:CANDIDATES]`
  unfoldable pub fused_top : List Row → List Row → Scores
  unfolding rrf
  fused_top vec big = take candidates (rrf (map id_of vec ∷ map id_of big ∷ []) rrf_k)

  -- `cand_notes`
  unfoldable pub notes_of_top : List Row → List Row → List ℕ
  unfolding candidate_notes fused_top
  notes_of_top vec big =
      candidate_notes (note_entries big (note_entries vec [])) (fused_top vec big)

  -- The scores of the candidates and their neighbours, and the neighbours' chunks.
  unfoldable pub scored : List Link → (ℕ → Option ℕ) → List Row → List Row → Scores × List ℕ
  unfolding graph_expand notes_of_top
  scored links nearest vec big =
      graph_expand links nearest (notes_of_top vec big) (fused_top vec big)

  unfoldable pub ranked : Scores × List ℕ → List Row → List Row → Float → Bool → Scores
  unfolding is_relevant
  ranked (scores, graph) vec big max_dist apply_gate =
      let ordered = sorted higher scores in
      if apply_gate
      then keep (λ p. is_relevant graph (value_entries vec []) (value_entries big []) max_dist p.0)
          ordered
      else ordered

  unfoldable pub search :
      List Link
      → (ℕ → Option ℕ)
      → (ℕ → Option Meta)
      → List Row
      → List Row
      → Float
      → Bool
      → ℕ
      → List SearchHit
  unfolding scored ranked hits_of
  search links nearest meta vec big max_dist apply_gate top_k =
      if is_nil vec && is_nil big
      then []
      else hits_of meta (
          take (clamp_top_k top_k)
            (ranked (scored links nearest vec big) vec big max_dist apply_gate))

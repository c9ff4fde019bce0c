-- ===== src/Tests/Ranking.antt =====
-- The theorems on search at a concrete input, with natural numbers for the floats.
use Prim.Native.Nat.{◌/◌}
use vegapunk_web.Base.{
  ℕ, ◌+◌, true, false, Option, none, some, List, [], ◌∷◌, All, ◌≡◌, refl, ltb, leb, le→ltb, ltb→lt,
  ltb→le, arith, nat_eq,
}
use vegapunk_web.Base.Dict.{lookup}
use vegapunk_web.Base.Sorting.{IsStrictOrder, IsSorted}
use vegapunk_web.Text.{codes}
use vegapunk_web.Search.{Floats, Link, Meta, Row, higher, add_lists, search, rrf_k}
use vegapunk_web.Search.Fusion.{add_up, all_contributions, rrf_score}
use vegapunk_web.Search.Gate.{HitHas, higher_hit, search-IsSorted}
use vegapunk_web.Search.Relevance.{IsRelevant, search-IsRelevant}

-- Millionths.
abbrev pub millionths : Floats
millionths = record {
  Float = ℕ;
  zero_float = 0;
  add = λ a b. a + b;
  recip = λ n. 1000000 / n;
  lt = ltb;
  le = leb;
  bigm_keep = 300000;
  far = 9000000;
}

higher-IsStrictOrder : IsStrictOrder (higher millionths)
higher-IsStrictOrder = record {
  asym = λ (_, a) (_, b) h. le→ltb a b (omega (arith, ltb→lt b a h));
  cotrans = λ (_, a) (_, b) (_, c) h k. le→ltb c a (omega (arith, ltb→le b a h, ltb→le c b k));
}

-- Chunk 1 of note 1 is near, chunk 2 of note 2 is alike, and chunk 3 of note 3 is linked from note 1.
abbrev vec : List (Row millionths)
vec = (1, 1, 100000) ∷ (2, 2, 900000) ∷ []

abbrev big : List (Row millionths)
big = (2, 2, 400000) ∷ []

abbrev links : List Link
links = record { src_note = 1; dst_note = some 3 } ∷ []

abbrev nearest : ℕ → Option ℕ
nearest n = some 3

abbrev row_of : ℕ → Option Meta
row_of c = some (record { note_id = c; title = codes "t"; text = codes "x" })

search-IsRelevant_example :
    All
      (HitHas millionths (λ p. IsRelevant millionths links nearest vec big 600000 p.0))
      (search millionths links nearest row_of vec big 600000 true 5)
search-IsRelevant_example =
    search-IsRelevant millionths links nearest row_of vec big 600000 5 refl refl

rrf_score_example :
    lookup 2 (add_lists millionths rrf_k ((1 ∷ 2 ∷ []) ∷ (2 ∷ []) ∷ []) [])
    ≡ add_up millionths none (all_contributions millionths rrf_k 2 ((1 ∷ 2 ∷ []) ∷ (2 ∷ []) ∷ []))
rrf_score_example = rrf_score millionths rrf_k 2 ((1 ∷ 2 ∷ []) ∷ (2 ∷ []) ∷ [])

search-IsSorted_example :
    IsSorted (higher_hit millionths) (search millionths links nearest row_of vec big 600000 false 5)
search-IsSorted_example =
    search-IsSorted millionths higher-IsStrictOrder links nearest row_of vec big 600000 false 5

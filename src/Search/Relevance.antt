-- ===== src/Search/Relevance.antt =====
-- The relevance gate of search of app/search.py and the expansion along links.
use vegapunk_web.Base.{
  ℕ, Bool, true, false, not, ◌&&◌, ◌||◌, Option, none, some, List, [], ◌∷◌, take, keep, is_nil,
  contains, contains→In, if_intro, if◌then◌else◌, nat_eq, ◌≡◌, ◌⊎◌, refl, ap, sym, ◌∙◌, inl, inr,
  arith, All, All-intro, In, In-keep_inv, Bool-cases, eqb, eqb_iff,
}
use mathlib.Core.Option.{some-injective}
use vegapunk_web.Base.Dict
use vegapunk_web.Base.Dict.{Dict, lookup, lookup-insert, lookup-nil}
use vegapunk_web.Base.Sorting.{sorted}
use vegapunk_web.Search.{
  Floats, Link, Meta, Row, Scores, higher, value_entries, value_or, neighbors, add_neighbors,
  graph_expand, is_relevant, clamp_top_k, scored, ranked, search, neighbor_step, fused_top,
  notes_of_top,
}
use vegapunk_web.Search.Gate.{HitHas, All-hits_of, In-take}

-- Some note outside of the candidates is linked from one of them.
pub record IsLinked (note_ids : List ℕ) (links : List Link) (n : ℕ) : Type 0 where
  pub link : Link
  pub in_links : In link links
  pub from : In link.src_note note_ids
  pub to : link.dst_note ≡ some n
  pub outside : contains note_ids n ≡ false

module _ (F : Floats) where
  open F use {Float, zero_float, recip, add, lt, le, bigm_keep, far}

  value_entries_inv :
      (c : ℕ) (v : Float) (rows : List (Row F)) (d : Scores F)
      → lookup c (value_entries F rows d) ≡ some v
      → ((n : ℕ) × In (c, n, v) rows) ⊎ (lookup c d ≡ some v)
  value_entries_inv c v [] d h = inr h
  value_entries_inv c v ((j, n, w) ∷ rows) d h =
      elim (value_entries_inv c v rows (Dict.insert j w d) h) [
        | inl (m, i) ↦ inl (m, inr i)
        | inr e ↦ elim (Bool-cases (eqb j c)) [
          | inl q ↦
              let wv : w ≡ v = some-injective w v (here q (sym (lookup-insert c j w d) ∙ e)) in
              inl (n, inl (λ i. (sym ((eqb_iff j c).0 q) i, n, sym wv i)))
          | inr q ↦ inr (there q (sym (lookup-insert c j w d) ∙ e))
        ]
      ]
    where
      here : eqb j c ≡ true → (if eqb j c then some w else lookup c d) ≡ some v → some w ≡ some v
      here q e = rw q at e

      there :
          eqb j c ≡ false → (if eqb j c then some w else lookup c d) ≡ some v → lookup c d ≡ some v
      there q e = rw q at e

  neighbors_sound :
      (ids : List ℕ) (links : List Link) (n : ℕ)
      → In n (neighbors F ids links)
      → IsLinked ids links n
  unfolding neighbors
  neighbors_sound ids [] n h = absurd h
  neighbors_sound ids (l ∷ ls) n h = go l.dst_note refl h (λ i. more (neighbors_sound ids ls n i))
    where
      more : IsLinked ids ls n → IsLinked ids (l ∷ ls) n
      more k = record {
        link = k.link;
        in_links = inr k.in_links;
        from = k.from;
        to = k.to;
        outside = k.outside;
      }

      rest : List ℕ
      rest = neighbors F ids ls

      test : ℕ → Bool
      test d = contains ids l.src_note && not (contains ids d) && not (contains rest d)

      go :
          (o : Option ℕ)
          → l.dst_note ≡ o
          → In n (elim o [ none ↦ rest | some d ↦ if test d then d ∷ rest else rest ])
          → (In n rest → IsLinked ids (l ∷ ls) n)
          → IsLinked ids (l ∷ ls) n
      go none e i later = later i
      go (some d) e i later =
          if_intro
            (λ (ns : List ℕ).
              In n ns → (In n rest → IsLinked ids (l ∷ ls) n) → IsLinked ids (l ∷ ls) n)
            (test d) _ _
            (λ t i' later'. elim i' [
              | inl q ↦ record {
                link = l;
                in_links = inl refl;
                from = contains→In ids l.src_note (ground arith);
                to = e ∙ ap some (sym q);
                outside = ap (contains ids) q ∙ ground arith;
              }
              | inr r ↦ later' r
            ])
            (λ _ i' later'. later' i') i later

  add_neighbors_sound :
      (nearest : ℕ → Option ℕ) (ns : List ℕ) (st : Scores F × List ℕ) (c : ℕ)
      → In c (add_neighbors F nearest ns st).1
      → ((n : ℕ) × In n ns × (nearest n ≡ some c)) ⊎ In c st.1
  unfolding add_neighbors
  add_neighbors_sound nearest [] st c h = inr h
  add_neighbors_sound nearest (n ∷ ns) st c h =
      elim (add_neighbors_sound nearest ns (neighbor_step F (nearest n) st) c h) [
        | inl (m, i, e) ↦ inl (m, inr i, e)
        | inr i ↦ go (nearest n) refl i
      ]
    where
      go :
          (o : Option ℕ)
          → nearest n ≡ o
          → In c (neighbor_step F o st).1
          → ((m : ℕ) × In m (n ∷ ns) × (nearest m ≡ some c)) ⊎ In c st.1
      go none e i = inr i
      go (some d) e (inl q) = inl (n, inl refl, e ∙ ap some (sym q))
      go (some d) e (inr i) = inr i

  -- Why a chunk is among the hits: it is the nearest chunk of a note that a candidate links to, or
  -- its distance is within the limit, or its bigram similarity is at least `BIGM_KEEP`.
  abbrev pub IsRelevant :
      List Link → (ℕ → Option ℕ) → List (Row F) → List (Row F) → Float → ℕ → Type 0
  IsRelevant links nearest vec big max_dist c =
      ((n : ℕ) × IsLinked (notes_of_top F vec big) links n × (nearest n ≡ some c))
      ⊎ ((n : ℕ) × (d : Float) × In (c, n, d) vec × (le d max_dist ≡ true))
      ⊎ ((n : ℕ) × (s : Float) × In (c, n, s) big × (le bigm_keep s ≡ true))

  near_enough :
      (c : ℕ) (rows : List (Row F)) (default : Float) (test : Float → Bool)
      → test default ≡ false
      → test (value_or F c (value_entries F rows []) default) ≡ true
      → (n : ℕ) × (v : Float) × In (c, n, v) rows × (test v ≡ true)
  near_enough c rows default test no_default = go (lookup c (value_entries F rows [])) refl
    where
      go :
          (o : Option Float)
          → lookup c (value_entries F rows []) ≡ o
          → test (elim o [ none ↦ default | some v ↦ v ]) ≡ true
          → (n : ℕ) × (v : Float) × In (c, n, v) rows × (test v ≡ true)
      go none e h = cc
      go (some v) e h = elim (value_entries_inv c v rows [] e) [
        | inl (n, i) ↦ (n, v, i, h)
        | inr q ↦ cc (sym (lookup-nil {V = Float} c) ∙ q)
      ]

  IsRelevant-sound :
      (links : List Link) (nearest : ℕ → Option ℕ) (vec big : List (Row F)) (max_dist : Float)
      (c : ℕ)
      → le far max_dist ≡ false
      → le bigm_keep zero_float ≡ false
      → is_relevant F
          (scored F links nearest vec big).1
          (value_entries F vec [])
          (value_entries F big [])
          max_dist
          c
        ≡ true
      → IsRelevant links nearest vec big max_dist c
  unfolding is_relevant scored graph_expand
  IsRelevant-sound links nearest vec big max_dist c f b h = elim (Bool-cases (contains graph c)) [
    | inl g ↦
        elim (add_neighbors_sound nearest (neighbors F ids links) (fused_top F vec big, []) c
          (contains→In graph c g)) [
            | inl (n, i, e) ↦ inl (n, neighbors_sound ids links n i, e)
            | inr i ↦ absurd i
          ]
    | inr g ↦ elim (Bool-cases (le (value_or F c (value_entries F vec []) far) max_dist)) [
      | inl v ↦ inr (inl (near_enough c vec far (λ d. le d max_dist) f v))
      | inr v ↦ inr (inr (near_enough c big zero_float (λ s. le bigm_keep s) b (last g v h)))
    ]
  ]
    where
      ids : List ℕ
      ids = notes_of_top F vec big

      graph : List ℕ
      graph = (graph_expand F links nearest ids (fused_top F vec big)).1

      last : {x y z : Bool} → x ≡ false → y ≡ false → (x || y || z) ≡ true → z ≡ true
      last p q r = ground arith

  -- With the gate on, every hit has a reason to be there, if the default distance is beyond the
  -- limit and no similarity at all is below `BIGM_KEEP`.
  pub search-IsRelevant :
      (links : List Link) (nearest : ℕ → Option ℕ) (meta : ℕ → Option Meta) (vec big : List (Row F))
      (max_dist : Float) (top_k : ℕ)
      → le far max_dist ≡ false
      → le bigm_keep zero_float ≡ false
      → All
          (HitHas F (λ p. IsRelevant links nearest vec big max_dist p.0))
          (search F links nearest meta vec big max_dist true top_k)
  unfolding search ranked
  search-IsRelevant links nearest meta vec big max_dist top_k f b =
      if_intro (All (HitHas F P)) (is_nil vec && is_nil big) _ _ (λ _. tt)
        (λ _. All-hits_of F P meta (take (clamp_top_k F top_k) kept) (
          All-intro P (take (clamp_top_k F top_k) kept) (λ p i.
            IsRelevant-sound links nearest vec big max_dist p.0 f b
              (In-keep_inv test p ordered (In-take (clamp_top_k F top_k) p kept i)).0)))
    where
      P : ℕ × Float → Type 0
      P p = IsRelevant links nearest vec big max_dist p.0

      test : ℕ × Float → Bool
      test p =
          is_relevant F (scored F links nearest vec big).1 (value_entries F vec [])
            (value_entries F big []) max_dist p.0

      ordered : Scores F
      ordered = sorted (higher F) (scored F links nearest vec big).0

      kept : Scores F
      kept = keep test ordered

-- ===== src/Merging/Votes.antt =====
-- The votes that find_merge_target of app/distill_match.py counts.
use vegapunk_web.Base.{
  ℕ, ◌+◌, ◌*◌, ◌≤◌, ◌<◌, Bool, true, false, not, Option, none, some, List, [], ◌∷◌, ◌++◌, keep,
  length, ltb, eqb, eqb_iff, nat_eq, if◌then◌else◌, ◌≢◌, ◌≡◌, refl, sym, ap, subst, ◌∙◌, ◌⊎◌, inl,
  inr, All, tests, arith, if_intro, Bool-cases, ◌==◌, ltb→lt, ltb→le,
}
use vegapunk_web.Base.Dict.{Dict, lookup-insert}
use vegapunk_web.Base.Dict
use vegapunk_web.Text.{Text, text_eq}
use vegapunk_web.Search.{Floats, Row}
use vegapunk_web.Merging.{votes_of, best_of, matched, vote, count_votes}

-- The largest entry of a dict of votes.
best_of-le :
    (b : ℕ × ℕ) (votes : Dict ℕ ℕ) (m : ℕ)
    → (b.1 ≤ (best_of b votes).1) × (votes_of m votes ≤ (best_of b votes).1)
unfolding best_of vegapunk_web.Base.Dict.lookup
best_of-le (k, c) [] m = (omega arith, omega arith)
best_of-le (k, c) ((n, v) ∷ votes) m = elim (Bool-cases (ltb c v)) [
  | inl e ↦ let (h, i) = best_of-le (n, v) votes m in rw e (ground (arith, h, i, ltb→lt c v e))
  | inr e ↦ let (h, i) = best_of-le (k, c) votes m in rw e (ground (arith, h, i, ltb→le c v e))
]

pub votes_of-best_of :
    (v : ℕ × ℕ) (votes : Dict ℕ ℕ) (m : ℕ) → votes_of m (v ∷ votes) ≤ (best_of v votes).1
unfolding vegapunk_web.Base.Dict.lookup
votes_of-best_of (k, c) votes m = let (h, i) = best_of-le (k, c) votes m in ground (arith, h, i)

pub best_of-All :
    (P : ℕ × ℕ → Type 0) (b : ℕ × ℕ) (votes : Dict ℕ ℕ) → P b → All P votes → P (best_of b votes)
unfolding best_of
best_of-All P b [] h k = h
best_of-All P (k, c) ((n, v) ∷ votes) h (i, is) =
    best_of-All P (if ltb c v then (n, v) else (k, c)) votes
      (if_intro P (ltb c v) (n, v) (k, c) (λ _. i) (λ _. h)) is

-- No entry is above `f`.
abbrev pub Below : (ℕ → ℕ) → Dict ℕ ℕ → Type 0
Below f = All (λ ((k, v) : ℕ × ℕ). v ≤ f k)

pub Below-more :
    (f g : ℕ → ℕ) (votes : Dict ℕ ℕ) → ((m : ℕ) → f m ≤ g m) → Below f votes → Below g votes
Below-more f g [] h b = tt
Below-more f g ((k, v) ∷ votes) h (b, bs) = (omega (arith, b, h k), Below-more f g votes h bs)

Below-insert :
    (f : ℕ → ℕ) (k v : ℕ) (votes : Dict ℕ ℕ)
    → v ≤ f k
    → Below f votes
    → Below f (Dict.insert k v votes)
unfolding vegapunk_web.Base.Dict.insert
Below-insert f k v [] h b = (h, tt)
Below-insert f k v ((j, w) ∷ votes) h (b, bs) =
    if_intro (Below f) (eqb j k) _ _ (λ _. (h, bs)) (λ _. (b, Below-insert f k v votes h bs))

module _ (F : Floats) (match_dist : F.Float) (nearest : Text → List (Row F)) where
  abbrev pub bit : ℕ → Option ℕ → ℕ
  bit m none = 0
  bit m (some nid) = if eqb nid m then 1 else 0

  -- The number of chunks whose nearest chunk is near enough and is of the note `m`.
  abbrev pub tally : ℕ → List Text → ℕ
  tally m [] = 0
  tally m (ch ∷ chunks) = bit m (matched F match_dist nearest (nearest ch)) + tally m chunks

  votes_of-vote :
      (m : ℕ) (o : Option ℕ) (votes : Dict ℕ ℕ)
      → votes_of m (vote F match_dist nearest o votes) ≡ votes_of m votes + bit m o
  votes_of-vote m none votes = omega arith
  votes_of-vote m (some k) votes =
      ap (λ (o : Option ℕ). elim o [ none ↦ 0 | some v ↦ v ])
        (lookup-insert m k (votes_of k votes + 1) votes)
      ∙ elim (Bool-cases (eqb k m)) [
        | inl e ↦ rw e (ap (λ (x : ℕ). votes_of x votes + 1) ((eqb_iff k m).0 e))
        | inr e ↦ rw e (omega arith)
      ]

  Below-vote :
      (f : ℕ → ℕ) (o : Option ℕ) (votes : Dict ℕ ℕ)
      → Below f votes
      → ((m : ℕ) → votes_of m votes ≤ f m)
      → Below (λ m. f m + bit m o) (vote F match_dist nearest o votes)
  Below-vote f none votes b h = Below-more f (λ m. f m + 0) votes (λ m. omega arith) b
  Below-vote f (some k) votes b h =
      Below-insert (λ m. f m + bit m (some k)) k (votes_of k votes + 1) votes
        (rw ((eqb_iff k k).1 refl) (omega (arith, h k)))
        (Below-more f (λ m. f m + bit m (some k)) votes (λ m. omega arith) b)

  pub votes_of-count_votes :
      (m : ℕ) (chunks : List Text) (votes : Dict ℕ ℕ)
      → votes_of m (count_votes F match_dist nearest chunks votes)
        ≡ votes_of m votes + tally m chunks
  unfolding count_votes
  votes_of-count_votes m [] votes = omega arith
  votes_of-count_votes m (ch ∷ chunks) votes = omega (
    arith,
    votes_of-count_votes m chunks
        (vote F match_dist nearest (matched F match_dist nearest (nearest ch)) votes),
    votes_of-vote m (matched F match_dist nearest (nearest ch)) votes,
  )

  pub Below-count_votes :
      (f : ℕ → ℕ) (chunks : List Text) (votes : Dict ℕ ℕ)
      → Below f votes
      → ((m : ℕ) → votes_of m votes ≤ f m)
      → Below (λ m. f m + tally m chunks) (count_votes F match_dist nearest chunks votes)
  unfolding count_votes
  Below-count_votes f [] votes b h = Below-more f (λ m. f m + 0) votes (λ m. omega arith) b
  Below-count_votes f (ch ∷ chunks) votes b h =
      let o = matched F match_dist nearest (nearest ch) in
      Below-more _ (λ m. f m + tally m (ch ∷ chunks)) _ (λ m. omega arith)
        (Below-count_votes (λ m. f m + bit m o) chunks (vote F match_dist nearest o votes)
          (Below-vote f o votes b h) (λ m. omega (arith, votes_of-vote m o votes, h m)))

-- ===== src/Merging/Targets.antt =====
-- The note that find_merge_target of app/distill_match.py chooses.
use vegapunk_web.Base.{
  ℕ, ◌+◌, ◌*◌, ◌≤◌, ◌<◌, Bool, true, false, not, Option, none, some, List, [], ◌∷◌, ◌++◌, keep,
  length, ltb, eqb, eqb_iff, nat_eq, if◌then◌else◌, ◌≢◌, ◌≡◌, refl, sym, ap, subst, ◌∙◌, ◌⊎◌, inl,
  inr, All, In, tests, arith, if_intro, Bool-cases, ◌==◌, ltb→lt, ltb→le,
}
use vegapunk_web.Base.Dict.{Dict, lookup-insert}
use vegapunk_web.Base.Dict
use vegapunk_web.Text.{Text, text_eq}
use vegapunk_web.Chunking.{split_into_chunks}
use vegapunk_web.Notes.{Note}
use vegapunk_web.Search.{Floats, Row}
use vegapunk_web.Merging.{
  Target, one, share, notes_of, title_by, votes_of, best_of, confirmed, elected, norm, same_title,
  count_votes, by_chunks, titled_or, nearest_to, matched, find_merge_target,
}
use vegapunk_web.Merging.Votes.{
  Below, Below-more, bit, tally, best_of-All, votes_of-best_of, votes_of-count_votes,
  Below-count_votes,
}

module _ (F : Floats) (match_dist : F.Float) (nearest : Text → List (Row F)) where
  -- What a choice among `notes` for a candidate with the normalized title `cand` may be.
  pub data IsChosen (casefold : Text → Text) (cand : Text) (notes : List Note) (chunks : List Text)
      : Option Target → Type 0 where
    same :
        (before after : List Note) (n : Note)
        → notes ≡ before ++ (n ∷ after)
        → All (λ (o : Note). norm casefold o.title ≢ cand) before
        → norm casefold n.title ≡ cand
        → IsChosen casefold cand notes chunks
            (some (record { note_id = n.id; title = some n.title; similarity = one }))
    gathered :
        (nid : ℕ)
        → All (λ (o : Note). norm casefold o.title ≢ cand) notes
        → ((m : ℕ) → tally F match_dist nearest m chunks ≤ tally F match_dist nearest nid chunks)
        → 34 * length chunks ≤ 100 * tally F match_dist nearest nid chunks
        → 0 < tally F match_dist nearest nid chunks
        → IsChosen casefold cand notes chunks (
            some (record {
              note_id = nid;
              title = title_by nid notes;
              similarity = share (tally F match_dist nearest nid chunks) (length chunks);
            }))
    undecided :
        All (λ (o : Note). norm casefold o.title ≢ cand) notes
        → ((m : ℕ)
            → (100 * tally F match_dist nearest m chunks < 34 * length chunks) ⊎ (chunks ≡ []))
        → IsChosen casefold cand notes chunks none

  module _ (casefold : Text → Text) (cand : Text) where
    unfoldable IsSame : List Note → Option Note → Type 0
    IsSame notes none = All (λ (o : Note). norm casefold o.title ≢ cand) notes
    IsSame notes (some n) =
        (before : List Note) × (after : List Note) × (notes ≡ before ++ (n ∷ after))
        × All (λ (o : Note). norm casefold o.title ≢ cand) before
        × (norm casefold n.title ≡ cand)

    IsSame-behind :
        (n : Note) (notes : List Note) (o : Option Note)
        → norm casefold n.title ≢ cand
        → IsSame notes o
        → IsSame (n ∷ notes) o
    unfolding IsSame
    IsSame-behind n notes none h k = (h, k)
    IsSame-behind n notes (some found) h (before, after, e, a, q) =
        (n ∷ before, after, ap (◌∷◌ n) e, (h, a), q)

    differs : {b : Bool} → b ≡ true → b ≡ false → ⊥
    differs h k = cc

    same_title-IsSame : (notes : List Note) → IsSame notes (same_title casefold cand notes)
    unfolding same_title IsSame
    same_title-IsSame [] = tt
    same_title-IsSame (n ∷ notes) =
        if_intro (IsSame (n ∷ notes)) (norm casefold n.title == cand) _ _
          (λ e. ([], notes, refl, tt, (text_eq.same_iff (norm casefold n.title) cand).0 e))
          (λ e.
            IsSame-behind n notes (same_title casefold cand notes)
              (λ q. differs ((text_eq.same_iff (norm casefold n.title) cand).1 q) e)
              (same_title-IsSame notes))

    module _ (notes : List Note)
        (differ : All (λ (o : Note). norm casefold o.title ≢ cand) notes) where
      confirmed-IsChosen :
          (chunks : List Text) (nid count : ℕ)
          → count ≡ tally F match_dist nearest nid chunks
          → 0 < length chunks
          → ((m : ℕ) → tally F match_dist nearest m chunks ≤ tally F match_dist nearest nid chunks)
          → IsChosen casefold cand notes chunks (confirmed notes (length chunks) (nid, count))
      unfolding confirmed
      confirmed-IsChosen chunks nid count e p h =
          subst
            (λ c. IsChosen casefold cand notes chunks (confirmed notes (length chunks) (nid, c)))
            (sym e)
            (if_intro (IsChosen casefold cand notes chunks)
              (ltb (100 * tally F match_dist nearest nid chunks) (34 * length chunks)) _ _
              (λ t. undecided differ (λ m. inl (
                omega (
                  arith,
                  h m,
                  ltb→lt (100 * tally F match_dist nearest nid chunks) (34 * length chunks) t,
                ))))
              (λ f.
                let k =
                  ltb→le (100 * tally F match_dist nearest nid chunks) (34 * length chunks) f in
                gathered nid differ h k (omega (arith, k, p))))

      elected-IsChosen :
          (chunks : List Text) (votes : Dict ℕ ℕ)
          → 0 < length chunks
          → ((m : ℕ) → votes_of m votes ≡ tally F match_dist nearest m chunks)
          → Below (λ m. tally F match_dist nearest m chunks) votes
          → IsChosen casefold cand notes chunks (elected notes (length chunks) votes)
      unfolding elected vegapunk_web.Base.Dict.lookup
      elected-IsChosen chunks [] p h b = undecided differ (λ m. inl (omega (arith, h m, p)))
      elected-IsChosen chunks (v ∷ votes) p h (b, bs) =
          let best = best_of v votes in
          let most : (m : ℕ) → tally F match_dist nearest m chunks ≤ best.1 =
            λ m. omega (arith, h m, votes_of-best_of v votes m) in
          let least : best.1 ≤ tally F match_dist nearest best.0 chunks =
            best_of-All (λ ((k, c) : ℕ × ℕ). c ≤ tally F match_dist nearest k chunks) v votes b
              bs in
          confirmed-IsChosen chunks best.0 best.1 (omega (arith, least, most best.0)) p
            (λ m. omega (arith, most m, least))

      by_chunks-IsChosen :
          (chunks : List Text)
          → IsChosen casefold cand notes chunks (by_chunks F match_dist nearest notes chunks)
      unfolding by_chunks vegapunk_web.Base.Dict.lookup
      by_chunks-IsChosen [] = undecided differ (λ m. inr refl)
      by_chunks-IsChosen (ch ∷ chunks) =
          elected-IsChosen (ch ∷ chunks) (count_votes F match_dist nearest (ch ∷ chunks) [])
            (omega arith)
            (λ m. votes_of-count_votes F match_dist nearest m (ch ∷ chunks) [] ∙ omega arith)
            (Below-more (λ m. 0 + tally F match_dist nearest m (ch ∷ chunks))
              (λ m. tally F match_dist nearest m (ch ∷ chunks)) _ (λ m. omega arith)
              (Below-count_votes F match_dist nearest (λ m. 0) (ch ∷ chunks) [] tt
                (λ m. omega arith)))

  titled_or-IsChosen :
      (casefold : Text → Text) (cand : Text) (notes : List Note) (chunks : List Text)
      (o : Option Note)
      → IsSame casefold cand notes o
      → IsChosen casefold cand notes chunks
          (titled_or o (by_chunks F match_dist nearest notes chunks))
  unfolding IsSame
  titled_or-IsChosen casefold cand notes chunks none h =
      by_chunks-IsChosen casefold cand notes h chunks
  titled_or-IsChosen casefold cand notes chunks (some n) (before, after, e, a, q) =
      same before after n e a q

  -- The notes have one with the id.
  abbrev pub HasNote : ℕ → List Note → Type 0
  HasNote nid notes = (n : Note) × In n notes × (n.id ≡ nid)

  -- Every hit is a chunk of one of the notes.
  abbrev pub HitsAreOf : List Note → List (Row F) → Type 0
  HitsAreOf notes = All (λ ((c, nid, dist) : Row F). HasNote nid notes)

  abbrev pub TargetIsOf : List Note → Option Target → Type 0
  TargetIsOf notes none = Unit
  TargetIsOf notes (some t) = HasNote t.note_id notes

  matched-HasNote :
      (notes : List Note) (hits : List (Row F)) (nid : ℕ)
      → HitsAreOf notes hits
      → matched F match_dist nearest hits ≡ some nid
      → HasNote nid notes
  matched-HasNote notes [] nid h e = cc
  matched-HasNote notes ((c, m, dist) ∷ hits) nid h e =
      if_intro (λ (o : Option ℕ). o ≡ some nid → HasNote nid notes) (F.le dist match_dist) _ _
        (λ _ q. subst (λ x. HasNote x notes) (some-inj q) h.0) (λ _ q. cc) e
    where
      some-inj : {a b : ℕ} → some a ≡ some b → a ≡ b
      some-inj q = cc

  tally-HasNote :
      (notes : List Note) (nid : ℕ) (chunks : List Text)
      → ((ch : Text) → HitsAreOf notes (nearest ch))
      → 0 < tally F match_dist nearest nid chunks
      → HasNote nid notes
  tally-HasNote notes nid [] h p = absurd (omega arith)
  tally-HasNote notes nid (ch ∷ chunks) h p =
      go (tally-HasNote notes nid chunks h) (matched F match_dist nearest (nearest ch)) refl p
    where
      go :
          (0 < tally F match_dist nearest nid chunks → HasNote nid notes)
          → (o : Option ℕ) → matched F match_dist nearest (nearest ch) ≡ o
          → 0 < bit F match_dist nearest nid o + tally F match_dist nearest nid chunks
          → HasNote nid notes
      go k none e q = k (omega (arith, q))
      go k (some m) e q = elim (Bool-cases (eqb m nid)) [
        | inl b ↦ matched-HasNote notes (nearest ch) nid (h ch) (e ∙ ap some ((eqb_iff m nid).0 b))
        | inr b ↦ k (ground (arith, b, q))
      ]

  In-middle : (n : Note) (before after : List Note) → In n (before ++ (n ∷ after))
  In-middle n [] after = inl refl
  In-middle n (b ∷ before) after = inr (In-middle n before after)

  -- If the hits are of the notes, so is the target.
  pub IsChosen-TargetIsOf :
      (casefold : Text → Text) (cand : Text) (notes : List Note) (chunks : List Text)
      (o : Option Target)
      → ((ch : Text) → HitsAreOf notes (nearest ch))
      → IsChosen casefold cand notes chunks o
      → TargetIsOf notes o
  IsChosen-TargetIsOf casefold cand notes chunks _ h (same before after n e a q) =
      (n, subst (λ (l : List Note). In n l) (sym e) (In-middle n before after), refl)
  IsChosen-TargetIsOf casefold cand notes chunks _ h (gathered nid a m k p) =
      tally-HasNote notes nid chunks h p
  IsChosen-TargetIsOf casefold cand notes chunks _ h (undecided a m) = tt

  pub same_title-TargetIsOf :
      (casefold : Text → Text) (cand : Text) (notes : List Note)
      → TargetIsOf notes (titled_or (same_title casefold cand notes) none)
  unfolding IsSame
  same_title-TargetIsOf casefold cand notes =
      go (same_title casefold cand notes) (same_title-IsSame casefold cand notes)
    where
      go : (o : Option Note) → IsSame casefold cand notes o → TargetIsOf notes (titled_or o none)
      go none h = tt
      go (some n) (before, after, e, a, q) =
          (n, subst (λ (l : List Note). In n l) (sym e) (In-middle n before after), refl)

module _ (F : Floats) (match_dist : F.Float) (vector_search : Text → ℕ → ℕ → List (Row F)) where
  -- The target is the user's first note whose title is the candidate's, up to whitespace and case;
  -- without one, it is a note of the hits, asked for the user, that are near enough to the most chunks of the body, at
  -- least 34 of 100 of them; and there is none only if no title agrees and either the body has no
  -- chunks or every note has fewer.
  pub find_merge_target-IsChosen :
      (casefold : Text → Text) (user_id : ℕ) (table : List Note) (title body : Text)
      → IsChosen F match_dist
          (nearest_to vector_search user_id)
          casefold
          (norm casefold title)
          (notes_of user_id table)
          (split_into_chunks body)
          (find_merge_target F match_dist vector_search casefold user_id table title body)
  unfolding find_merge_target
  find_merge_target-IsChosen casefold user_id table title body =
      titled_or-IsChosen F match_dist (nearest_to vector_search user_id) casefold
        (norm casefold title) (notes_of user_id table) (split_into_chunks body)
        (same_title casefold (norm casefold title) (notes_of user_id table))
        (same_title-IsSame F match_dist (nearest_to vector_search user_id) casefold
          (norm casefold title) (notes_of user_id table))

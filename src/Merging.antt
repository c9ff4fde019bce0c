-- ===== src/Merging.antt =====
-- app/distill_match.py: the note that a candidate is merged into. `str.casefold` and the search for
-- the nearest chunk are parameters. The quotient of two counts is compared with 0.34 as a fraction.
pub mod Votes
pub mod Targets
use vegapunk_web.Base.{
  ℕ, ◌+◌, ◌*◌, Bool, not, Option, none, some, List, [], ◌∷◌, keep, length, ltb, eqb, nat_eq,
  if◌then◌else◌,
}
use vegapunk_web.Base.{◌==◌}
use vegapunk_web.Base.Dict.{Dict}
use vegapunk_web.Base.Dict
use vegapunk_web.Text.{Text, text_eq, is_space}
use vegapunk_web.Chunking.{split_into_chunks}
use vegapunk_web.Notes.{Note}
use vegapunk_web.Search.{Floats, Row}

-- `1.0`, or `round(count / total, 3)`
pub data Similarity : Type 0 where
  one : Similarity
  share : ℕ → ℕ → Similarity

pub record Target : Type 0 where
  pub note_id : ℕ
  pub title : Option Text
  pub similarity : Similarity

-- `SELECT id, title FROM notes WHERE user_id = %s`
abbrev pub notes_of : ℕ → List Note → List Note
notes_of user_id = keep (λ n. eqb n.user_id user_id)

-- `next((n["title"] for n in notes if n["id"] == nid), None)`
unfoldable pub title_by : ℕ → List Note → Option Text
title_by nid [] = none
title_by nid (n ∷ notes) = if eqb n.id nid then some n.title else title_by nid notes

-- `votes.get(nid, 0)`
abbrev pub votes_of : ℕ → Dict ℕ ℕ → ℕ
votes_of nid votes = elim (Dict.lookup nid votes) [ none ↦ 0 | some v ↦ v ]

-- `max(votes.items(), key=...)`: the first of the largest
unfoldable pub best_of : ℕ × ℕ → Dict ℕ ℕ → ℕ × ℕ
best_of best [] = best
best_of (nid, count) ((n, c) ∷ votes) = best_of (if ltb count c then (n, c) else (nid, count)) votes

unfoldable pub confirmed : List Note → ℕ → ℕ × ℕ → Option Target
unfolding title_by
confirmed notes total (nid, count) =
    if ltb (100 * count) (34 * total)
    then none
    else some (record { note_id = nid; title = title_by nid notes; similarity = share count total })

unfoldable pub elected : List Note → ℕ → Dict ℕ ℕ → Option Target
unfolding best_of confirmed
elected notes total [] = none
elected notes total (v ∷ votes) = confirmed notes total (best_of v votes)

abbrev pub titled_or : Option Note → Option Target → Option Target
titled_or none other = other
titled_or (some n) other = some (record { note_id = n.id; title = some n.title; similarity = one })

-- `search._vector_search(conn, ch, 1, user_id)`
abbrev pub nearest_to : {R : Type 0} → (Text → ℕ → ℕ → R) → ℕ → Text → R
nearest_to vector_search user_id ch = vector_search ch 1 user_id

module _ (casefold : Text → Text) where
  -- `_norm`
  abbrev pub norm : Text → Text
  norm title = casefold (keep (λ c. not (is_space c)) title)

  -- The first note whose title is the candidate's, normalized.
  unfoldable pub same_title : Text → List Note → Option Note
  same_title cand [] = none
  same_title cand (n ∷ notes) = if norm n.title == cand then some n else same_title cand notes

module _ (F : Floats) (match_dist : F.Float) (nearest : Text → List (Row F)) where
  -- The note of the first hit, if it is near enough.
  abbrev pub matched : List (Row F) → Option ℕ
  matched [] = none
  matched ((c, nid, dist) ∷ hits) = if F.le dist match_dist then some nid else none

  abbrev pub vote : Option ℕ → Dict ℕ ℕ → Dict ℕ ℕ
  vote none votes = votes
  vote (some nid) votes = Dict.insert nid (votes_of nid votes + 1) votes

  -- The loop over the chunks.
  unfoldable pub count_votes : List Text → Dict ℕ ℕ → Dict ℕ ℕ
  count_votes [] votes = votes
  count_votes (ch ∷ chunks) votes = count_votes chunks (vote (matched (nearest ch)) votes)

  unfoldable pub by_chunks : List Note → List Text → Option Target
  unfolding count_votes elected
  by_chunks notes [] = none
  by_chunks notes (ch ∷ chunks) =
      elected notes (length (ch ∷ chunks)) (count_votes (ch ∷ chunks) [])

module _ (F : Floats) (match_dist : F.Float) (vector_search : Text → ℕ → ℕ → List (Row F))
    (casefold : Text → Text) where
  unfoldable pub find_merge_target : ℕ → List Note → Text → Text → Option Target
  unfolding same_title by_chunks
  find_merge_target user_id table title body =
      let notes = notes_of user_id table in
      titled_or (same_title casefold (norm casefold title) notes)
        (by_chunks F match_dist (nearest_to vector_search user_id) notes (split_into_chunks body))

-- ===== src/Notes/Reindexing.antt =====
-- The tables behind reindex_note of app/indexing.py.
use vegapunk_web.Base.{
  ℕ, suc, Bool, true, false, not, ◌&&◌, some, List, [], ◌∷◌, ◌++◌, map, keep, contains, keep-append,
  length, append_assoc, append-nil, eqb, nat_eq, Bool-cases, ◌==◌, ◌≡◌, refl, ap, sym, ◌∙◌, inl,
  inr, arith, All,
}
use vegapunk_web.Text.{Text, text_eq}
use vegapunk_web.Json.{Outcome, ok}
use vegapunk_web.Chunking.{split_into_chunks}
use vegapunk_web.Wikilink.{extract_links}
use vegapunk_web.Text.Dedupe.{IsDistinct}
use vegapunk_web.Wikilink.Titles.{extract_links-IsTitles}
use vegapunk_web.Notes.{
  Note, Edge, Chunk, NotesDb, note_by_id, note_by_title, id_of, upsert_edge, add_links, chunk_rows,
  reindex, embedded, reindex_note,
}

-- The edge for a title in the body of a note.
abbrev pub link_to : List Note → Note → Text → Edge
link_to notes note t = record {
  src_note = note.id;
  dst_title = t;
  dst_note = id_of (note_by_title note.user_id t notes);
}

-- No edge of the note has the title.
abbrev IsFresh : Note → Text → List Edge → Type 0
IsFresh note t [] = Unit
IsFresh note t (x ∷ xs) =
    ((eqb x.src_note note.id && (x.dst_title == t)) ≡ false) × IsFresh note t xs

upsert_edge-IsFresh :
    (notes : List Note) (note : Note) (t : Text) (es : List Edge)
    → IsFresh note t es
    → upsert_edge (link_to notes note t) es ≡ es ++ (link_to notes note t ∷ [])
unfolding upsert_edge
upsert_edge-IsFresh notes note t [] h = refl
upsert_edge-IsFresh notes note t (x ∷ xs) h =
    rw h.0 (ap (◌∷◌ x) (upsert_edge-IsFresh notes note t xs h.1))

IsFresh-append :
    (notes : List Note) (note : Note) (t u : Text) (es : List Edge)
    → IsFresh note t es
    → (u == t) ≡ false
    → IsFresh note t (es ++ (link_to notes note u ∷ []))
IsFresh-append notes note t u [] h e = (ground arith, tt)
IsFresh-append notes note t u (x ∷ xs) h e = (h.0, IsFresh-append notes note t u xs h.1 e)

AllFresh : Note → List Text → List Edge → Type 0
AllFresh note [] es = Unit
AllFresh note (t ∷ ts) es = IsFresh note t es × AllFresh note ts es

AllFresh-append :
    (notes : List Note) (note : Note) (u : Text) (ts : List Text) (es : List Edge)
    → AllFresh note ts es
    → contains ts u ≡ false
    → AllFresh note ts (es ++ (link_to notes note u ∷ []))
unfolding AllFresh
AllFresh-append notes note u [] es h e = tt
AllFresh-append notes note u (t ∷ ts) es h e = (
  IsFresh-append notes note t u es h.0 (ground arith),
  AllFresh-append notes note u ts es h.1 (ground arith),
)

add_links-AllFresh :
    (notes : List Note) (note : Note) (ts : List Text) (es : List Edge)
    → IsDistinct ts
    → AllFresh note ts es
    → add_links notes note ts es ≡ es ++ map (link_to notes note) ts
unfolding add_links AllFresh
add_links-AllFresh notes note [] es d h = sym (append-nil es)
add_links-AllFresh notes note (t ∷ ts) es d h =
    ap (add_links notes note ts) (upsert_edge-IsFresh notes note t es h.0)
    ∙ add_links-AllFresh notes note ts (es ++ (link_to notes note t ∷ [])) d.1
        (AllFresh-append notes note t ts es h.1 d.0)
    ∙ append_assoc es (link_to notes note t ∷ []) (map (link_to notes note) ts)

-- The edges of the other notes have none of the titles.
AllFresh-others :
    (note : Note) (ts : List Text) (es : List Edge)
    → AllFresh note ts (keep (λ (e : Edge). not (eqb e.src_note note.id)) es)
unfolding AllFresh
AllFresh-others note [] es = tt
AllFresh-others note (t ∷ ts) es = (fresh es, AllFresh-others note ts es)
  where
    fresh : (es : List Edge) → IsFresh note t (keep (λ (e : Edge). not (eqb e.src_note note.id)) es)
    fresh [] = tt
    fresh (x ∷ xs) = elim (Bool-cases (eqb x.src_note note.id)) [
      | inl e ↦ rw e (fresh xs)
      | inr e ↦ rw e (rw e, fresh xs)
    ]

module _ {A : Type 0} (p : A → Bool) where
  -- The elements that pass a test, and the others.
  keep-old : (xs : List A) → keep p (keep (λ x. not (p x)) xs) ≡ []
  keep-old [] = refl
  keep-old (x ∷ xs) = elim (Bool-cases (p x)) [
    | inl e ↦ rw e (keep-old xs)
    | inr e ↦ rw (e, e) (keep-old xs)
  ]

  keep-others :
      (xs : List A) → keep (λ x. not (p x)) (keep (λ x. not (p x)) xs) ≡ keep (λ x. not (p x)) xs
  keep-others [] = refl
  keep-others (x ∷ xs) = elim (Bool-cases (p x)) [
    | inl e ↦ rw e (keep-others xs)
    | inr e ↦ rw (e, e) (ap (◌∷◌ x) (keep-others xs))
  ]

  keep-new : (xs : List A) → All (λ x. p x ≡ true) xs → keep p xs ≡ xs
  keep-new [] h = refl
  keep-new (x ∷ xs) h = rw h.0 (ap (◌∷◌ x) (keep-new xs h.1))

  keep-none : (xs : List A) → All (λ x. p x ≡ true) xs → keep (λ x. not (p x)) xs ≡ []
  keep-none [] h = refl
  keep-none (x ∷ xs) h = rw h.0 (keep-none xs h.1)

  -- Replacing the elements that pass by new ones that do.
  replaced :
      (old new : List A)
      → All (λ x. p x ≡ true) new
      → keep p (keep (λ x. not (p x)) old ++ new) ≡ new
  replaced old new h =
      keep-append p (keep (λ x. not (p x)) old) new
      ∙ ap (λ (xs : List A). xs ++ keep p new) (keep-old old)
      ∙ keep-new new h

  untouched :
      (old new : List A)
      → All (λ x. p x ≡ true) new
      → keep (λ x. not (p x)) (keep (λ x. not (p x)) old ++ new) ≡ keep (λ x. not (p x)) old
  untouched old new h =
      keep-append (λ x. not (p x)) (keep (λ x. not (p x)) old) new
      ∙ ap (λ (xs : List A). xs ++ keep (λ x. not (p x)) new) (keep-others old)
      ∙ ap (λ (xs : List A). keep (λ x. not (p x)) old ++ xs) (keep-none new h)
      ∙ append-nil (keep (λ x. not (p x)) old)

All-links :
    (notes : List Note) (note : Note) (ts : List Text)
    → All (λ (e : Edge). eqb e.src_note note.id ≡ true) (map (link_to notes note) ts)
All-links notes note [] = tt
All-links notes note (t ∷ ts) = (ground arith, All-links notes note ts)

module _ {Vector : Type 0} where
  All-rows :
      (i ord : ℕ) (ts : List Text) (vs : List Vector)
      → All (λ (c : Chunk Vector). eqb c.note_id i ≡ true) (chunk_rows i ord ts vs)
  All-rows i ord [] vs = tt
  All-rows i ord (t ∷ ts) [] = tt
  All-rows i ord (t ∷ ts) (v ∷ vs) = (ground arith, All-rows i (suc ord) ts vs)

  texts-rows :
      (i ord : ℕ) (ts : List Text) (vs : List Vector)
      → length vs ≡ length ts
      → map (λ (c : Chunk Vector). c.text) (chunk_rows i ord ts vs) ≡ ts
  texts-rows i ord [] vs h = refl
  texts-rows i ord (t ∷ ts) [] h = absurd (omega (arith, h))
  texts-rows i ord (t ∷ ts) (v ∷ vs) h =
      ap (◌∷◌ t) (texts-rows i (suc ord) ts vs (omega (arith, h)))

  -- The tables behind the reindexing of a note.
  pub record IsReindexed (note : Note) (db after : NotesDb Vector) : Type 0 where
    pub texts :
        map
          (λ (c : Chunk Vector). c.text)
          (keep (λ (c : Chunk Vector). eqb c.note_id note.id) after.chunks)
        ≡ split_into_chunks note.body
    pub other_chunks :
        keep (λ (c : Chunk Vector). not (eqb c.note_id note.id)) after.chunks
        ≡ keep (λ (c : Chunk Vector). not (eqb c.note_id note.id)) db.chunks
    pub links :
        keep (λ (e : Edge). eqb e.src_note note.id) after.edges
        ≡ map (link_to db.notes note) (extract_links note.body)
    pub other_links :
        keep (λ (e : Edge). not (eqb e.src_note note.id)) after.edges
        ≡ keep (λ (e : Edge). not (eqb e.src_note note.id)) db.edges
    pub notes_stay : after.notes ≡ db.notes

  -- If the model embeds the chunks of the note's body, one vector for each, the reindexing of a note
  -- that is there succeeds: its chunks are then those of its body, its links one for each title in
  -- the body, resolved among the notes of its user, and all rows of other notes are what they were.
  pub reindex_note-IsReindexed :
      (embed : List Text → Outcome (List Vector)) (i : ℕ) (note : Note) (vectors : List Vector)
      (db : NotesDb Vector)
      → note_by_id i db.notes ≡ some note
      → embedded embed (split_into_chunks note.body) ≡ ok vectors
      → length vectors ≡ length (split_into_chunks note.body)
      → (after : NotesDb Vector) × (reindex_note embed i db ≡ ok after) × IsReindexed note db after
  unfolding reindex_note reindex
  reindex_note-IsReindexed embed i note vectors db found e len =
      let rows = chunk_rows note.id 0 (split_into_chunks note.body) vectors in
      let new = map (link_to db.notes note) (extract_links note.body) in
      let others = keep (λ (x : Edge). not (eqb x.src_note note.id)) db.edges in
      let edges_are : add_links db.notes note (extract_links note.body) others ≡ others ++ new =
        add_links-AllFresh db.notes note (extract_links note.body) others
          (extract_links-IsTitles note.body).distinct
          (AllFresh-others note (extract_links note.body) db.edges) in
      (
        reindex note vectors db,
        rw found (rw e),
        record {
          texts =
              ap (map (λ (c : Chunk Vector). c.text)) (
                replaced (λ (c : Chunk Vector). eqb c.note_id note.id) db.chunks rows
                  (All-rows note.id 0 (split_into_chunks note.body) vectors))
              ∙ texts-rows note.id 0 (split_into_chunks note.body) vectors len;
          other_chunks =
              untouched (λ (c : Chunk Vector). eqb c.note_id note.id) db.chunks rows
                (All-rows note.id 0 (split_into_chunks note.body) vectors);
          links =
              ap (keep (λ (x : Edge). eqb x.src_note note.id)) edges_are
              ∙ replaced (λ (x : Edge). eqb x.src_note note.id) db.edges new
                  (All-links db.notes note (extract_links note.body));
          other_links =
              ap (keep (λ (x : Edge). not (eqb x.src_note note.id))) edges_are
              ∙ untouched (λ (x : Edge). eqb x.src_note note.id) db.edges new
                  (All-links db.notes note (extract_links note.body));
          notes_stay = refl;
        },
      )

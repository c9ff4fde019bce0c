-- ===== src/Ingest/Deletion.antt =====
-- Deleting a note, delete_note of app/mcp_tools.py, and the rows that refer to it.
use vegapunk_web.Base.{
  ℕ, true, false, not, ◌&&◌, none, some, List, [], ◌∷◌, map, keep, All, eqb, if◌then◌else◌,
  if_intro, ◌≡◌, ◌≢◌, refl, ap, sym, subst, In, inl, inr, arith, Bool-cases,
}
use vegapunk_web.Text.{Text}
use vegapunk_web.Json.{ok, raised}
use vegapunk_web.Notes.{
  Note, Edge, NoteTag, Citation, Chunk, NotesDb, note_by_title, points_to, unresolve_links_to,
}
use vegapunk_web.Ingest.{Answer, is_cited, without, delete_row, delete_note}

-- Another note's links to a note, after its deletion: the rows stay, their targets are gone.
abbrev pub unlinked : ℕ → Edge → Edge
unlinked i e = if points_to i e.dst_note then record e { dst_note = none } else e

-- The tables without a note.
pub record IsGone {Vector : Type 0} (i : ℕ) (db after : NotesDb Vector) : Type 0 where
  pub no_row : All (λ (n : Note). n.id ≢ i) after.notes
  pub no_chunk : All (λ (c : Chunk Vector). c.note_id ≢ i) after.chunks
  pub no_tag : All (λ (x : NoteTag). x.note_id ≢ i) after.note_tags
  pub no_link : All (λ (e : Edge). e.dst_note ≢ some i) after.edges
  -- Every link of another note is there still, in its place.
  pub links_stay :
      after.edges ≡ map (unlinked i) (keep (λ (e : Edge). not (eqb e.src_note i)) db.edges)
  pub citations_stay : after.citations ≡ db.citations

All-keep_ne :
    {A : Type 0} (key : A → ℕ) (i : ℕ) (xs : List A)
    → All (λ x. key x ≢ i) (keep (λ x. not (eqb (key x) i)) xs)
All-keep_ne key i [] = tt
All-keep_ne key i (x ∷ xs) =
    if_intro (All (λ x. key x ≢ i)) (not (eqb (key x) i)) _ _
      (λ h. (λ e. ground arith, All-keep_ne key i xs)) (λ h. All-keep_ne key i xs)

unlinked_target : (i : ℕ) (e : Edge) → points_to i (unlinked i e).dst_note ≡ false
unlinked_target i e = elim (Bool-cases (points_to i e.dst_note)) [ inl h ↦ rw h | inr h ↦ rw h h ]

unlinked_source : (i : ℕ) (e : Edge) → (unlinked i e).src_note ≡ e.src_note
unlinked_source i e = elim (Bool-cases (points_to i e.dst_note)) [ inl h ↦ rw h | inr h ↦ rw h ]

-- The edges after the two statements.
edges_after :
    (i : ℕ) (es : List Edge)
    → keep
        (λ (e : Edge). not (eqb e.src_note i) && not (points_to i e.dst_note))
        (map (unlinked i) es)
      ≡ map (unlinked i) (keep (λ (e : Edge). not (eqb e.src_note i)) es)
edges_after i [] = refl
edges_after i (e ∷ es) = elim (Bool-cases (eqb e.src_note i)) [
  | inl h ↦ rw (unlinked_source i e, unlinked_target i e, h) (edges_after i es)
  | inr h ↦
      rw (unlinked_source i e, unlinked_target i e, h) (ap (◌∷◌ (unlinked i e)) (edges_after i es))
]

no_link_map :
    (i : ℕ) (es : List Edge) → All (λ (e : Edge). e.dst_note ≢ some i) (map (unlinked i) es)
no_link_map i [] = tt
no_link_map i (e ∷ es) = (
  λ h.
      let t : eqb i i ≡ false = subst (λ d. points_to i d ≡ false) h (unlinked_target i e) in
      absurd (ground arith),
  no_link_map i es,
)

-- Deleting a note that no message cites succeeds: no row, chunk, tag or link refers to it any more,
-- the links of the other notes to it stay as unresolved ones, every other link stays as it was, and
-- the citations do too.
pub delete_note_uncited :
    {Vector : Type 0} (user_id : ℕ) (title : Text) (n : Note) (db : NotesDb Vector)
    → note_by_title user_id title db.notes ≡ some n
    → is_cited n.id db.citations ≡ false
    → (after : NotesDb Vector) × (delete_note user_id title db ≡ (ok (Answer.done n.id), after))
      × IsGone n.id db after
unfolding delete_note delete_row unresolve_links_to
delete_note_uncited user_id title n db found c = (
  without n.id (unresolve_links_to n.id db),
  rw found (rw c),
  record {
    no_row = All-keep_ne (λ (x : Note). x.id) n.id db.notes;
    no_chunk = All-keep_ne (λ (x : Chunk _). x.note_id) n.id db.chunks;
    no_tag = All-keep_ne (λ (x : NoteTag). x.note_id) n.id db.note_tags;
    no_link =
        subst (All (λ (e : Edge). e.dst_note ≢ some n.id)) (sym (edges_after n.id db.edges))
          (no_link_map n.id (keep (λ (e : Edge). not (eqb e.src_note n.id)) db.edges));
    links_stay = edges_after n.id db.edges;
    citations_stay = refl;
  },
)

-- A note that a message cites cannot be deleted: for every citation of it in the tables, the
-- deletion raises and changes nothing.
pub delete_note_cited :
    {Vector : Type 0} (user_id : ℕ) (title : Text) (n : Note) (c : Citation) (db : NotesDb Vector)
    → note_by_title user_id title db.notes ≡ some n
    → In c db.citations
    → c.note_id ≡ n.id
    → delete_note user_id title db ≡ (raised, db)
unfolding delete_note delete_row unresolve_links_to
delete_note_cited user_id title n c db found i e = rw found (rw (cited n.id c db.citations i e))
  where
    cited :
        (i : ℕ) (c : Citation) (cs : List Citation) → In c cs → c.note_id ≡ i → is_cited i cs ≡ true
    cited i c [] h e = absurd h
    cited i c (x ∷ cs) (inl q) e = ground (arith, ap (λ (y : Citation). y.note_id) q)
    cited i c (x ∷ cs) (inr h) e = ground (arith, cited i c cs h e)

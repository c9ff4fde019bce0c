-- ===== src/Pages/Saved.antt =====
-- ingest_note of app/ingest.py, then get_note of app/mcp_tools.py.
use vegapunk_web.Base.{
  ℕ, ◌&&◌, true, false, Option, none, some, List, [], ◌∷◌, ◌++◌, eqb, eqb_iff, ◌≡◌, refl, ap, sym,
  subst, ◌∙◌, inl, inr, &&-true, Bool-cases, ◌==◌,
}
use mathlib.Core.Option.{some-injective}
use vegapunk_web.Text.{Text, text_eq}
use vegapunk_web.Json.{Outcome, ok, raised}
use vegapunk_web.Notes.{Note, NotesDb, note_by_title, index_after_save}
use vegapunk_web.Ingest.{
  set_body, ingest_note, write_note, write_titled, ingested, indexed_or, set_tags, insert_note,
}
use vegapunk_web.Ingest.Soundness.{set_tags-notes}
use vegapunk_web.Ingest.Owners.{OnOk, index_after_save-notes}
use vegapunk_web.Pages.{NoteView, tags_of, view_of, get_note}

note_by_title-set_body :
    (user_id : ℕ) (title body : Text) (ns : List Note) (n : Note)
    → note_by_title user_id title ns ≡ some n
    → note_by_title user_id title (set_body n.id body ns) ≡ some (record n { body = body })
unfolding note_by_title
note_by_title-set_body user_id title body [] n e = cc
note_by_title-set_body user_id title body (m ∷ ns) n e =
    elim (Bool-cases (eqb m.user_id user_id && (m.title == title))) [
      | inl t ↦
          subst
            (λ (k : Note).
              note_by_title user_id title (set_body k.id body (m ∷ ns))
              ≡ some (record k { body = body }))
            (some-injective m n (rw t at e)) (rw ((eqb_iff m.id m.id).1 refl) (rw t))
      | inr t ↦ elim (Bool-cases (eqb m.id n.id)) [
        | inl d ↦ rw d (rw t (note_by_title-set_body user_id title body ns n (rw t at e)))
        | inr d ↦ rw d (rw t (note_by_title-set_body user_id title body ns n (rw t at e)))
      ]
    ]

note_by_title-title :
    (user_id : ℕ) (title : Text) (ns : List Note) (n : Note)
    → note_by_title user_id title ns ≡ some n
    → n.title ≡ title
unfolding note_by_title
note_by_title-title user_id title [] n e = cc
note_by_title-title user_id title (m ∷ ns) n e =
    elim (Bool-cases (eqb m.user_id user_id && (m.title == title))) [
      | inl c ↦
          ap (λ (k : Note). k.title) (sym (some-injective m n (rw c at e)))
          ∙ (text_eq.same_iff m.title title).0
              ((&&-true (eqb m.user_id user_id) (m.title == title) c).1)
      | inr c ↦ note_by_title-title user_id title ns n (rw c at e)
    ]

note_by_title-new :
    (user_id : ℕ) (title : Text) (ns : List Note) (n : Note)
    → note_by_title user_id title ns ≡ none
    → n.user_id ≡ user_id
    → n.title ≡ title
    → note_by_title user_id title (ns ++ (n ∷ [])) ≡ some n
unfolding note_by_title
note_by_title-new user_id title [] n e u t =
    rw ((eqb_iff n.user_id user_id).1 u, (text_eq.same_iff n.title title).1 t)
note_by_title-new user_id title (m ∷ ns) n e u t =
    elim (Bool-cases (eqb m.user_id user_id && (m.title == title))) [
      | inl c ↦ cc (rw c at e)
      | inr c ↦ rw c (note_by_title-new user_id title ns n (rw c at e) u t)
    ]

module _ {Vector : Type 0} (embed : List Text → Outcome (List Vector)) (user_id : ℕ)
    (title body : Text) (tags : List Text) where
  -- The tables in which the note with the title has the body.
  unfoldable Shows : NotesDb Vector → Type 0
  Shows db =
      (v : NoteView) × (get_note user_id title db ≡ some v) × (v.title ≡ title) × (v.body ≡ body)

  Shows-found :
      (db : NotesDb Vector) (n : Note)
      → note_by_title user_id title db.notes ≡ some n
      → n.title ≡ title
      → n.body ≡ body
      → Shows db
  unfolding Shows get_note
  Shows-found db n e t b = (
    record {
      note_id = n.id;
      title = n.title;
      body = n.body;
      tags = tags_of n.id db.tags db.note_tags;
    },
    ap (view_of db) e,
    t,
    b,
  )

  Shows-indexed :
      {A : Type 0} (a : A) (saved : NotesDb Vector) (o : Outcome (NotesDb Vector)) (n : Note)
      → note_by_title user_id title saved.notes ≡ some n
      → n.title ≡ title
      → n.body ≡ body
      → OnOk (λ after. after.notes ≡ saved.notes) o
      → Shows (indexed_or embed a saved o).1
  Shows-indexed a saved raised n e t b k = Shows-found saved n e t b
  Shows-indexed a saved (ok after) n e t b k =
      Shows-found after n (ap (note_by_title user_id title) k ∙ e) t b

  -- A note that is saved under a title, new or old, is found under this title with the new body,
  -- whether or not its indexing fails.
  pub get_note-ingest_note :
      (db : NotesDb Vector)
      → (v : NoteView) × (get_note user_id title
            ((ingest_note embed user_id title body tags none db).1)
          ≡ some v)
        × (v.title ≡ title)
        × (v.body ≡ body)
  unfolding ingest_note write_note write_titled Shows
  get_note-ingest_note db = go (note_by_title user_id title db.notes) refl
    where
      go :
          (o : Option Note)
          → note_by_title user_id title db.notes ≡ o
          → Shows ((ingested embed db (ok (write_titled user_id title body tags o db))).1)
      go none e =
          let saved = (set_tags db.next_note tags (insert_note user_id title body db)).1 in
          let n : Note = record {
            id = db.next_note;
            user_id = user_id;
            title = title;
            body = body;
          } in
          Shows-indexed _ saved (index_after_save embed db.next_note true saved) n
            (ap (note_by_title user_id title)
                (set_tags-notes db.next_note tags (insert_note user_id title body db))
              ∙ note_by_title-new user_id title db.notes n e refl refl)
            refl refl (index_after_save-notes embed db.next_note true saved)
      go (some n) e =
          let edited : NotesDb Vector = record db { notes = set_body n.id body db.notes } in
          let saved = (set_tags n.id tags edited).1 in
          Shows-indexed _ saved (index_after_save embed n.id false saved) (record n { body = body })
            (ap (note_by_title user_id title) (set_tags-notes n.id tags edited)
              ∙ note_by_title-set_body user_id title body db.notes n e)
            (note_by_title-title user_id title db.notes n e) refl
            (index_after_save-notes embed n.id false saved)

-- ===== src/Ingest/Owners.antt =====
-- The notes of other users under the requests of app/ingest.py and app/mcp_tools.py.
use vegapunk_web.Base.{
  ℕ, Bool, false, not, Option, none, some, List, keep-append, eqb, eqb_iff, if◌then◌else◌, if_intro,
  ◌≡◌, refl, ap, ◌∙◌, append-nil,
}
use vegapunk_web.Text.{Text, text_eq}
use vegapunk_web.Json.{Outcome, ok, raised, or_raise, ◌>>=◌}
use vegapunk_web.Notes.{
  Note, NotesDb, note_by_id, note_by_title, reindex, reindex_note, embedded, index_after_save,
}
use vegapunk_web.Notes.{resolve_inbound_links, unresolve_links_to}
use vegapunk_web.Chunking.{split_into_chunks}
use vegapunk_web.Ingest.{
  Written, Answer, set_body, owned, is_cited, delete_row, after_delete, delete_found, delete_note,
  ingest_note, update_note, write_note, write_titled, write_merged, ingested, indexed_or, index_if,
  update_body, update_tags, update_found, set_tags, insert_note,
}
use vegapunk_web.Ingest.Soundness.{IsSound, set_tags-notes}
use vegapunk_web.Ingest.Foreign.{
  foreign, OfUser, foreign-set_body, foreign-others, note_by_title-OfUser, owned-OfUser,
}

abbrev pub OnOk : {A : Type 0} → (A → Type 0) → Outcome A → Type 0
OnOk P raised = Unit
OnOk P (ok a) = P a

module _ {Vector : Type 0} where
  -- The notes of all users but one are the same.
  abbrev pub LeavesOthers : ℕ → NotesDb Vector → NotesDb Vector → Type 0
  LeavesOthers user_id db after = foreign user_id after.notes ≡ foreign user_id db.notes

  set_body-LeavesOthers :
      (user_id i : ℕ) (body : Text) (tags : List Text) (db : NotesDb Vector)
      → OfUser i user_id db.notes
      → LeavesOthers user_id db
          ((set_tags i tags (record db { notes = set_body i body db.notes })).1)
  set_body-LeavesOthers user_id i body tags db h =
      ap (foreign user_id) (set_tags-notes i tags (record db { notes = set_body i body db.notes }))
      ∙ foreign-set_body user_id i body db.notes h

  write_note-LeavesOthers :
      (user_id : ℕ) (title body : Text) (tags : List Text) (merge_into : Option ℕ)
      (db : NotesDb Vector)
      → IsSound db
      → OnOk (λ r. LeavesOthers user_id db r.1) (write_note user_id title body tags merge_into db)
  unfolding write_note write_titled write_merged
  write_note-LeavesOthers user_id title body tags (some target) db h =
      go (owned user_id (note_by_id target db.notes)) refl
    where
      go :
          (o : Option Note)
          → owned user_id (note_by_id target db.notes) ≡ o
          → OnOk (λ r. LeavesOthers user_id db r.1) (write_merged user_id body tags target o db)
      go none e = tt
      go (some n) e =
          set_body-LeavesOthers user_id target body tags db
            (owned-OfUser user_id target db.notes n h.distinct e)
  write_note-LeavesOthers user_id title body tags none db h =
      go (note_by_title user_id title db.notes) refl
    where
      go :
          (o : Option Note)
          → note_by_title user_id title db.notes ≡ o
          → LeavesOthers user_id db (write_titled user_id title body tags o db).1
      go none e =
          ap (foreign user_id)
            (set_tags-notes db.next_note tags (insert_note user_id title body db))
          ∙ keep-append (λ (n : Note). not (eqb n.user_id user_id)) db.notes _
          ∙ rw ((eqb_iff user_id user_id).1 refl) (append-nil (foreign user_id db.notes))
      go (some n) e =
          set_body-LeavesOthers user_id n.id body tags db
            (note_by_title-OfUser user_id title db.notes n h.distinct e)

  module _ (embed : List Text → Outcome (List Vector)) where
    -- Indexing changes no row of `notes`.
    pub index_after_save-notes :
        (i : ℕ) (is_new : Bool) (db : NotesDb Vector)
        → OnOk (λ after. after.notes ≡ db.notes) (index_after_save embed i is_new db)
    unfolding index_after_save reindex_note reindex resolve_inbound_links
    index_after_save-notes i is_new db = go (note_by_id i db.notes)
      where
        resolving :
            (after : NotesDb Vector) (o : Option Note)
            → after.notes ≡ db.notes
            → OnOk
                (λ r. r.notes ≡ db.notes)
                (or_raise o >>= (λ note. ok (
                  if is_new then resolve_inbound_links note.title i note.user_id after else after)))
        resolving after none e = tt
        resolving after (some note) e =
            if_intro (λ (r : NotesDb Vector). r.notes ≡ db.notes) is_new _ _ (λ _. e) (λ _. e)

        vectors :
            (note : Note) (o : Outcome (List Vector))
            → OnOk
                (λ r. r.notes ≡ db.notes)
                (o >>= (λ vs. ok (reindex note vs db)) >>= (λ after.
                  or_raise (note_by_id i after.notes) >>= (λ note. ok (
                    if is_new
                    then resolve_inbound_links note.title i note.user_id after
                    else after))))
        vectors note raised = tt
        vectors note (ok vs) = resolving (reindex note vs db) (note_by_id i db.notes) refl

        go :
            (o : Option Note)
            → OnOk
                (λ r. r.notes ≡ db.notes)
                (or_raise o
                  >>= (λ note.
                      embedded embed (split_into_chunks note.body)
                      >>= (λ vs. ok (reindex note vs db)))
                  >>= (λ after. or_raise (note_by_id i after.notes) >>= (λ note. ok (
                      if is_new
                      then resolve_inbound_links note.title i note.user_id after
                      else after))))
        go none = tt
        go (some note) = vectors note (embedded embed (split_into_chunks note.body))

    indexed_or-LeavesOthers :
        {A : Type 0} (user_id : ℕ) (a : A) (db saved : NotesDb Vector)
        (o : Outcome (NotesDb Vector))
        → LeavesOthers user_id db saved
        → OnOk (λ after. after.notes ≡ saved.notes) o
        → LeavesOthers user_id db ((indexed_or embed a saved o).1)
    indexed_or-LeavesOthers user_id a db saved raised h k = h
    indexed_or-LeavesOthers user_id a db saved (ok after) h k = ap (foreign user_id) k ∙ h

    ingest_note-LeavesOthers :
        (user_id : ℕ) (title body : Text) (tags : List Text) (merge_into : Option ℕ)
        (db : NotesDb Vector)
        → IsSound db
        → LeavesOthers user_id db ((ingest_note embed user_id title body tags merge_into db).1)
    unfolding ingest_note
    ingest_note-LeavesOthers user_id title body tags merge_into db h =
        go (write_note user_id title body tags merge_into db)
          (write_note-LeavesOthers user_id title body tags merge_into db h)
      where
        go :
            (o : Outcome (Written × NotesDb Vector))
            → OnOk (λ r. LeavesOthers user_id db r.1) o
            → LeavesOthers user_id db ((ingested embed db o).1)
        go raised k = refl
        go (ok (w, saved)) k =
            indexed_or-LeavesOthers user_id w db saved _ k
              (index_after_save-notes w.note_id w.is_new saved)

    update_note-LeavesOthers :
        (user_id : ℕ) (title : Text) (body : Option Text) (tags : Option (List Text))
        (db : NotesDb Vector)
        → IsSound db
        → LeavesOthers user_id db ((update_note embed user_id title body tags db).1)
    unfolding update_note
    update_note-LeavesOthers user_id title body tags db h =
        go (note_by_title user_id title db.notes) refl
      where
        tagged :
            (i : ℕ) (after : NotesDb Vector) (ts : Option (List Text))
            → LeavesOthers user_id db after
            → LeavesOthers user_id db (update_tags i ts after)
        tagged i after none k = k
        tagged i after (some ts) k = ap (foreign user_id) (set_tags-notes i ts after) ∙ k

        written :
            (i : ℕ) (b : Option Text)
            → OfUser i user_id db.notes
            → LeavesOthers user_id db (update_body i b db)
        written i none o = refl
        written i (some b) o = foreign-set_body user_id i b db.notes o

        indexed :
            (i : ℕ) (b : Option Text) (after : NotesDb Vector)
            → LeavesOthers user_id db after
            → LeavesOthers user_id db ((index_if embed i b after).1)
        indexed i none after k = k
        indexed i (some b) after k =
            indexed_or-LeavesOthers user_id (Answer.done i) db after _ k
              (index_after_save-notes i false after)

        go :
            (o : Option Note)
            → note_by_title user_id title db.notes ≡ o
            → LeavesOthers user_id db ((update_found embed body tags db o).1)
        go none e = refl
        go (some n) e = indexed n.id body _ (
            tagged n.id _ tags
              (written n.id body (note_by_title-OfUser user_id title db.notes n h.distinct e)))

  delete_note-LeavesOthers :
      (user_id : ℕ) (title : Text) (db : NotesDb Vector)
      → IsSound db
      → LeavesOthers user_id db ((delete_note user_id title db).1)
  unfolding delete_note delete_row unresolve_links_to
  delete_note-LeavesOthers user_id title db h = go (note_by_title user_id title db.notes) refl
    where
      go :
          (o : Option Note)
          → note_by_title user_id title db.notes ≡ o
          → LeavesOthers user_id db ((delete_found o db).1)
      go none e = refl
      go (some n) e =
          if_intro
            (λ (o : Outcome (NotesDb Vector)). LeavesOthers user_id db ((after_delete n.id o db).1))
            (is_cited n.id db.citations) _ _ (λ _. refl)
            (λ _.
              foreign-others user_id n.id db.notes
                (note_by_title-OfUser user_id title db.notes n h.distinct e))

  -- With sound tables, whatever a request of a user to save, to change or to delete a note does, with
  -- whatever title, target and outcome, the rows of all other users' notes are the same, in their
  -- order.
  pub requests-LeavesOthers :
      (embed : List Text → Outcome (List Vector)) (user_id : ℕ) (db : NotesDb Vector)
      → IsSound db
      → ((title body : Text) (tags : List Text) (merge_into : Option ℕ)
          → LeavesOthers user_id db ((ingest_note embed user_id title body tags merge_into db).1))
        × ((title : Text) (body : Option Text) (tags : Option (List Text))
            → LeavesOthers user_id db ((update_note embed user_id title body tags db).1))
        × ((title : Text) → LeavesOthers user_id db ((delete_note user_id title db).1))
  requests-LeavesOthers embed user_id db h = (
    λ title body tags merge_into.
        ingest_note-LeavesOthers embed user_id title body tags merge_into db h,
    λ title body tags. update_note-LeavesOthers embed user_id title body tags db h,
    λ title. delete_note-LeavesOthers user_id title db h,
  )

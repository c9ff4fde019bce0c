-- ===== src/Ingest/Indexing.antt =====
-- Indexing and its requests on the tables of notes: app/indexing.py, ingest_note of app/ingest.py,
-- update_note of app/mcp_tools.py.
use vegapunk_web.Base.{
  ℕ, Bool, false, not, Option, none, some, List, map, All, All-keep, In, eqb, if◌then◌else◌,
  if_intro, subst,
}
use vegapunk_web.Text.{Text, text_eq}
use vegapunk_web.Json.{Outcome, ok, raised, or_raise, ◌>>=◌}
use vegapunk_web.Wikilink.{extract_links}
use vegapunk_web.Chunking.{split_into_chunks}
use vegapunk_web.Notes.{
  Note, NotesDb, note_by_id, note_by_title, reindex, reindex_note, embedded, index_after_save,
  resolve_inbound_links,
}
use vegapunk_web.Ingest.{
  Written, Answer, write_note, indexed_or, ingested, ingest_note, update_body, update_tags,
  index_if, update_found, update_note,
}
use vegapunk_web.Ingest.Links.{
  key, keys, IsLink, IsFound, note_by_id-IsFound, add_links-All, resolved, resolved-All,
}
use vegapunk_web.Ingest.Soundness.{
  IsSound, SoundIf, set_tags-IsSound, set_body-IsSound, write_note-SoundIf,
}

module _ {Vector : Type 0} where
  reindex-IsSound :
      (note : Note) (vectors : List Vector) (db : NotesDb Vector)
      → In (key note) (keys db.notes)
      → IsSound db
      → IsSound (reindex note vectors db)
  unfolding reindex
  reindex-IsSound note vectors db i h = record {
    below = h.below;
    distinct = h.distinct;
    linked =
        add_links-All db.notes note (extract_links note.body) _ i
          (All-keep (IsLink (keys db.notes)) (λ e. not (eqb e.src_note note.id)) db.edges h.linked);
  }

  resolve-IsSound :
      (note : Note) (i : ℕ) (db : NotesDb Vector)
      → IsFound i db.notes (some note)
      → IsSound db
      → IsSound (resolve_inbound_links note.title i note.user_id db)
  unfolding resolve_inbound_links
  resolve-IsSound note i db (m, e) h = record {
    below = h.below;
    distinct = h.distinct;
    linked =
        subst
          (λ j.
            All (IsLink (keys db.notes))
              (map (resolved note.title j note.user_id db.notes) db.edges))
          e (resolved-All note db.notes db.edges m h.linked);
  }

  module _ (embed : List Text → Outcome (List Vector)) where
    reindex_note-SoundIf :
        (i : ℕ) (db : NotesDb Vector) → IsSound db → SoundIf (λ r. r) (reindex_note embed i db)
    unfolding reindex_note
    reindex_note-SoundIf i db h = go (note_by_id i db.notes) (note_by_id-IsFound i db.notes)
      where
        vectors :
            (note : Note) (o : Outcome (List Vector))
            → In (key note) (keys db.notes)
            → SoundIf (λ r. r) (o >>= (λ vs. ok (reindex note vs db)))
        vectors note raised m = tt
        vectors note (ok vs) m = reindex-IsSound note vs db m h

        go :
            (o : Option Note)
            → IsFound i db.notes o
            → SoundIf
                (λ r. r)
                (or_raise o >>= (λ note.
                  embedded embed (split_into_chunks note.body) >>= (λ vs. ok (reindex note vs db))))
        go none f = tt
        go (some note) (m, e) = vectors note (embedded embed (split_into_chunks note.body)) m

    index_after_save-SoundIf :
        (i : ℕ) (is_new : Bool) (db : NotesDb Vector)
        → IsSound db
        → SoundIf (λ r. r) (index_after_save embed i is_new db)
    unfolding index_after_save
    index_after_save-SoundIf i is_new db h =
        indexed (reindex_note embed i db) (reindex_note-SoundIf i db h)
      where
        resolving :
            (after : NotesDb Vector) (o : Option Note)
            → IsSound after
            → IsFound i after.notes o
            → SoundIf
                (λ r. r)
                (or_raise o >>= (λ note. ok (
                  if is_new then resolve_inbound_links note.title i note.user_id after else after)))
        resolving after none k f = tt
        resolving after (some note) k f =
            if_intro IsSound is_new _ _ (λ _. resolve-IsSound note i after f k) (λ _. k)

        indexed :
            (o : Outcome (NotesDb Vector))
            → SoundIf (λ r. r) o
            → SoundIf
                (λ r. r)
                (o >>= (λ after. or_raise (note_by_id i after.notes) >>= (λ note. ok (
                  if is_new
                  then resolve_inbound_links note.title i note.user_id after
                  else after))))
        indexed raised k = tt
        indexed (ok after) k =
            resolving after (note_by_id i after.notes) k (note_by_id-IsFound i after.notes)

    indexed_or-IsSound :
        {A : Type 0} (a : A) (saved : NotesDb Vector) (o : Outcome (NotesDb Vector))
        → IsSound saved
        → SoundIf (λ r. r) o
        → IsSound ((indexed_or embed a saved o).1)
    indexed_or-IsSound a saved raised h k = h
    indexed_or-IsSound a saved (ok after) h k = k

    pub ingest_note-IsSound :
        (user_id : ℕ) (title body : Text) (tags : List Text) (merge_into : Option ℕ)
        (db : NotesDb Vector)
        → IsSound db
        → IsSound ((ingest_note embed user_id title body tags merge_into db).1)
    unfolding ingest_note
    ingest_note-IsSound user_id title body tags merge_into db h =
        go (write_note user_id title body tags merge_into db)
          (write_note-SoundIf user_id title body tags merge_into db h)
      where
        go :
            (o : Outcome (Written × NotesDb Vector))
            → SoundIf (λ r. r.1) o
            → IsSound ((ingested embed db o).1)
        go raised k = h
        go (ok (w, saved)) k =
            indexed_or-IsSound w saved _ k (index_after_save-SoundIf w.note_id w.is_new saved k)

    update_body-IsSound :
        (i : ℕ) (body : Option Text) (db : NotesDb Vector)
        → IsSound db
        → IsSound (update_body i body db)
    update_body-IsSound i none db h = h
    update_body-IsSound i (some body) db h = set_body-IsSound i body db h

    update_tags-IsSound :
        (i : ℕ) (tags : Option (List Text)) (db : NotesDb Vector)
        → IsSound db
        → IsSound (update_tags i tags db)
    update_tags-IsSound i none db h = h
    update_tags-IsSound i (some tags) db h = set_tags-IsSound i tags db h

    index_if-IsSound :
        (i : ℕ) (body : Option Text) (db : NotesDb Vector)
        → IsSound db
        → IsSound ((index_if embed i body db).1)
    index_if-IsSound i none db h = h
    index_if-IsSound i (some body) db h =
        indexed_or-IsSound (Answer.done i) db _ h (index_after_save-SoundIf i false db h)

    pub update_note-IsSound :
        (user_id : ℕ) (title : Text) (body : Option Text) (tags : Option (List Text))
        (db : NotesDb Vector)
        → IsSound db
        → IsSound ((update_note embed user_id title body tags db).1)
    unfolding update_note
    update_note-IsSound user_id title body tags db h = go (note_by_title user_id title db.notes)
      where
        go : (o : Option Note) → IsSound ((update_found embed body tags db o).1)
        go none = h
        go (some n) =
            index_if-IsSound n.id body _
              (update_tags-IsSound n.id tags _ (update_body-IsSound n.id body db h))

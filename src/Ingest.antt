-- ===== src/Ingest.antt =====
-- app/ingest.py, the tools on notes of app/mcp_tools.py and the deletion of app/routes/notes.py: saving,
-- changing and deleting a note. A transaction that raises leaves the tables as they were.
pub mod Deletion
pub mod Links
pub mod Soundness
pub mod Indexing
pub mod Histories
pub mod Foreign
pub mod Owners
use vegapunk_web.Base.{
  ℕ, suc, Bool, true, false, not, ◌&&◌, ◌||◌, Option, none, some, List, [], ◌∷◌, ◌++◌, map, keep,
  is_nil, contains, eqb, if◌then◌else◌, ◌==◌,
}
use vegapunk_web.Text.{Text, text_eq, strip}
use vegapunk_web.Json.{Outcome, ok, raised}
use vegapunk_web.Notes.{
  Note, Edge, Tag, NoteTag, Citation, Chunk, NotesDb, note_by_id, note_by_title, points_to,
  unresolve_links_to, index_after_save,
}

pub data Action : Type 0 where
  created updated merged : Action

-- What `_write_note` returns.
pub record Written : Type 0 where
  pub note_id : ℕ
  pub title : Text
  pub action : Action
  pub is_new : Bool

-- The answer of the tools: `{"error": "not found"}`, or a result.
pub data Answer : Type 0 where
  not_found : Answer
  done : ℕ → Answer

-- `UPDATE notes SET body = %s WHERE id = %s`
abbrev pub set_body : ℕ → Text → List Note → List Note
set_body i body = map (λ n. if eqb n.id i then record n { body = body } else n)

-- `INSERT INTO tags ... ON CONFLICT (name) ... RETURNING id`: the id of the name, if it has one.
unfoldable pub tag_id_of : Text → List Tag → Option ℕ
tag_id_of name [] = none
tag_id_of name (t ∷ ts) = if t.name == name then some t.id else tag_id_of name ts

-- `INSERT INTO note_tags ... ON CONFLICT DO NOTHING`
unfoldable pub add_note_tag : ℕ → ℕ → List NoteTag → List NoteTag
add_note_tag note_id tag_id [] = record { note_id = note_id; tag_id = tag_id } ∷ []
add_note_tag note_id tag_id (x ∷ xs) =
    if eqb x.note_id note_id && eqb x.tag_id tag_id
    then x ∷ xs
    else x ∷ add_note_tag note_id tag_id xs

-- `WHERE id = %s AND user_id = %s`
abbrev pub owned : ℕ → Option Note → Option Note
owned user_id none = none
owned user_id (some n) = if eqb n.user_id user_id then some n else none

abbrev pub is_cited : ℕ → List Citation → Bool
is_cited i [] = false
is_cited i (c ∷ cs) = eqb c.note_id i || is_cited i cs

module _ {Vector : Type 0} where
  -- `INSERT INTO tags`, then `INSERT INTO note_tags`
  unfoldable pub tag_note : ℕ → Text → NotesDb Vector → NotesDb Vector
  unfolding tag_id_of add_note_tag
  tag_note note_id name db = elim (tag_id_of name db.tags) [
    | some t ↦ record db { note_tags = add_note_tag note_id t db.note_tags }
    | none ↦ record db {
      tags = db.tags ++ (record { id = db.next_tag; name = name } ∷ []);
      note_tags = add_note_tag note_id db.next_tag db.note_tags;
      next_tag = suc db.next_tag;
    }
  ]

  -- The loop of `_set_tags`, on the list `normalized` and the tables.
  unfoldable pub add_tags : ℕ → List Text → List Text → NotesDb Vector → List Text × NotesDb Vector
  unfolding tag_note
  add_tags note_id [] normalized db = (normalized, db)
  add_tags note_id (raw ∷ tags) normalized db =
      let name = strip raw in
      if is_nil name || contains normalized name
      then add_tags note_id tags normalized db
      else add_tags note_id tags (normalized ++ (name ∷ [])) (tag_note note_id name db)

  unfoldable pub set_tags : ℕ → List Text → NotesDb Vector → List Text × NotesDb Vector
  unfolding add_tags
  set_tags note_id tags db =
      add_tags note_id tags []
        (record db { note_tags = keep (λ (x : NoteTag). not (eqb x.note_id note_id)) db.note_tags })

  abbrev pub save_body : ℕ → Text → List Text → NotesDb Vector → NotesDb Vector
  save_body note_id body tags db =
      (set_tags note_id tags (record db { notes = set_body note_id body db.notes })).1

  abbrev pub insert_note : ℕ → Text → Text → NotesDb Vector → NotesDb Vector
  insert_note user_id title body db = record db {
    notes =
        db.notes
        ++ (record { id = db.next_note; user_id = user_id; title = title; body = body } ∷ []);
    next_note = suc db.next_note;
  }

  unfoldable pub write_merged :
      ℕ → Text → List Text → ℕ → Option Note → NotesDb Vector → Outcome (Written × NotesDb Vector)
  unfolding set_tags
  write_merged user_id body tags target none db = raised
  write_merged user_id body tags target (some old) db = ok (
    record { note_id = target; title = old.title; action = Action.merged; is_new = false },
    save_body target body tags db,
  )

  unfoldable pub write_titled :
      ℕ → Text → Text → List Text → Option Note → NotesDb Vector → Written × NotesDb Vector
  unfolding set_tags
  write_titled user_id title body tags none db = (
    record { note_id = db.next_note; title = title; action = Action.created; is_new = true },
    (set_tags db.next_note tags (insert_note user_id title body db)).1,
  )
  write_titled user_id title body tags (some n) db = (
    record { note_id = n.id; title = title; action = Action.updated; is_new = false },
    save_body n.id body tags db,
  )

  -- `_write_note`, one transaction
  unfoldable pub write_note :
      ℕ → Text → Text → List Text → Option ℕ → NotesDb Vector → Outcome (Written × NotesDb Vector)
  unfolding write_merged write_titled note_by_id note_by_title
  write_note user_id title body tags (some target) db =
      write_merged user_id body tags target (owned user_id (note_by_id target db.notes)) db
  write_note user_id title body tags none db =
      ok (write_titled user_id title body tags (note_by_title user_id title db.notes) db)

  abbrev pub update_body : ℕ → Option Text → NotesDb Vector → NotesDb Vector
  update_body note_id none db = db
  update_body note_id (some body) db = record db { notes = set_body note_id body db.notes }

  abbrev pub update_tags : ℕ → Option (List Text) → NotesDb Vector → NotesDb Vector
  update_tags note_id none db = db
  update_tags note_id (some tags) db = (set_tags note_id tags db).1

  -- The rows that `ON DELETE CASCADE` leaves.
  abbrev pub without : ℕ → NotesDb Vector → NotesDb Vector
  without i db = record db {
    notes = keep (λ (n : Note). not (eqb n.id i)) db.notes;
    chunks = keep (λ (c : Chunk Vector). not (eqb c.note_id i)) db.chunks;
    edges = keep (λ (e : Edge). not (eqb e.src_note i) && not (points_to i e.dst_note)) db.edges;
    note_tags = keep (λ (x : NoteTag). not (eqb x.note_id i)) db.note_tags;
  }

  -- `DELETE FROM notes WHERE id = %s` with the actions of the foreign keys in migrations/0001_init.sql:
  -- a citation's note would become NULL, which its primary key refuses.
  unfoldable pub delete_row : ℕ → NotesDb Vector → Outcome (NotesDb Vector)
  delete_row i db = if is_cited i db.citations then raised else ok (without i db)

  abbrev pub after_delete :
      ℕ → Outcome (NotesDb Vector) → NotesDb Vector → Outcome Answer × NotesDb Vector
  after_delete i raised db = (raised, db)
  after_delete i (ok deleted) db = (ok (Answer.done i), deleted)

  abbrev pub delete_found : Option Note → NotesDb Vector → Outcome Answer × NotesDb Vector
  unfolding delete_row unresolve_links_to
  delete_found none db = (ok Answer.not_found, db)
  delete_found (some n) db = after_delete n.id (delete_row n.id (unresolve_links_to n.id db)) db

  -- `delete_note` of app/mcp_tools.py and `delete_page` of app/routes/notes.py
  unfoldable pub delete_note : ℕ → Text → NotesDb Vector → Outcome Answer × NotesDb Vector
  unfolding delete_found note_by_title
  delete_note user_id title db = delete_found (note_by_title user_id title db.notes) db

module _ {Vector : Type 0} (embed : List Text → Outcome (List Vector)) where
  -- The result of a request whose rows are saved, by that of the indexing; the tables stand beside
  -- the outcome.
  abbrev pub indexed_or :
      {A : Type 0} → A → NotesDb Vector → Outcome (NotesDb Vector) → Outcome A × NotesDb Vector
  indexed_or a saved raised = (raised, saved)
  indexed_or a saved (ok indexed) = (ok a, indexed)

  abbrev pub ingested :
      NotesDb Vector → Outcome (Written × NotesDb Vector) → Outcome Written × NotesDb Vector
  unfolding index_after_save
  ingested db raised = (raised, db)
  ingested db (ok (w, saved)) = indexed_or w saved (index_after_save embed w.note_id w.is_new saved)

  -- `ingest_note` without background tasks: when the indexing raises, the note is saved already.
  unfoldable pub ingest_note :
      ℕ → Text → Text → List Text → Option ℕ → NotesDb Vector → Outcome Written × NotesDb Vector
  unfolding write_note ingested
  ingest_note user_id title body tags merge_into db =
      ingested db (write_note user_id title body tags merge_into db)

  abbrev pub index_if : ℕ → Option Text → NotesDb Vector → Outcome Answer × NotesDb Vector
  index_if note_id none db = (ok (Answer.done note_id), db)
  index_if note_id (some body) db =
      indexed_or (Answer.done note_id) db (index_after_save embed note_id false db)

  abbrev pub update_found :
      Option Text
      → Option (List Text)
      → NotesDb Vector
      → Option Note
      → Outcome Answer × NotesDb Vector
  update_found body tags db none = (ok Answer.not_found, db)
  update_found body tags db (some n) =
      index_if n.id body (update_tags n.id tags (update_body n.id body db))

  -- `update_note` of app/mcp_tools.py
  unfoldable pub update_note :
      ℕ → Text → Option Text → Option (List Text) → NotesDb Vector → Outcome Answer × NotesDb Vector
  unfolding set_tags note_by_title
  update_note user_id title body tags db =
      update_found body tags db (note_by_title user_id title db.notes)

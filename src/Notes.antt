-- ===== src/Notes.antt =====
-- The tables of the notes and what hangs on them, and app/indexing.py, which rebuilds the chunks and
-- the links of one note. The tables are lists of rows; time stamps are left out. The embedding model
-- is a parameter.

pub mod Reindexing
use vegapunk_web.Base.{
  ℕ, suc, Bool, true, false, not, ◌&&◌, ◌||◌, Option, none, some, List, [], ◌∷◌, ◌++◌, map, keep,
  eqb, if◌then◌else◌, ◌==◌,
}
use vegapunk_web.Text.{Text, text_eq}
use vegapunk_web.Json.{Outcome, ok, or_raise, ◌>>=◌}
use vegapunk_web.Chunking.{split_into_chunks}
use vegapunk_web.Wikilink.{extract_links}

-- A row of `notes`.
pub record Note : Type 0 where
  pub id : ℕ
  pub user_id : ℕ
  pub title : Text
  pub body : Text

-- A row of `edges`; its kind is the default one.
pub record Edge : Type 0 where
  pub src_note : ℕ
  pub dst_title : Text
  pub dst_note : Option ℕ

-- A row of `tags`.
pub record Tag : Type 0 where
  pub id : ℕ
  pub name : Text

pub record NoteTag : Type 0 where
  pub note_id : ℕ
  pub tag_id : ℕ

-- A row of `message_citations`; its two columns are the primary key.
pub record Citation : Type 0 where
  pub message_id : ℕ
  pub note_id : ℕ

module _ (Vector : Type 0) where
  -- A row of `chunks`.
  pub record Chunk : Type 0 where
    pub note_id : ℕ
    pub ord : ℕ
    pub text : Text
    pub embedding : Vector

  -- The tables, and the next ids of their sequences.
  pub record NotesDb : Type 0 where
    pub notes : List Note
    pub chunks : List Chunk
    pub edges : List Edge
    pub tags : List Tag
    pub note_tags : List NoteTag
    pub citations : List Citation
    pub next_note : ℕ
    pub next_tag : ℕ

-- `SELECT ... FROM notes WHERE id = %s`
unfoldable pub note_by_id : ℕ → List Note → Option Note
note_by_id i [] = none
note_by_id i (n ∷ ns) = if eqb n.id i then some n else note_by_id i ns

-- `SELECT ... FROM notes WHERE user_id = %s AND title = %s`
unfoldable pub note_by_title : ℕ → Text → List Note → Option Note
note_by_title user_id title [] = none
note_by_title user_id title (n ∷ ns) =
    if eqb n.user_id user_id && (n.title == title) then some n else note_by_title user_id title ns

abbrev pub id_of : Option Note → Option ℕ
id_of none = none
id_of (some n) = some n.id

-- `INSERT INTO edges ... ON CONFLICT ... DO UPDATE`
unfoldable pub upsert_edge : Edge → List Edge → List Edge
upsert_edge e [] = e ∷ []
upsert_edge e (x ∷ xs) =
    if eqb x.src_note e.src_note && (x.dst_title == e.dst_title)
    then e ∷ xs
    else x ∷ upsert_edge e xs

-- The loop over the links of a note's body.
unfoldable pub add_links : List Note → Note → List Text → List Edge → List Edge
unfolding upsert_edge note_by_title
add_links notes note [] edges = edges
add_links notes note (t ∷ ts) edges = add_links notes note ts (
    upsert_edge
      (record {
        src_note = note.id;
        dst_title = t;
        dst_note = id_of (note_by_title note.user_id t notes);
      })
      edges)

-- Whether the row `s` of `notes` is the source of an edge and belongs to the user.
abbrev pub owns_source : ℕ → List Note → ℕ → Bool
owns_source user_id [] src = false
owns_source user_id (n ∷ ns) src =
    (eqb n.id src && eqb n.user_id user_id) || owns_source user_id ns src

abbrev pub is_unresolved : Option ℕ → Bool
is_unresolved none = true
is_unresolved (some _) = false

abbrev pub points_to : ℕ → Option ℕ → Bool
points_to i none = false
points_to i (some d) = eqb d i

module _ {Vector : Type 0} where
  -- `enumerate(zip(texts, embeddings))`, from `ord` on
  abbrev pub chunk_rows : ℕ → ℕ → List Text → List Vector → List (Chunk Vector)
  chunk_rows note_id ord [] vs = []
  chunk_rows note_id ord (t ∷ ts) [] = []
  chunk_rows note_id ord (t ∷ ts) (v ∷ vs) =
      record { note_id = note_id; ord = ord; text = t; embedding = v }
      ∷ chunk_rows note_id (suc ord) ts vs

  -- `resolve_inbound_links`
  unfoldable pub resolve_inbound_links : Text → ℕ → ℕ → NotesDb Vector → NotesDb Vector
  resolve_inbound_links title note_id user_id db = record db {
    edges =
        map
          (λ (e : Edge).
            if owns_source user_id db.notes e.src_note
              && (e.dst_title == title)
              && is_unresolved e.dst_note
            then record e { dst_note = some note_id }
            else e)
          db.edges;
  }

  unfoldable pub unresolve_links_to : ℕ → NotesDb Vector → NotesDb Vector
  unresolve_links_to note_id db = record db {
    edges =
        map (λ (e : Edge). if points_to note_id e.dst_note then record e { dst_note = none } else e)
          db.edges;
  }

  -- The statements of `reindex_note` behind the SELECT.
  unfoldable pub reindex : Note → List Vector → NotesDb Vector → NotesDb Vector
  unfolding add_links
  reindex note vectors db = record db {
    chunks =
        keep (λ (c : Chunk Vector). not (eqb c.note_id note.id)) db.chunks
        ++ chunk_rows note.id 0 (split_into_chunks note.body) vectors;
    edges =
        add_links db.notes note (extract_links note.body)
          (keep (λ (e : Edge). not (eqb e.src_note note.id)) db.edges);
  }

module _ {Vector : Type 0} (embed : List Text → Outcome (List Vector)) where
  abbrev pub embedded : List Text → Outcome (List Vector)
  embedded [] = ok []
  embedded (t ∷ ts) = embed (t ∷ ts)

  unfoldable pub reindex_note : ℕ → NotesDb Vector → Outcome (NotesDb Vector)
  unfolding reindex note_by_id
  reindex_note note_id db = do
    note ← or_raise (note_by_id note_id db.notes)
    vectors ← embedded (split_into_chunks note.body)
    ok (reindex note vectors db)

  -- The transaction of `index_after_save`.
  unfoldable pub index_after_save : ℕ → Bool → NotesDb Vector → Outcome (NotesDb Vector)
  unfolding reindex_note resolve_inbound_links
  index_after_save note_id is_new db = do
    indexed ← reindex_note note_id db
    note ← or_raise (note_by_id note_id indexed.notes)
    ok (if is_new then resolve_inbound_links note.title note_id note.user_id indexed else indexed)

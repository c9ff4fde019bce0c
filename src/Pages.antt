-- ===== src/Pages.antt =====
-- The views of the notes in app/routes/notes.py and app/mcp_tools.py: one note with its tags and
-- back links, the search results by note, and the requests that replace tags or delete. Time stamps
-- are left out, and so is the order of rows without `ORDER BY`, which is that of the tables here.
pub mod Saved
use vegapunk_web.Base.{
  ℕ, Bool, true, Option, none, some, List, [], ◌∷◌, ◌++◌, map, take, eqb, nat_eq, if◌then◌else◌,
}
use vegapunk_web.Base.Dict
use vegapunk_web.Base.Dict.{Dict}
use vegapunk_web.Base.Sorting.{sorted}
use vegapunk_web.Text.{Text}
use vegapunk_web.Json.{Outcome}
use vegapunk_web.Notes.{Note, Edge, Tag, NoteTag, NotesDb, note_by_title, points_to}
use vegapunk_web.Ingest.{Answer, set_tags, delete_note}
use vegapunk_web.Search.{Floats, SearchHit}

-- A note as the clients see it.
pub record NoteView : Type 0 where
  pub note_id : ℕ
  pub title : Text
  pub body : Text
  pub tags : List Text

-- The answer of `get_page`.
pub record PageView : Type 0 where
  pub page : NoteView
  pub titles : List Text
  pub backlinks : List Text

-- `JOIN tags t ON t.id = nt.tag_id`: the names of one tag's id.
abbrev pub names_of : ℕ → List Tag → List Text
names_of tag_id [] = []
names_of tag_id (t ∷ ts) =
    let rest = names_of tag_id ts in if eqb t.id tag_id then t.name ∷ rest else rest

-- `SELECT t.name FROM tags t JOIN note_tags nt ... WHERE nt.note_id = %s`
unfoldable pub tags_of : ℕ → List Tag → List NoteTag → List Text
tags_of note_id tags [] = []
tags_of note_id tags (x ∷ xs) =
    let rest = tags_of note_id tags xs in
    if eqb x.note_id note_id then names_of x.tag_id tags ++ rest else rest

-- `SELECT title FROM notes WHERE user_id = %s`
unfoldable pub titles_of : ℕ → List Note → List Text
titles_of user_id [] = []
titles_of user_id (n ∷ ns) =
    let rest = titles_of user_id ns in if eqb n.user_id user_id then n.title ∷ rest else rest

abbrev pub titles_by_id : ℕ → List Note → List Text
titles_by_id i [] = []
titles_by_id i (n ∷ ns) =
    let rest = titles_by_id i ns in if eqb n.id i then n.title ∷ rest else rest

-- `SELECT n.title FROM edges e JOIN notes n ON n.id = e.src_note WHERE e.dst_note = %s`
unfoldable pub linking_titles : ℕ → List Note → List Edge → List Text
linking_titles note_id notes [] = []
linking_titles note_id notes (e ∷ es) =
    let rest = linking_titles note_id notes es in
    if points_to note_id e.dst_note then titles_by_id e.src_note notes ++ rest else rest

module _ {Vector : Type 0} where
  abbrev pub view_of : NotesDb Vector → Option Note → Option NoteView
  view_of db none = none
  view_of db (some n) = some (record {
    note_id = n.id;
    title = n.title;
    body = n.body;
    tags = tags_of n.id db.tags db.note_tags;
  })

  -- `get_note` of app/mcp_tools.py
  unfoldable pub get_note : ℕ → Text → NotesDb Vector → Option NoteView
  unfolding note_by_title tags_of
  get_note user_id title db = view_of db (note_by_title user_id title db.notes)

  abbrev page_of : ℕ → NotesDb Vector → Option NoteView → Option PageView
  page_of user_id db none = none
  page_of user_id db (some v) = some (record {
    page = v;
    titles = titles_of user_id db.notes;
    backlinks = linking_titles v.note_id db.notes db.edges;
  })

  -- `none` is the answer `{"error": "not found"}`.
  unfoldable pub get_page : ℕ → Text → NotesDb Vector → Option PageView
  unfolding get_note titles_of linking_titles
  get_page user_id title db = page_of user_id db (get_note user_id title db)

  abbrev backlinks_to : NotesDb Vector → Option Note → List Text
  backlinks_to db none = []
  backlinks_to db (some n) = linking_titles n.id db.notes db.edges

  unfoldable pub backlinks_of : ℕ → Text → NotesDb Vector → List Text
  unfolding note_by_title linking_titles
  backlinks_of user_id title db = backlinks_to db (note_by_title user_id title db.notes)

  abbrev replaced : List Text → NotesDb Vector → Option Note → Option (List Text) × NotesDb Vector
  replaced tags db none = (none, db)
  replaced tags db (some n) =
      let (normalized, after) = set_tags n.id tags db in (some normalized, after)

  unfoldable pub replace_tags :
      ℕ → Text → List Text → NotesDb Vector → Option (List Text) × NotesDb Vector
  unfolding note_by_title set_tags
  replace_tags user_id title tags db = replaced tags db (note_by_title user_id title db.notes)

  -- The same statements as those of `delete_note`.
  unfoldable pub delete_page : ℕ → Text → NotesDb Vector → Outcome Answer × NotesDb Vector
  unfolding delete_note
  delete_page user_id title db = delete_note user_id title db

module _ (F : Floats) where
  open F use {Float, lt}

  pub record Result : Type 0 where
    pub note_id : ℕ
    pub title : Text
    pub snippet : Text
    pub score : Float

  abbrev pub is_better : SearchHit F → Option Result → Bool
  is_better h none = true
  is_better h (some cur) = lt cur.score h.score

  -- `shown` is what becomes of a score, and `n` the length of a snippet.
  abbrev pub result_of : (Float → Float) → ℕ → SearchHit F → Result
  result_of shown n h = record {
    note_id = h.note_id;
    title = h.note_title;
    snippet = take n h.text;
    score = shown h.score;
  }

  unfoldable pub best_results :
      (Float → Float) → ℕ → List (SearchHit F) → Dict ℕ Result → Dict ℕ Result
  best_results shown n [] best = best
  best_results shown n (h ∷ hits) best = best_results shown n hits (
      if is_better h (Dict.lookup h.note_id best)
      then Dict.insert h.note_id (result_of shown n h) best
      else best)

  abbrev pub ordered_results : Dict ℕ Result → List Result
  ordered_results best = sorted (λ a b. lt b.score a.score) (map (λ (_, r). r) best)

  -- `search_notes` of app/routes/notes.py, on what the search found
  unfoldable pub page_results : List (SearchHit F) → List Result
  unfolding best_results
  page_results hits = ordered_results (best_results (λ s. s) 200 hits [])

  abbrev pub snippet_len : ℕ
  snippet_len = 800

  -- `search_notes` of app/mcp_tools.py, on what the search found; `round4` is `round(_, 4)`.
  unfoldable pub tool_results : (Float → Float) → List (SearchHit F) → List Result
  unfolding best_results
  tool_results round4 hits = ordered_results (best_results round4 snippet_len hits [])

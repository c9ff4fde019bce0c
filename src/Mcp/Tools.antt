-- ===== src/Mcp/Tools.antt =====
-- The tools of app/mcp_server.py, and list_notes and link_account of app/mcp_tools.py.
use vegapunk_web.Base.{
  ℕ, Bool, true, false, Option, none, some, List, [], ◌∷◌, ◌++◌, map, keep, contains, nat_eq, ◌==◌,
}
use vegapunk_web.Text.{Text, text_eq, codes, strip}
use vegapunk_web.Json.{Codec, Outcome, ok, raised, ◌>>=◌}
use vegapunk_web.Session.{Store, stash_link_token}
use vegapunk_web.Notes.{Note, Tag, NoteTag, NotesDb}
use vegapunk_web.Search.{Floats, Row, SearchHit}
use vegapunk_web.Ingest.{Written, Answer, ingest_note, update_note, delete_note}
use vegapunk_web.Pages.{NoteView, get_note, Result, tool_results}
use vegapunk_web.Merging.{Target, notes_of, find_merge_target}
use vegapunk_web.Mcp.{Context, require_ctx}

-- `f"{topic} {query}".strip() if topic else query`
abbrev pub topic_query : Option Text → Text → Text
topic_query none query = query
topic_query (some []) query = query
topic_query (some (c ∷ topic)) query = strip ((c ∷ topic) ++ (codes " " ++ query))

-- `tags or []`
abbrev pub or_no_tags : Option (List Text) → List Text
or_no_tags none = []
or_no_tags (some tags) = tags

abbrev pub tagged : Text → List Tag → List NoteTag → Note → Bool
tagged tag tags note_tags n =
    contains
      (map (λ (nt : NoteTag). nt.note_id)
        (keep
          (λ (nt : NoteTag).
            contains (map (λ (t : Tag). t.id) (keep (λ (t : Tag). t.name == tag) tags)) nt.tag_id)
          note_tags))
      n.id

unfoldable pub tool_search_notes :
    (F : Floats)
    → (F.Float → F.Float)
    → (ℕ → Text → ℕ → Outcome (List (SearchHit F)))
    → Context
    → Text
    → Option Text
    → ℕ
    → Outcome (List (Result F))
unfolding require_ctx tool_results
tool_search_notes F round4 find ctx query topic limit = do
  user_id ← require_ctx ctx
  hits ← find user_id (topic_query topic query) limit
  ok (tool_results F round4 hits)

module _ {Vector : Type 0} where
  -- `recent` sorts by the time stamps, which rows do not carry here.
  abbrev pub listed_for : ℕ → Option Text → NotesDb Vector → List Note
  listed_for user_id none db = notes_of user_id db.notes
  listed_for user_id (some []) db = notes_of user_id db.notes
  listed_for user_id (some (c ∷ tag)) db =
      keep (tagged (c ∷ tag) db.tags db.note_tags) (notes_of user_id db.notes)

  unfoldable pub list_notes :
      (List Note → List Note) → ℕ → Option Text → NotesDb Vector → List (ℕ × Text)
  list_notes recent user_id tag db =
      map (λ (n : Note). (n.id, n.title)) (recent (listed_for user_id tag db))

  -- A tool that changes the tables, for the user of the context.
  abbrev pub as_user :
      {A : Type 0}
      → Outcome ℕ
      → (ℕ → Outcome A × NotesDb Vector)
      → NotesDb Vector
      → Outcome A × NotesDb Vector
  as_user raised f db = (raised, db)
  as_user (ok user_id) f db = f user_id

  unfoldable pub tool_find_merge_target :
      (F : Floats)
      → F.Float
      → (Text → ℕ → ℕ → List (Row F))
      → (Text → Text)
      → Context
      → Text
      → Text
      → NotesDb Vector
      → Outcome (Option Target)
  unfolding require_ctx find_merge_target
  tool_find_merge_target F match_dist vector_search casefold ctx title body db = do
    user_id ← require_ctx ctx
    ok (find_merge_target F match_dist vector_search casefold user_id db.notes title body)

  unfoldable pub tool_get_note : Context → Text → NotesDb Vector → Outcome (Option NoteView)
  unfolding require_ctx get_note
  tool_get_note ctx title db = do user_id ← require_ctx ctx; ok (get_note user_id title db)

  unfoldable pub tool_list_notes :
      (List Note → List Note) → Context → Option Text → NotesDb Vector → Outcome (List (ℕ × Text))
  unfolding require_ctx list_notes
  tool_list_notes recent ctx tag db = do
    user_id ← require_ctx ctx
    ok (list_notes recent user_id tag db)

  unfoldable pub tool_delete_note :
      Context → Text → NotesDb Vector → Outcome Answer × NotesDb Vector
  unfolding require_ctx delete_note
  tool_delete_note ctx title db = as_user (require_ctx ctx) (λ u. delete_note u title db) db

  module _ (embed : List Text → Outcome (List Vector)) where
    unfoldable pub tool_ingest_note :
        Context
        → Text
        → Text
        → Option (List Text)
        → Option ℕ
        → NotesDb Vector
        → Outcome Written × NotesDb Vector
    unfolding require_ctx ingest_note
    tool_ingest_note ctx title body tags merge_into db =
        as_user (require_ctx ctx)
          (λ u. ingest_note embed u title body (or_no_tags tags) merge_into db) db

    unfoldable pub tool_update_note :
        Context
        → Text
        → Option Text
        → Option (List Text)
        → NotesDb Vector
        → Outcome Answer × NotesDb Vector
    unfolding require_ctx update_note
    tool_update_note ctx title body tags db =
        as_user (require_ctx ctx) (λ u. update_note embed u title body tags db) db

module _ (S : Store) (J : Codec) (redirect_base : Text) where
  -- `link_account`: the URL, with a fresh token
  unfoldable pub link_account : S.State → ℕ → Text → Text → Text × S.State
  unfolding stash_link_token
  link_account s user_id provider token = (
    redirect_base ++ (codes "/auth/login/" ++ (provider ++ (codes "?link=" ++ token))),
    stash_link_token S J s token user_id,
  )

  abbrev pub linking : Bool → Outcome ℕ → S.State → Text → Text → Outcome Text × S.State
  linking has_store raised s provider token = (raised, s)
  linking false (ok user_id) s provider token = (raised, s)
  linking true (ok user_id) s provider token =
      let (url, s') = link_account s user_id provider token in (ok url, s')

  unfoldable pub tool_link_account : Context → S.State → Text → Text → Outcome Text × S.State
  unfolding require_ctx link_account
  tool_link_account ctx s provider token = linking ctx.has_store (require_ctx ctx) s provider token

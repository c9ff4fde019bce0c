-- ===== src/Tests/Notes.antt =====
-- The theorems on the text of notes, on links and on deletion at concrete inputs.
use vegapunk_web.Base.{map, some, List, [], ◌∷◌, concat, All, In, ◌≡◌, refl, inl, list_beq}
use vegapunk_web.Text.{Text, codes, strip, lstrip, rstrip, is_space, starts_with, split, join}
use vegapunk_web.Text.Dedupe.{add_new, add_all}
use vegapunk_web.Text.Laws.{visible}
use vegapunk_web.Json.{Outcome, ok, raised}
use vegapunk_web.Chunking.{
  is_heading, split_blocks, split_into_chunks, block_lines, block_line, flush,
}
use vegapunk_web.Chunking.Kept.{visible-split_into_chunks}
use vegapunk_web.Chunking.Regions.{is_open}
use vegapunk_web.Chunking.Pieces.{IsPiece, split_into_chunks-IsPiece}
use vegapunk_web.Chunking.Fenced.{region-In-chunks}
use vegapunk_web.Wikilink.{
  groups, remove_spans, extract_links, span_at, behind, link_at, group_at, before, title_of,
}
use vegapunk_web.Wikilink.{remove_spans, span_at, groups, link_at}
use vegapunk_web.Wikilink.Rendered.{Piece, aliased, inline, fenced}
use vegapunk_web.Notes.Reindexing.{IsReindexed, reindex_note-IsReindexed}
use vegapunk_web.Notes.{note_by_id, reindex_note, Note, Citation, NotesDb, note_by_title}
use vegapunk_web.Ingest.{Answer, delete_note}
use vegapunk_web.Ingest.Deletion.{IsGone, delete_note_uncited, delete_note_cited}

-- Text, a code block with a blank line and a heading in it, and text.
abbrev body_with_code : Text
body_with_code = codes "a [[b|c]]\n```\n\n# x\n```\nd"

visible-split_into_chunks_example :
    visible (concat (split_into_chunks body_with_code)) ≡ visible body_with_code
visible-split_into_chunks_example = visible-split_into_chunks body_with_code

split_into_chunks-IsPiece_example :
    All (IsPiece (split b'\n' body_with_code)) (split_into_chunks body_with_code)
split_into_chunks-IsPiece_example = split_into_chunks-IsPiece body_with_code

region-In-chunks_example : In (codes "```\n\n# x\n```") (split_into_chunks body_with_code)
unfolding is_open starts_with strip lstrip rstrip is_space split join
region-In-chunks_example =
    region-In-chunks body_with_code (codes "```") (codes "```") (codes "a [[b|c]]" ∷ [])
      ([] ∷ codes "# x" ∷ []) (codes "d" ∷ []) refl refl refl (refl, (refl, tt)) refl

links_of_body : extract_links body_with_code ≡ codes "b" ∷ []
unfolding extract_links remove_spans groups span_at behind link_at group_at before title_of add_new
    add_all starts_with strip lstrip rstrip is_space list_beq
links_of_body = refl

-- A link with an alias, and two links in code.
abbrev pieces : List (Piece × Text)
pieces =
    (aliased (codes " b") (codes "c"), codes "\n")
    ∷ (fenced (codes "\n[[x]]\n"), codes " ")
    ∷ (inline (codes "[[y]]"), codes ".")
    ∷ []

-- Two notes of one user, the second with a link to the first.
abbrev pub target_note : Note
target_note = record { id = 1; user_id = 7; title = codes "t"; body = codes "x" }

abbrev pub source_note : Note
source_note = record { id = 2; user_id = 7; title = codes "s"; body = codes "[[t]]" }

abbrev two_notes : List Citation → NotesDb Text
two_notes cited = record {
  notes = target_note ∷ source_note ∷ [];
  chunks = record { note_id = 1; ord = 0; text = codes "x"; embedding = [] } ∷ [];
  edges = record { src_note = 2; dst_title = codes "t"; dst_note = some 1 } ∷ [];
  tags = [];
  note_tags = record { note_id = 1; tag_id = 1 } ∷ [];
  citations = cited;
  next_note = 3;
  next_tag = 1;
}

abbrev citation : Citation
citation = record { message_id = 5; note_id = 1 }

delete_note_uncited_example :
    (after : NotesDb Text) × (delete_note 7 (codes "t") (two_notes [])
      ≡ (ok (Answer.done 1), after))
    × IsGone 1 (two_notes []) after
unfolding note_by_title list_beq
delete_note_uncited_example = delete_note_uncited 7 (codes "t") target_note (two_notes []) refl refl

delete_note_cited_example :
    delete_note 7 (codes "t") (two_notes (citation ∷ [])) ≡ (raised, two_notes (citation ∷ []))
unfolding note_by_title list_beq
delete_note_cited_example =
    delete_note_cited 7 (codes "t") target_note citation (two_notes (citation ∷ [])) refl (inl refl)
      refl

-- A model that gives every text the empty vector.
abbrev pub no_vectors : List Text → Outcome (List Text)
no_vectors texts = ok (map (λ _. []) texts)

reindex_note-IsReindexed_example :
    (after : NotesDb Text) × (reindex_note no_vectors 2 (two_notes []) ≡ ok after)
    × IsReindexed source_note (two_notes []) after
unfolding note_by_id split_into_chunks split_blocks block_lines block_line flush starts_with strip
    lstrip rstrip is_space is_heading split join
reindex_note-IsReindexed_example =
    reindex_note-IsReindexed no_vectors 2 source_note ([] ∷ []) (two_notes []) refl refl refl

-- ===== src/Distill/Request.antt =====
-- The requests of app/routes/distill.py: distill and merge_preview. The LLM, `str.casefold`, the
-- search for the nearest chunk and `difflib.unified_diff` are parameters.
use vegapunk_web.Base.{
  ℕ, ◌&&◌, Option, none, some, List, [], ◌∷◌, ◌++◌, map, keep, length, contains, ltb, eqb, nat_eq,
  if◌then◌else◌,
}
use vegapunk_web.Text.{Text, codes, join, splitlines}
use vegapunk_web.Json.{
  Json, Items, null, str, arr, obj, nil, cons, Codec, Outcome, ok, raised, ◌>>=◌, get_field, truthy,
}
use vegapunk_web.Memory.{Message, Conversation, ChatDb}
use vegapunk_web.Chat.{own_conversation}
use vegapunk_web.Notes.{Note, Tag, NoteTag, NotesDb}
use vegapunk_web.Search.{Floats, Row}
use vegapunk_web.Merging.{Target, notes_of, norm, same_title, titled_or, find_merge_target}
use vegapunk_web.Distill.{extract_json_array}

-- `', '.join(names) or '(없음)'`
abbrev pub or_nothing : Text → Text
or_nothing [] = codes "(없음)"
or_nothing (c ∷ s) = c ∷ s

abbrev pub listed : List Text → Text
listed names = or_nothing (join (codes ", ") names)

unfoldable pub build_distill_prompt : Text → List Text → List Text → Text
build_distill_prompt convo titles tags =
    codes "다음 대화에서 장기 보관할 가치가 있는 지식을 주제별 노트 후보로 추출하라.\n"
    ++ (codes "- 인사·잡담만 있으면 빈 배열 []을 출력.\n"
        ++ (codes "- 관련 노트는 본문에 [[제목]]으로 링크. 태그는 기존 태그를 우선 재사용.\n"
            ++ (codes "- 각 후보: {\"title\":..,\"body\":..,\"tags\":[..]}. JSON 배열로만 응답.\n\n"
                ++ (codes "[기존 노트 제목]\n"
                    ++ (listed titles
                        ++ (codes "\n\n[기존 태그]\n"
                            ++ (listed tags ++ (codes "\n\n[대화]\n" ++ convo))))))))

-- `"\n".join(f"{m['role']}: {m['content']}" for m in msgs)`
abbrev pub transcript : List Message → Text
transcript msgs =
    join (codes "\n") (map (λ (m : Message). m.role ++ (codes ": " ++ m.content)) msgs)

-- The messages of a conversation, in the order of their ids.
abbrev pub messages_of : ℕ → List Message → List Message
messages_of conv_id = keep (λ m. eqb m.conv_id conv_id)

-- The tags of a user's notes.
abbrev pub tag_names : ℕ → List Note → List Tag → List NoteTag → List Text
tag_names user_id notes tags note_tags =
    map (λ (t : Tag). t.name)
      (keep
        (λ (t : Tag).
          contains
            (map (λ (nt : NoteTag). nt.tag_id)
              (keep
                (λ (nt : NoteTag).
                  contains (map (λ (n : Note). n.id) (notes_of user_id notes)) nt.note_id)
                note_tags))
            t.id)
        tags)

pub record Candidate : Type 0 where
  pub title : Text
  pub body : Json
  pub tags : Json
  pub merge_target : Option Target

-- `c.get(k)` and `c.get(k, [])`
abbrev pub or_none : Option Json → Json
or_none none = null
or_none (some v) = v

abbrev pub or_empty_list : Option Json → Json
or_empty_list none = arr nil
or_empty_list (some v) = v

module _ (F : Floats) (match_dist : F.Float) (vector_search : Text → ℕ → ℕ → List (Row F))
    (casefold : Text → Text) (user_id : ℕ) (table : List Note) where
  -- `find_merge_target` on values of JSON: a title that is no text has no `split`, and a body that is
  -- no text is asked for its lines only if no title agrees.
  abbrev pub only_titled : Option Target → Outcome (Option Target)
  only_titled none = raised
  only_titled (some t) = ok (some t)

  unfoldable pub target_of : Json → Json → Outcome (Text × Option Target)
  unfolding find_merge_target same_title
  target_of (str title) (str body) =
      ok (title, find_merge_target F match_dist vector_search casefold user_id table title body)
  target_of (str title) body = do
    t ←
        only_titled
          (titled_or (same_title casefold (norm casefold title) (notes_of user_id table)) none)
    ok (title, t)
  target_of title body = raised

  -- The body of the loop, for one dict.
  abbrev pub propose : Json → Json → Json → Outcome (List Candidate)
  propose title body tags =
      if truthy title && truthy body
      then (do
        found ← target_of title body
        ok (record { title = found.0; body = body; tags = tags; merge_target = found.1 } ∷ []))
      else ok []

  abbrev pub propose_item : Json → Outcome (List Candidate)
  propose_item (obj fs) =
      propose (or_none (get_field (codes "title") fs)) (or_none (get_field (codes "body") fs))
        (or_empty_list (get_field (codes "tags") fs))
  propose_item v = ok []

  unfoldable pub propose_all : Items → Outcome (List Candidate)
  unfolding target_of get_field
  propose_all nil = ok []
  propose_all (cons v vs) = do out ← propose_item v; more ← propose_all vs; ok (out ++ more)

module _ (F : Floats) (match_dist : F.Float) (vector_search : Text → ℕ → ℕ → List (Row F))
    (casefold : Text → Text) (J : Codec) (llm : Text → Outcome Text) where
  abbrev pub distill_own :
      {Vector : Type 0}
      → ℕ
      → ℕ
      → ChatDb
      → NotesDb Vector
      → Option Conversation
      → Outcome (List Candidate)
  distill_own user_id conv_id db notes none = ok []
  distill_own user_id conv_id db notes (some c) = do
    raw ← llm (
        build_distill_prompt (transcript (messages_of conv_id db.messages))
          (map (λ (n : Note). n.title) (notes_of user_id notes.notes))
          (tag_names user_id notes.notes notes.tags notes.note_tags))
    propose_all F match_dist vector_search casefold user_id notes.notes (extract_json_array J raw)

  unfoldable pub distill :
      {Vector : Type 0} → ℕ → ℕ → ChatDb → NotesDb Vector → Outcome (List Candidate)
  unfolding own_conversation build_distill_prompt propose_all
  distill user_id conv_id db notes =
      distill_own user_id conv_id db notes (own_conversation conv_id user_id db.conversations)

abbrev pub long_note_chars : ℕ
long_note_chars = 1500

-- `SELECT body FROM notes WHERE id = %s AND user_id = %s`
unfoldable pub own_note : ℕ → ℕ → List Note → Option Note
own_note i user_id [] = none
own_note i user_id (n ∷ notes) =
    if eqb n.id i && eqb n.user_id user_id then some n else own_note i user_id notes

unfoldable pub merge_prompt : Text → Text → Text
merge_prompt old_body candidate_body =
    codes "다음 [기존 노트]에 [새 정보]를 통합한 본문을 만들어라. 보존 규칙:\n"
    ++ (codes "- 기존 정보를 임의로 삭제하지 마라.\n"
        ++ (codes "- 새 정보는 관련 위치에 통합하라(끝에 붙이지 마라).\n"
            ++ (codes "- 중복은 병합, 모순은 최신을 쓰되 변경을 표시하라(예: 연봉 6천 (이전 5천에서 변경)).\n"
                ++ (codes "- 마크다운/[[링크]]/표를 보존하라.\n- "
                    ++ ((if ltb long_note_chars (length old_body)
                          then codes "노트가 길면 영향받는 ## 섹션만 통합하고 나머지는 그대로 보존하라."
                          else codes "노트가 짧으니 전체를 자연스럽게 통합하라.")
                        ++ (codes "\n- 통합된 본문만 출력하라.\n\n[기존 노트]\n"
                            ++ (old_body ++ (codes "\n\n[새 정보]\n" ++ candidate_body))))))))

module _ (llm : Text → Outcome Text) (unified_diff : List Text → List Text → List Text) where
  abbrev pub preview : Text → Option Note → Outcome (Option (Text × Text))
  preview candidate_body none = ok none
  preview candidate_body (some n) = do
    merged_body ← llm (merge_prompt n.body candidate_body)
    ok (
        some (
          merged_body,
          join (codes "\n") (unified_diff (splitlines n.body) (splitlines merged_body)),
        ))

  -- `none` is the answer `{"error": "target not found"}`.
  unfoldable pub merge_preview : ℕ → ℕ → Text → List Note → Outcome (Option (Text × Text))
  unfolding own_note merge_prompt splitlines
  merge_preview user_id target_note_id candidate_body table =
      preview candidate_body (own_note target_note_id user_id table)

-- ===== src/Chat.antt =====
-- app/routes/chat.py and app/routes/memo.py: the sources and the prompt of an answer, the rows that an
-- answer leaves, and the requests on conversations and memos. Scores are those of the search.
pub mod Memos
use vegapunk_web.Base.{
  ℕ, suc, Bool, true, false, not, ◌&&◌, Option, none, some, List, [], ◌∷◌, ◌++◌, map, keep, is_nil,
  contains, eqb, nat_eq, if◌then◌else◌,
}
use vegapunk_web.Base.Dict
use vegapunk_web.Base.Dict.{Dict}
use vegapunk_web.Base.Sorting.{sorted}
use vegapunk_web.Text.{Text, codes, join}
use vegapunk_web.Search.{Floats, SearchHit}
use vegapunk_web.Memory.{Message, Conversation, ChatDb, AnswerContext}

abbrev pub answer_instruction : Text
answer_instruction = codes "[지시]\n당신은 사용자를 돕는 비서다. [참고자료]가 주어지면 우선 근거로 삼되, 없으면 그냥 네 지식으로 자연스럽게 답하라."

module _ (F : Floats) where
  open F use {Float, lt}

  pub record Source : Type 0 where
    pub note_id : ℕ
    pub title : Text
    pub score : Float

  abbrev pub source_of : SearchHit F → Source
  source_of h = record { note_id = h.note_id; title = h.note_title; score = h.score }

  -- `cur is None or h.score > cur["score"]`
  abbrev pub is_better : SearchHit F → Option Source → Bool
  is_better h none = true
  is_better h (some cur) = lt cur.score h.score

  unfoldable pub best_sources : List (SearchHit F) → Dict ℕ Source → Dict ℕ Source
  best_sources [] best = best
  best_sources (h ∷ hits) best = best_sources hits (
      if is_better h (Dict.lookup h.note_id best)
      then Dict.insert h.note_id (source_of h) best
      else best)

  abbrev pub values : Dict ℕ Source → List Source
  values = map (λ (_, s). s)

  -- `_dedupe_sources`
  unfoldable pub dedupe_sources : List (SearchHit F) → List Source
  unfolding best_sources
  dedupe_sources hits = sorted (λ a b. lt b.score a.score) (values (best_sources hits []))

  abbrev pub summary_part : Option Text → List Text
  summary_part none = []
  summary_part (some s) = if is_nil s then [] else (codes "[요약]\n" ++ s) ∷ []

  abbrev pub recent_part : Text → List Text
  recent_part s = if is_nil s then [] else (codes "[최근 대화]\n" ++ s) ∷ []

  abbrev pub refs_part : List (SearchHit F) → List Text
  refs_part [] = []
  refs_part (h ∷ hits) =
      (codes "[참고자료]\n"
        ++ join (codes "\n\n") (
            map (λ (x : SearchHit F). codes "- (" ++ (x.note_title ++ (codes ") " ++ x.text)))
              (h ∷ hits)))
      ∷ []

  -- `_assemble_answer_prompt`
  unfoldable pub assemble_answer_prompt : AnswerContext → List (SearchHit F) → Text → Text
  assemble_answer_prompt ctx hits question = join (codes "\n\n") (
      (answer_instruction ∷ [])
      ++ (summary_part ctx.summary
          ++ (recent_part ctx.recent ++ (refs_part hits ++ ((codes "[질문]\n" ++ question) ∷ [])))))

  -- A row of `message_citations`.
  pub record Cited : Type 0 where
    pub message_id : ℕ
    pub note_id : ℕ
    pub score : Float

  -- The loop of `_save_citations`: the rows for a new message, on which `ON CONFLICT` does not apply.
  -- A note that is deleted between the search and this loop is not modelled.
  unfoldable pub citations_of : ℕ → List ℕ → List (SearchHit F) → List Cited
  citations_of message_id seen [] = []
  citations_of message_id seen (h ∷ hits) =
      if contains seen h.note_id
      then citations_of message_id seen hits
      else (record { message_id = message_id; note_id = h.note_id; score = h.score }
          ∷ citations_of message_id (h.note_id ∷ seen) hits)

-- `_insert_message`: the id of the new row, and the tables
unfoldable pub insert_message : ℕ → Text → Text → Option Text → ChatDb → ℕ × ChatDb
insert_message conv_id role content sent_prompt db = (
  db.next_message,
  record db {
    messages =
        db.messages
        ++ (record {
          id = db.next_message;
          conv_id = conv_id;
          role = role;
          content = content;
          sent_prompt = sent_prompt;
        }
            ∷ []);
    next_message = suc db.next_message;
  },
)

-- `WHERE id = %s AND user_id = %s`
abbrev pub is_own : ℕ → ℕ → Conversation → Bool
is_own conv_id user_id c = eqb c.id conv_id && eqb c.user_id user_id

unfoldable pub own_conversation : ℕ → ℕ → List Conversation → Option Conversation
own_conversation conv_id user_id [] = none
own_conversation conv_id user_id (c ∷ cs) =
    if is_own conv_id user_id c then some c else own_conversation conv_id user_id cs

-- `UPDATE conversations SET ... WHERE id = %s AND user_id = %s`
abbrev pub update_own :
    ℕ → ℕ → (Conversation → Conversation) → List Conversation → List Conversation
update_own conv_id user_id f = map (λ c. if is_own conv_id user_id c then f c else c)

unfoldable pub rename_conversation : ℕ → ℕ → Option Text → ChatDb → ChatDb
rename_conversation conv_id user_id title db = record db {
  conversations = update_own conv_id user_id (λ c. record c { title = title }) db.conversations;
}

abbrev delete_own : ℕ → ℕ → Option Conversation → ChatDb → ChatDb
delete_own conv_id user_id none db = db
delete_own conv_id user_id (some c) db = record db {
  conversations = keep (λ x. not (is_own conv_id user_id x)) db.conversations;
  messages = keep (λ (m : Message). not (eqb m.conv_id conv_id)) db.messages;
}

-- The messages of a conversation go with it.
unfoldable pub delete_conversation : ℕ → ℕ → ChatDb → ChatDb
unfolding own_conversation
delete_conversation conv_id user_id db =
    delete_own conv_id user_id (own_conversation conv_id user_id db.conversations) db

abbrev memo_of : Option Conversation → Option Text
memo_of none = none
memo_of (some c) = some c.memo

-- `none` is the answer `{"error": "not found"}`.
unfoldable pub get_conv_memo : ℕ → ℕ → ChatDb → Option Text
unfolding own_conversation
get_conv_memo conv_id user_id db = memo_of (own_conversation conv_id user_id db.conversations)

abbrev is_found : Option Conversation → Bool
is_found none = false
is_found (some c) = true

-- The answer, `true` for `{"ok": True}`, and the tables
unfoldable pub put_conv_memo : ℕ → ℕ → Text → ChatDb → Bool × ChatDb
unfolding own_conversation
put_conv_memo conv_id user_id body db = (
  is_found (own_conversation conv_id user_id db.conversations),
  record db {
    conversations = update_own conv_id user_id (λ c. record c { memo = body }) db.conversations;
  },
)

-- `user_memo`, by the user's id
unfoldable pub get_global_memo : ℕ → Dict ℕ Text → Text
get_global_memo user_id memos = elim (Dict.lookup user_id memos) [ none ↦ [] | some body ↦ body ]

unfoldable pub put_global_memo : ℕ → Text → Dict ℕ Text → Dict ℕ Text
put_global_memo user_id body memos = Dict.insert user_id body memos

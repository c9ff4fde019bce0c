-- ===== src/Memory.antt =====
-- app/memory.py: the window of recent turns and the incremental summary of a conversation. The
-- tables are lists of rows; the rows of `messages` stand in the order of their ids, which
-- `ORDER BY id` keeps. The LLM is a parameter.
pub mod Turns
pub mod Folding
pub mod Window
use vegapunk_web.Base.{
  ℕ, suc, ◌+◌, ◌-◌, ◌<◌, Bool, true, false, not, ◌&&◌, ◌||◌, Option, none, some, List, [], ◌∷◌,
  ◌++◌, map, concat, length, take, drop, keep, is_nil, last_or, All, leb, ltb, eqb, if◌then◌else◌,
  ◌==◌,
}
use vegapunk_web.Text.{Text, text_eq, codes, join}
use vegapunk_web.Json.{Outcome, ok, raised, or_raise, ◌>>=◌}

abbrev pub recent_turns : ℕ
recent_turns = 6

abbrev pub summary_trigger_turns : ℕ
summary_trigger_turns = 12

abbrev pub fold_to_turns : ℕ
fold_to_turns = 6

-- A row of `messages`.
pub record Message : Type 0 where
  pub id : ℕ
  pub conv_id : ℕ
  pub role : Text
  pub content : Text
  pub sent_prompt : Option Text

-- A row of `conversations`, without its time stamps.
pub record Conversation : Type 0 where
  pub id : ℕ
  pub user_id : ℕ
  pub title : Option Text
  pub summary : Option Text
  pub summary_upto_msg_id : Option ℕ
  pub memo : Text

-- The two tables, and the next ids of their sequences.
pub record ChatDb : Type 0 where
  pub conversations : List Conversation
  pub messages : List Message
  pub next_conversation : ℕ
  pub next_message : ℕ

abbrev pub is_user : Message → Bool
is_user m = m.role == codes "user"

-- The loop of `_group_turns`, from the turn `cur` on.
unfoldable pub group : List Message → List Message → List (List Message)
group [] [] = []
group (c ∷ cur) [] = (c ∷ cur) ∷ []
group [] (m ∷ ms) = group (m ∷ []) ms
group (c ∷ cur) (m ∷ ms) =
    let closed = (c ∷ cur) ∷ group (m ∷ []) ms in
    let longer = group (c ∷ (cur ++ (m ∷ []))) ms in if is_user m then closed else longer

unfoldable pub group_turns : List Message → List (List Message)
unfolding group
group_turns = group []

-- `_ROLE_LABEL.get(role, role)`
abbrev pub label : Text → Text
label role =
    if role == codes "user"
    then codes "사용자"
    else if role == codes "assistant"
    then codes "비서"
    else role

abbrev pub line_of : Message → Text
line_of m = label m.role ++ (codes ": " ++ m.content)

unfoldable pub format_turns : List (List Message) → Text
format_turns turns = join (codes "\n") (map line_of (concat turns))

unfoldable pub find_conv : ℕ → List Conversation → Option Conversation
find_conv conv_id [] = none
find_conv conv_id (c ∷ cs) = if eqb c.id conv_id then some c else find_conv conv_id cs

unfoldable pub load_conv : ChatDb → ℕ → Outcome Conversation
unfolding find_conv
load_conv db conv_id = or_raise (find_conv conv_id db.conversations)

abbrev pub is_after : Option ℕ → Message → Bool
is_after none m = true
is_after (some upto) m = ltb upto m.id

unfoldable pub unsummarized_msgs : ChatDb → ℕ → Option ℕ → List Message
unsummarized_msgs db conv_id upto = keep (λ m. eqb m.conv_id conv_id && is_after upto m) db.messages

-- `turns[:-n]` and `turns[-n:]`, for a positive `n`
abbrev pub all_but_last {ℓ} : {A : Type ℓ} → ℕ → List A → List A
all_but_last n xs = take (length xs - n) xs

abbrev pub last_few {ℓ} : {A : Type ℓ} → ℕ → List A → List A
last_few n xs = drop (length xs - n) xs

-- `folded[-1][-1]["id"]`
abbrev pub last_id : List Message → Outcome ℕ
last_id [] = raised
last_id (m ∷ ms) = let last = last_or m ms in ok last.id

-- What one run decides before it asks the LLM: nothing, or the turns to fold and the new bound.
pub record Fold : Type 0 where
  pub folded : List (List Message)
  pub upto : ℕ
  pub prompt : Text

abbrev pub or_none : Option Text → Text
or_none none = codes "(없음)"
or_none (some []) = codes "(없음)"
or_none (some (c ∷ s)) = c ∷ s

abbrev pub summary_prompt : Option Text → List (List Message) → Text
summary_prompt previous folded =
    codes "다음 [기존 요약]과 [추가 대화]를 통합해 갱신된 대화 요약을 작성하라. 전체를 나열하지 말고 핵심 사실·맥락만 간결히 누적하라.\n\n[기존 요약]\n"
    ++ (or_none previous ++ (codes "\n\n[추가 대화]\n" ++ format_turns folded))

-- The last turn of the folded ones; a turn is never empty.
abbrev pub last_turn : List (List Message) → List Message
last_turn turns = last_or [] turns

unfoldable pub plan_fold : Conversation → List Message → Outcome (Option Fold)
plan_fold conv msgs =
    let turns = group_turns msgs in
    let folded = all_but_last fold_to_turns turns in
    if leb (length turns) summary_trigger_turns || is_nil folded then ok none else (do
      upto ← last_id (last_turn folded)
      ok (
          some
            (record { folded = folded; upto = upto; prompt = summary_prompt conv.summary folded })))

abbrev pub write_summary : ℕ → Text → ℕ → List Conversation → List Conversation
write_summary conv_id summary upto = map (λ c.
    if eqb c.id conv_id
    then record c { summary = some summary; summary_upto_msg_id = some upto }
    else c)

-- The one transaction at the end.
unfoldable pub commit_summary : ChatDb → ℕ → Text → ℕ → ChatDb
commit_summary db conv_id summary upto = record db {
  conversations = write_summary conv_id summary upto db.conversations;
}

-- What the run decides, from the tables as it finds them.
unfoldable pub planned : ChatDb → ℕ → Outcome (Option Fold)
unfolding load_conv unsummarized_msgs plan_fold
planned db conv_id = do
  conv ← load_conv db conv_id
  plan_fold conv (unsummarized_msgs db conv_id conv.summary_upto_msg_id)

-- `llm prompt` is the completion, or it raises.
module _ (llm : Text → Outcome Text) where
  abbrev finish_fold : ChatDb → ℕ → Option Fold → Outcome ChatDb
  finish_fold db conv_id none = ok db
  finish_fold db conv_id (some f) = do
    new_summary ← llm f.prompt
    ok (commit_summary db conv_id new_summary f.upto)

  unfoldable pub maybe_update_summary : ChatDb → ℕ → Outcome ChatDb
  unfolding planned commit_summary
  maybe_update_summary db conv_id = do decided ← planned db conv_id; finish_fold db conv_id decided

pub record AnswerContext : Type 0 where
  pub summary : Option Text
  pub recent : Text

unfoldable pub build_answer_context : ChatDb → ℕ → Outcome AnswerContext
unfolding load_conv unsummarized_msgs format_turns
build_answer_context db conv_id = do
  conv ← load_conv db conv_id
  let msgs = unsummarized_msgs db conv_id conv.summary_upto_msg_id
  ok (record {
    summary = conv.summary;
    recent = format_turns (last_few recent_turns (group_turns msgs));
  })

-- `bool(summary)`
abbrev pub has_text : Option Text → Bool
has_text none = false
has_text (some s) = not (is_nil s)

abbrev summary_part : Option Text → List Text
summary_part none = []
summary_part (some s) = if is_nil s then [] else (codes "[요약]\n" ++ s) ∷ []

abbrev turns_part : List (List Message) → List Text
turns_part turns =
    if is_nil turns then [] else (codes "[직전 대화]\n" ++ format_turns (last_few 2 turns)) ∷ []

unfoldable pub build_rewrite_input : ChatDb → ℕ → Text → Outcome (Option Text)
unfolding load_conv unsummarized_msgs format_turns
build_rewrite_input db conv_id question = do
  conv ← load_conv db conv_id
  let turns = group_turns (unsummarized_msgs db conv_id conv.summary_upto_msg_id)
  if is_nil turns && not (has_text conv.summary)
      then ok none
      else ok (
          some (
            join (codes "\n\n") (
              summary_part conv.summary
              ++ (turns_part turns ++ ((codes "[질문]\n" ++ question) ∷ [])))))

-- ===== src/Tests/Conversations.antt =====
-- The theorems on conversations and on the answers of the LLM at concrete inputs.
use vegapunk_web.Base.{
  ℕ, ◌<◌, Bool, true, none, some, List, [], ◌∷◌, ◌++◌, concat, All, ◌≡◌, refl, arith, list_beq, map,
  ltb, ltb→lt, ◌&&◌, &&-true,
}
use vegapunk_web.Text.{Text, codes, join}
use vegapunk_web.Json.{raised}
use vegapunk_web.Memory.{
  Message, Conversation, ChatDb, Fold, group, group_turns, format_turns, find_conv, load_conv,
  unsummarized_msgs, plan_fold, planned, maybe_update_summary,
}
use vegapunk_web.Memory.Turns.{IsTurn, LaterStart, group_turns-IsPartition}
use vegapunk_web.Memory.Folding.{IsIncreasing, FoldsIf, maybe_update_summary-FoldsIf}
use vegapunk_web.Memory.Window.{LeavesOut, context-LeavesOut}
use vegapunk_web.Json.{ok}
use vegapunk_web.Distill.{
  extract_json_array, array_text, scan, scan_char, scan_in_str, scan_outside, escaped,
  find_array_start, find_start, opens_array,
}
use vegapunk_web.Distill.Scanning.{extract_json_array-surrounded}
use vegapunk_web.Distill.Repaired.{
  Token, outside, quoted, plain, newline, written, raw_marks, json_marks, array_text-written,
}
use vegapunk_web.Tests.StackCodec.{stack_codec}

abbrev asked : ℕ → Message
asked i = record {
  id = i;
  conv_id = 1;
  role = codes "user";
  content = codes "q";
  sent_prompt = none;
}

abbrev answered : ℕ → Message
answered i = record {
  id = i;
  conv_id = 1;
  role = codes "assistant";
  content = codes "a";
  sent_prompt = none;
}

abbrev conversation : Conversation
conversation = record {
  id = 1;
  user_id = 7;
  title = none;
  summary = none;
  summary_upto_msg_id = none;
  memo = [];
}

abbrev with_messages : List Message → ChatDb
with_messages ms = record {
  conversations = conversation ∷ [];
  messages = ms;
  next_conversation = 2;
  next_message = 99;
}

abbrev seven : List Message
seven = asked 1 ∷ asked 2 ∷ asked 3 ∷ asked 4 ∷ asked 5 ∷ asked 6 ∷ asked 7 ∷ []

abbrev thirteen : List Message
thirteen =
    seven ++ (asked 8 ∷ asked 9 ∷ asked 10 ∷ asked 11 ∷ asked 12 ∷ asked 13 ∷ answered 14 ∷ [])

group_turns-IsPartition_example :
    (concat (group_turns thirteen) ≡ thirteen)
    × All IsTurn (group_turns thirteen)
    × LaterStart (group_turns thirteen)
group_turns-IsPartition_example = group_turns-IsPartition thirteen

-- The ids of neighbours are enough.
IsIncreasing-cons :
    (m n : Message) (ms : List Message)
    → m.id < n.id
    → IsIncreasing (n ∷ ms)
    → IsIncreasing (m ∷ n ∷ ms)
IsIncreasing-cons m n ms h k = ((h, above ms k.0), k)
  where
    above : (xs : List Message) → All (λ x. n.id < x.id) xs → All (λ x. m.id < x.id) xs
    above [] a = tt
    above (x ∷ xs) a = (omega (arith, h, a.0), above xs a.1)

-- Whether every id is less than the next one.
ascending : List Message → Bool
ascending [] = true
ascending (m ∷ []) = true
ascending (m ∷ n ∷ ms) = ltb m.id n.id && ascending (n ∷ ms)

ascending-IsIncreasing : (ms : List Message) → ascending ms ≡ true → IsIncreasing ms
unfolding ascending
ascending-IsIncreasing [] h = tt
ascending-IsIncreasing (m ∷ []) h = (tt, tt)
ascending-IsIncreasing (m ∷ n ∷ ms) h =
    let (lt, rest) = &&-true (ltb m.id n.id) (ascending (n ∷ ms)) h in
    IsIncreasing-cons m n ms (ltb→lt m.id n.id lt) (ascending-IsIncreasing (n ∷ ms) rest)

thirteen-IsIncreasing : IsIncreasing thirteen
unfolding ascending
thirteen-IsIncreasing = ascending-IsIncreasing thirteen refl

-- What the thirteen turns are folded to.
abbrev first_seven : Fold
first_seven = record {
  folded = map (λ m. m ∷ []) seven;
  upto = 7;
  prompt =
      codes
        "다음 [기존 요약]과 [추가 대화]를 통합해 갱신된 대화 요약을 작성하라. 전체를 나열하지 말고 핵심 사실·맥락만 간결히 누적하라.\n\n[기존 요약]\n(없음)\n\n[추가 대화]\n사용자: q\n사용자: q\n사용자: q\n사용자: q\n사용자: q\n사용자: q\n사용자: q";
}

maybe_update_summary-FoldsIf_example :
    FoldsIf
      (with_messages thirteen)
      1
      first_seven
      (ok (codes "s"))
      (maybe_update_summary (λ prompt. ok (codes "s")) (with_messages thirteen) 1)
unfolding planned load_conv find_conv unsummarized_msgs plan_fold group_turns group format_turns
    join list_beq
maybe_update_summary-FoldsIf_example =
    maybe_update_summary-FoldsIf (λ prompt. ok (codes "s")) (with_messages thirteen) 1 first_seven
      thirteen-IsIncreasing refl

context-LeavesOut_example : LeavesOut (λ prompt. raised) (with_messages seven) 1 conversation
unfolding load_conv find_conv unsummarized_msgs group_turns group list_beq
context-LeavesOut_example =
    context-LeavesOut (λ prompt. raised) (with_messages seven) 1 conversation refl (omega arith)
      (omega arith)

-- A list of one object, with a bracket and a raw newline in its string.
abbrev array : Text
array = codes "[{\"a\": \"]\n\"}]"

abbrev escaped_array : Text
escaped_array = codes "[{\"a\": \"]\\n\"}]"

array_text_of_array : array_text array ≡ some escaped_array
unfolding array_text find_array_start find_start opens_array scan scan_char scan_in_str scan_outside
    escaped
array_text_of_array = refl

extract_json_array-surrounded_example :
    extract_json_array stack_codec (codes "ok: " ++ (array ++ codes " ]"))
    ≡ extract_json_array stack_codec array
extract_json_array-surrounded_example =
    extract_json_array-surrounded stack_codec (codes "ok: ") array (codes " ]") escaped_array
      (refl, (refl, (refl, (refl, tt)))) array_text_of_array

-- `[{"a": "]` and a raw line break, then `"}]`, as tokens.
abbrev tokens : List Token
tokens =
    outside b'{'
    ∷ quoted (plain b'a' ∷ [])
    ∷ outside b':'
    ∷ quoted (plain b']' ∷ newline ∷ [])
    ∷ outside b'}'
    ∷ []

array_text-written_example :
    array_text (codes "so: " ++ ((b'[' ∷ written raw_marks tokens []) ++ codes " [1]"))
    ≡ some (b'[' ∷ written json_marks tokens [])
unfolding opens_array
array_text-written_example =
    array_text-written (codes "so: ") (codes " [1]") tokens (refl, (refl, (refl, (refl, tt))))
      (
        (refl, refl, refl),
        (
          ((refl, refl, refl, refl, refl), tt),
          (
            (refl, refl, refl),
            (((refl, refl, refl, refl, refl), (tt, tt)), ((refl, refl, refl), tt)),
          ),
        ),
      )
      refl refl

-- ===== src/Memory/Window.antt =====
-- The context of an answer, build_answer_context of app/memory.py, against the summary.
use vegapunk_web.Base.{
  ℕ, ◌-◌, ◌≤◌, ◌<◌, List, ◌++◌, length, take, le→leb, ◌≡◌, sym, arith, length-take,
  take-append-drop, length-drop,
}
use vegapunk_web.Text.{Text}
use vegapunk_web.Json.{Outcome, ok}
use vegapunk_web.Memory.{
  Message, Conversation, ChatDb, group_turns, last_few, recent_turns, summary_trigger_turns,
  format_turns, load_conv, unsummarized_msgs, plan_fold, planned, maybe_update_summary,
  build_answer_context,
}

-- The turns of the window that no one sees: behind the summary, and before the recent turns.
pub record LeavesOut (llm : Text → Outcome Text) (db : ChatDb) (conv_id : ℕ) (conv : Conversation)
    : Type 0 where
  pub missed : List (List Message)
  pub recent : List (List Message)
  pub splits :
      group_turns (unsummarized_msgs db conv_id conv.summary_upto_msg_id) ≡ missed ++ recent
  pub some_missed : 0 < length missed
  pub six_recent : length recent ≡ 6
  pub not_summarised : maybe_update_summary llm db conv_id ≡ ok db
  pub context_is :
      build_answer_context db conv_id
      ≡ ok (record { summary = conv.summary; recent = format_turns recent })

-- Between 7 and 12 turns behind the bound the summary is not brought up to date, and the context of
-- an answer is the old summary and the last six turns: the turns before those are in neither.
pub context-LeavesOut :
    (llm : Text → Outcome Text) (db : ChatDb) (conv_id : ℕ) (conv : Conversation)
    → load_conv db conv_id ≡ ok conv
    → recent_turns < length (group_turns (unsummarized_msgs db conv_id conv.summary_upto_msg_id))
    → length (group_turns (unsummarized_msgs db conv_id conv.summary_upto_msg_id))
      ≤ summary_trigger_turns
    → LeavesOut llm db conv_id conv
unfolding maybe_update_summary build_answer_context planned plan_fold
context-LeavesOut llm db conv_id conv e many few =
    let turns = group_turns (unsummarized_msgs db conv_id conv.summary_upto_msg_id) in
    record {
      missed = take (length turns - 6) turns;
      recent = last_few recent_turns turns;
      splits = sym (take-append-drop (length turns - 6) turns);
      some_missed = omega (arith, length-take (length turns - 6) turns);
      six_recent = omega (arith, length-drop (length turns - 6) turns);
      not_summarised = rw e (rw (le→leb (length turns) 12 few));
      context_is = rw e;
    }

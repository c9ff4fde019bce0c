-- ===== src/Stream.antt =====
-- The stream of an answer, and the title of a conversation: chat, _chat_stream and
-- retitle_conversation of app/routes/chat.py. The stream is a program that emits events, changes the
-- tables and may raise. The LLM, the search and the cleaning of a title are parameters. A client that
-- goes away in the middle is not modelled.
pub mod Preparing
pub mod Answering
pub mod Traces
use vegapunk_web.Base.{
  ℕ, suc, Bool, true, false, Option, none, some, List, [], ◌∷◌, ◌++◌, map, is_nil, eqb, keep, take,
  if◌then◌else◌,
}
use vegapunk_web.Text.{Text, codes, join, strip}
use vegapunk_web.Json.{Outcome, ok, raised}
use vegapunk_web.Search.{Floats, SearchHit}
use vegapunk_web.Memory.{
  Message, Conversation, ChatDb, AnswerContext, build_rewrite_input, build_answer_context,
}
use vegapunk_web.Chat.{
  Source, Cited, dedupe_sources, assemble_answer_prompt, citations_of, insert_message,
  own_conversation,
}

abbrev pub rewrite_instruction : Text
rewrite_instruction = codes "다음 맥락을 참고해, 마지막 질문을 지식베이스 검색에 적합한 독립적인 한 줄 검색어로 바꿔라. 검색어만 출력하라.\n\n"

abbrev pub title_instruction : Text
title_instruction = codes "다음 첫 대화에 어울리는 짧은 제목(10자 내외)을 한 줄로만 출력하라.\n\n"

abbrev pub retitle_instruction : Text
retitle_instruction = codes "다음 대화에 어울리는 짧은 제목(10자 내외)을 한 줄로만 출력하라.\n\n"

pub data Tier : Type 0 where
  low default : Tier

module _ (F : Floats) where
  pub data Event : Type 0 where
    conversation : ℕ → Text → Event
    sources : List (Source F) → Event
    answer : Text → Text → Event
    title : ℕ → Text → Event
    done : Event
    error : Event

  pub record World : Type 0 where
    pub db : ChatDb
    pub cited : List (Cited F)

  -- What a part of the generator emits, leaves and returns or raises.
  abbrev pub Stream : Type 0 → Type 0
  Stream A = World → List Event × World × Outcome A

  abbrev pub after :
      {A B : Type 0}
      → (A → Stream B)
      → List Event × World × Outcome A
      → List Event × World × Outcome B
  after f (es, w, raised) = (es, w, raised)
  after f (es, w, ok a) = let (fs, w', r) = f a w in (es ++ fs, w', r)

  infixl 5 ◌>>=◌
  abbrev pub ◌>>=◌ : {A B : Type 0} → Stream A → (A → Stream B) → Stream B
  (m >>= f) w = after f (m w)

  abbrev pub pure : {A : Type 0} → A → Stream A
  pure a w = ([], w, ok a)

  abbrev pub emit : Event → Stream Unit
  emit e w = (e ∷ [], w, ok tt)

  abbrev pub lift : {A : Type 0} → Outcome A → Stream A
  lift o w = ([], w, o)

  abbrev pub read : {A : Type 0} → (ChatDb → Outcome A) → Stream A
  read f w = ([], w, f w.db)

  -- `_insert_message`
  abbrev pub insert : ℕ → Text → Text → Option Text → Stream ℕ
  insert conv_id role content sent_prompt w =
      let (i, db') = insert_message conv_id role content sent_prompt w.db in
      ([], record w { db = db' }, ok i)

  -- `_save_citations`
  abbrev pub cite : ℕ → List (SearchHit F) → Stream Unit
  cite message_id hits w =
      ([], record w { cited = w.cited ++ citations_of F message_id [] hits }, ok tt)

  -- `UPDATE conversations SET title = %s WHERE id = %s`
  abbrev pub set_title : ℕ → Text → Stream Unit
  set_title conv_id t w = (
    [],
    record w {
      db = record w.db {
        conversations =
            map (λ (c : Conversation). if eqb c.id conv_id then record c { title = some t } else c)
              w.db.conversations;
      };
    },
    ok tt,
  )

  -- `try: ... except Exception: pass`
  abbrev pub attempt : Stream Unit → Stream Unit
  attempt m w = let (es, w', r) = m w in (es, w', ok tt)

  abbrev pub or_empty : Option Text → Text
  or_empty none = []
  or_empty (some t) = t

  -- `rq.strip() or q`
  abbrev pub query_or : Text → Text → Text
  query_or [] q = q
  query_or (c ∷ s) q = c ∷ s

  module _ (llm : Tier → Text → Outcome Text) (search : Text → Outcome (List (SearchHit F)))
      (clean : Text → Text) where
    abbrev pub announce : Bool → ℕ → Option Text → Stream Unit
    announce true conv_id t = emit (conversation conv_id (or_empty t))
    announce false conv_id t = pure tt

    abbrev pub rewritten : Text → Option Text → Stream Text
    rewritten q none = pure q
    rewritten q (some input) = do
      rq ← lift (llm low (rewrite_instruction ++ input))
      pure (query_or (strip rq) q)

    abbrev pub save_answer : ℕ → Text → List (SearchHit F) → Text → Stream Text
    save_answer conv_id prompt hits text = do
      message_id ← insert conv_id (codes "assistant") text (some prompt)
      saved ← cite message_id hits
      pure text

    -- `_generate_and_save`
    unfoldable pub generate_and_save : ℕ → Text → List (SearchHit F) → Stream Text
    generate_and_save conv_id prompt hits = do
      text ← lift (llm default prompt)
      save_answer conv_id prompt hits text

    abbrev pub named : ℕ → Text → Stream Unit
    named conv_id [] = pure tt
    named conv_id (c ∷ t) = do set ← set_title conv_id (c ∷ t); emit (title conv_id (c ∷ t))

    abbrev pub ask_title : ℕ → Text → Text → Stream Unit
    ask_title conv_id q text = do
      t ← lift (llm low (title_instruction ++ (codes "사용자: " ++ (q ++ (codes "\n비서: " ++ text)))))
      named conv_id (clean t)

    abbrev pub auto_title : Bool → ℕ → Text → Text → Stream Unit
    auto_title true conv_id q text = attempt (ask_title conv_id q text)
    auto_title false conv_id q text = pure tt

    -- What stands in the outer `try`: up to the prompt, and from there on.
    abbrev pub with_hits : ℕ → Text → List (SearchHit F) → Stream (Text × List (SearchHit F))
    with_hits conv_id q hits = do
      shown ← emit (sources (dedupe_sources F hits))
      ctx ← read (λ db. build_answer_context db conv_id)
      pure (assemble_answer_prompt F ctx hits q, hits)

    abbrev pub with_query : ℕ → Text → Text → Stream (Text × List (SearchHit F))
    with_query conv_id q query = do hits ← lift (search query); with_hits conv_id q hits

    abbrev pub with_input : ℕ → Text → Option Text → Stream (Text × List (SearchHit F))
    with_input conv_id q input = do query ← rewritten q input; with_query conv_id q query

    abbrev pub announced : ℕ → Text → Stream (Text × List (SearchHit F))
    announced conv_id q = do
      input ← read (λ db. build_rewrite_input db conv_id q)
      with_input conv_id q input

    unfoldable pub prepare : ℕ → Text → Bool → Option Text → Stream (Text × List (SearchHit F))
    prepare conv_id q new_conv t = do said ← announce new_conv conv_id t; announced conv_id q

    abbrev pub show_answer : ℕ → Text → Bool → Text → Text → Stream Unit
    show_answer conv_id q new_conv prompt text = do
      shown ← emit (answer text prompt)
      titled ← auto_title new_conv conv_id q text
      emit done

    unfoldable pub respond : ℕ → Text → Bool → Text × List (SearchHit F) → Stream Unit
    unfolding generate_and_save
    respond conv_id q new_conv (prompt, hits) = do
      asked ← insert conv_id (codes "user") q none
      text ← generate_and_save conv_id prompt hits
      show_answer conv_id q new_conv prompt text

    abbrev pub close : List Event × World × Outcome (Unit {0}) → List Event × World
    close (es, w, ok a) = (es, w)
    close (es, w, raised) = (es ++ (error ∷ []), w)

    unfoldable pub chat_stream : ℕ → Text → Bool → Option Text → World → List Event × World
    unfolding prepare respond
    chat_stream conv_id q new_conv t w =
        close ((do prepared ← prepare conv_id q new_conv t; respond conv_id q new_conv prepared) w)

  -- `INSERT INTO conversations (user_id) VALUES (%s) RETURNING id, title`
  abbrev pub new_conversation : ℕ → ChatDb → ChatDb
  new_conversation user_id db = record db {
    conversations =
        db.conversations
        ++ (record {
          id = db.next_conversation;
          user_id = user_id;
          title = none;
          summary = none;
          summary_upto_msg_id = none;
          memo = [];
        }
            ∷ []);
    next_conversation = suc db.next_conversation;
  }

  abbrev pub owned_or_404 : ℕ → Option Conversation → World → Option (ℕ × Bool × World)
  owned_or_404 conv none w = none
  owned_or_404 conv (some c) w = some (conv, false, w)

  -- What `chat` decides before it streams: the conversation, whether it is new, and the tables; `none`
  -- is the answer 404.
  unfoldable pub open_chat : ℕ → ℕ → World → Option (ℕ × Bool × World)
  unfolding own_conversation
  open_chat user_id conv w =
      if eqb conv 0
      then some (w.db.next_conversation, true, record w { db = new_conversation user_id w.db })
      else owned_or_404 conv (own_conversation conv user_id w.db.conversations) w

module _ (llm : Tier → Text → Outcome Text) (clean : Text → Text) where
  -- `retitle_conversation`: the answer, `none` for `{"error": "not found"}`, and the tables; an empty
  -- title is not written.
  abbrev pub retitled : ℕ → Text → ChatDb → Text × ChatDb
  retitled conv_id [] db = ([], db)
  retitled conv_id (c ∷ t) db = (
    c ∷ t,
    record db {
      conversations =
          map
            (λ (x : Conversation).
              if eqb x.id conv_id then record x { title = some (c ∷ t) } else x)
            db.conversations;
    },
  )

  abbrev pub on_ok : {A B : Type 0} → (A → Outcome B) → Outcome A → Outcome B
  on_ok f raised = raised
  on_ok f (ok a) = f a

  abbrev pub retitle_own : ℕ → Option Conversation → ChatDb → Option (Outcome (Text × ChatDb))
  retitle_own conv_id none db = none
  retitle_own conv_id (some x) db = some (
      on_ok (λ raw. ok (retitled conv_id (clean raw) db))
        (llm low (
          retitle_instruction
          ++ join (codes "\n") (
              map (λ (m : Message). m.role ++ (codes ": " ++ m.content))
                (take 6 (keep (λ (m : Message). eqb m.conv_id conv_id) db.messages))))))

  unfoldable pub retitle_conversation : ℕ → ℕ → ChatDb → Option (Outcome (Text × ChatDb))
  unfolding own_conversation join
  retitle_conversation user_id conv_id db =
      retitle_own conv_id (own_conversation conv_id user_id db.conversations) db

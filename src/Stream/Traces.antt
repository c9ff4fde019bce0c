-- ===== src/Stream/Traces.antt =====
-- The events of _chat_stream of app/routes/chat.py, and the messages that it leaves.
use vegapunk_web.Base.{
  ℕ, Bool, Option, List, [], ◌∷◌, ◌++◌, All, In, ◌≡◌, refl, ap, sym, subst, ◌∙◌, append-nil,
}
use vegapunk_web.Text.{Text}
use vegapunk_web.Json.{Outcome, ok, raised}
use vegapunk_web.Search.{Floats, SearchHit}
use vegapunk_web.Memory.{AnswerContext, build_answer_context}
use vegapunk_web.Chat.{dedupe_sources, assemble_answer_prompt}
use vegapunk_web.Stream.{
  Tier, default, Event, sources, answer, done, error, World, after, prepare, respond, chat_stream,
  close,
}
use vegapunk_web.Stream.Preparing.{Failed, IsEarly, Prepared, prepare-Prepared}
use vegapunk_web.Stream.Answering.{IsTitled, question_row, answer_row, Responded, respond-Responded}

module _ (F : Floats) where
  module _ (llm : Tier → Text → Outcome Text) (search : Text → Outcome (List (SearchHit F)))
      (clean : Text → Text) (conv_id : ℕ) (q : Text) (w : World F) where
    -- How a stream may go, from the tables `w` to the tables `w'`.
    pub data IsTrace (es : List (Event F)) (w' : World F) : Type 0 where
      -- It fails before the question is saved: nothing changes.
      unprepared :
          (early : List (Event F))
          → All (IsEarly F) early
          → es ≡ early ++ (error ∷ [])
          → w' ≡ w
          → Failed F llm search clean conv_id q w
          → IsTrace es w'
      -- It fails while the answer is generated: the question is saved.
      unanswered :
          (early : List (Event F)) (hits : List (SearchHit F)) (query : Text) (ctx : AnswerContext)
          → All (IsEarly F) early
          → es ≡ early ++ (error ∷ [])
          → w'.db.messages ≡ w.db.messages ++ (question_row F conv_id q w.db ∷ [])
          → search query ≡ ok hits
          → build_answer_context w.db conv_id ≡ ok ctx
          → llm default (assemble_answer_prompt F ctx hits q) ≡ raised
          → IsTrace es w'
      -- It succeeds: the sources come before the answer, and the question and the answer are saved.
      finished :
          (early titled : List (Event F)) (hits : List (SearchHit F)) (query : Text)
          (ctx : AnswerContext) (text : Text)
          → All (IsEarly F) early
          → search query ≡ ok hits
          → In (sources (dedupe_sources F hits)) early
          → build_answer_context w.db conv_id ≡ ok ctx
          → llm default (assemble_answer_prompt F ctx hits q) ≡ ok text
          → All (IsTitled F) titled
          → es
            ≡ early ++ (answer text (assemble_answer_prompt F ctx hits q) ∷ (titled ++ (done ∷ [])))
          → w'.db.messages
            ≡ w.db.messages
              ++ (question_row F conv_id q w.db
                  ∷ answer_row F conv_id text (assemble_answer_prompt F ctx hits q) w.db
                  ∷ [])
          → IsTrace es w'

    close-IsTrace :
        (early : List (Event F)) (hits : List (SearchHit F)) (query prompt : Text)
        (ctx : AnswerContext) (r : List (Event F) × World F × Outcome (Unit {0}))
        → All (IsEarly F) early
        → In (sources (dedupe_sources F hits)) early
        → search query ≡ ok hits
        → build_answer_context w.db conv_id ≡ ok ctx
        → prompt ≡ assemble_answer_prompt F ctx hits q
        → Responded F llm search clean conv_id q w prompt r
        → IsTrace
            (close F llm search clean (early ++ r.0, r.1, r.2)).0
            (close F llm search clean (early ++ r.0, r.1, r.2)).1
    close-IsTrace early hits query prompt ctx (es, v, raised) a i s c p (e, m, l) =
        unanswered early hits query ctx a
          (ap (λ fs. (early ++ fs) ++ (error ∷ [])) e
            ∙ ap (λ fs. fs ++ (error ∷ [])) (append-nil early))
          m s c (subst (λ t. llm default t ≡ raised) p l)
    close-IsTrace early hits query prompt ctx (es, v, ok u) a i s c p (text, titled, b, e, m, l) =
        finished early titled hits query ctx text a s i c (subst (λ t. llm default t ≡ ok text) p l)
          b
          (ap (λ fs. early ++ fs) e
            ∙ ap (λ p. early ++ (answer text p ∷ (titled ++ (done ∷ [])))) p)
          (m
            ∙ ap
                (λ p.
                  w.db.messages
                  ++ (question_row F conv_id q w.db ∷ answer_row F conv_id text p w.db ∷ []))
                p)

    Prepared-IsTrace :
        (new_conv : Bool) (r : List (Event F) × World F × Outcome (Text × List (SearchHit F)))
        → Prepared F llm search clean conv_id q w r
        → IsTrace
            (close F llm search clean (after F (respond F llm search clean conv_id q new_conv) r)).0
            (close F llm search clean (after F (respond F llm search clean conv_id q new_conv) r)).1
    Prepared-IsTrace new_conv (es, w', raised) (a, e, f) = unprepared es a refl e f
    Prepared-IsTrace new_conv (es, w', ok (prompt, hits)) (a, e, i, query, s, ctx, c, p) =
        subst
          (λ v.
            IsTrace
              (close F llm search clean (
                after F (respond F llm search clean conv_id q new_conv)
                  (es, v, ok (prompt, hits)))).0
              (close F llm search clean (
                after F (respond F llm search clean conv_id q new_conv)
                  (es, v, ok (prompt, hits)))).1)
          (sym e)
          (close-IsTrace es hits query prompt ctx
            (respond F llm search clean conv_id q new_conv (prompt, hits) w) a i s c p
            (respond-Responded F llm search clean conv_id q w new_conv hits prompt))

    -- Whatever the LLM, the search and the cleaning of a title do, the stream ends: before the question
    -- is saved, with an error and the tables as they were, if the contexts, the rewriting or the search
    -- fail; with an error and the question alone saved, if the LLM fails on the prompt; or, if the LLM
    -- answers it, with `done`, after the sources of the hits, the
    -- answer with the prompt it was asked with, and titles only between the answer and `done`, and then
    -- the question and the answer are the messages that were added.
    pub chat_stream-IsTrace :
        (new_conv : Bool) (t : Option Text)
        → IsTrace
            (chat_stream F llm search clean conv_id q new_conv t w).0
            (chat_stream F llm search clean conv_id q new_conv t w).1
    unfolding chat_stream
    chat_stream-IsTrace new_conv t =
        Prepared-IsTrace new_conv (prepare F llm search clean conv_id q new_conv t w)
          (prepare-Prepared F llm search clean conv_id q w new_conv t)

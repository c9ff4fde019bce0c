-- ===== src/Stream/Answering.antt =====
-- The second part of _chat_stream of app/routes/chat.py, from the question on.
use vegapunk_web.Base.{
  ℕ, suc, Bool, true, false, none, some, List, [], ◌∷◌, ◌++◌, All, ◌≡◌, refl, ◌∙◌, append_assoc,
}
use vegapunk_web.Text.{Text, codes}
use vegapunk_web.Json.{Outcome, ok, raised}
use vegapunk_web.Search.{Floats, SearchHit}
use vegapunk_web.Memory.{Message, ChatDb}
use vegapunk_web.Chat.{insert_message}
use vegapunk_web.Stream.{
  Tier, show_answer, save_answer, insert, cite, default, emit, lift, ◌>>=◌, Event, answer, title,
  done, World, Stream, after, generate_and_save, respond, named, auto_title, attempt,
}

module _ (F : Floats) where
  abbrev pub IsTitled : Event F → Type 0
  IsTitled (title i t) = Unit
  IsTitled _ = ⊥

  -- The rows that a question and its answer add.
  abbrev pub question_row : ℕ → Text → ChatDb → Message
  question_row conv_id q db = record {
    id = db.next_message;
    conv_id = conv_id;
    role = codes "user";
    content = q;
    sent_prompt = none;
  }

  abbrev pub answer_row : ℕ → Text → Text → ChatDb → Message
  answer_row conv_id text prompt db = record {
    id = suc db.next_message;
    conv_id = conv_id;
    role = codes "assistant";
    content = text;
    sent_prompt = some prompt;
  }

  module _ (llm : Tier → Text → Outcome Text) (search : Text → Outcome (List (SearchHit F)))
      (clean : Text → Text) (conv_id : ℕ) (q : Text) (w : World F) where
    -- What the title adds: title events, and no change of the messages.
    abbrev Titles : List (Event F) × World F × Outcome (Unit {0}) → List Message → Type 0
    Titles (es, v, o) ms = All IsTitled es × (v.db.messages ≡ ms)

    attempt-ok : (m : Stream F (Unit {0})) (v : World F) → (attempt F m v).2 ≡ ok tt
    attempt-ok m v = refl

    named-Titles :
        (t : Text) (v : World F) → Titles (named F llm search clean conv_id t v) (v.db.messages)
    named-Titles [] v = (tt, refl)
    named-Titles (c ∷ t) v = ((tt, tt), refl)

    ask_title-Titles :
        (o : Outcome Text) (v : World F)
        → Titles
            (attempt F (◌>>=◌ F (lift F o) (λ t. named F llm search clean conv_id (clean t))) v)
            (v.db.messages)
    ask_title-Titles raised v = (tt, refl)
    ask_title-Titles (ok t) v = named-Titles (clean t) v

    auto_title-Titles :
        (new_conv : Bool) (text : Text) (v : World F)
        → Titles (auto_title F llm search clean new_conv conv_id q text v) (v.db.messages)
    auto_title-Titles true text v = ask_title-Titles _ v
    auto_title-Titles false text v = (tt, refl)

    auto_title-ok :
        (new_conv : Bool) (text : Text) (v : World F)
        → (auto_title F llm search clean new_conv conv_id q text v).2 ≡ ok tt
    auto_title-ok true text v = refl
    auto_title-ok false text v = refl

    abbrev pub Responded : Text → List (Event F) × World F × Outcome (Unit {0}) → Type 0
    Responded prompt (es, v, raised) =
        (es ≡ [])
        × (v.db.messages ≡ w.db.messages ++ (question_row conv_id q w.db ∷ []))
        × (llm default prompt ≡ raised)
    Responded prompt (es, v, ok a) =
        (text : Text) × (titled : List (Event F)) × All IsTitled titled
        × (es ≡ answer text prompt ∷ (titled ++ (done ∷ [])))
        × (v.db.messages
            ≡ w.db.messages
              ++ (question_row conv_id q w.db ∷ answer_row conv_id text prompt w.db ∷ []))
        × (llm default prompt ≡ ok text)

    titled-Responded :
        (prompt text : Text) (r : List (Event F) × World F × Outcome (Unit {0}))
        → llm default prompt ≡ ok text
        → r.2 ≡ ok tt
        → Titles r (
            w.db.messages
            ++ (question_row conv_id q w.db ∷ answer_row conv_id text prompt w.db ∷ []))
        → Responded prompt (
            after F
              (λ shown v. after F (λ titled. emit F done) r)
              (answer text prompt ∷ [], w, ok tt))
    titled-Responded prompt text (es, v, raised) l e (a, m) = cc
    titled-Responded prompt text (es, v, ok u) l e (a, m) = (text, es, a, refl, m, l)

    -- The tables after the question and after the answer.
    abbrev asked : World F
    asked = (insert F conv_id (codes "user") q none w).1

    abbrev saved : Text → Text → List (SearchHit F) → World F
    saved prompt text hits =
        (cite F (suc w.db.next_message) hits
          ((insert F conv_id (codes "assistant") text (some prompt) asked).1)).1

    saved-messages :
        (prompt text : Text) (hits : List (SearchHit F))
        → (saved prompt text hits).db.messages
          ≡ w.db.messages
            ++ (question_row conv_id q w.db ∷ answer_row conv_id text prompt w.db ∷ [])
    unfolding insert_message
    saved-messages prompt text hits = append_assoc w.db.messages _ _

    answered-Responded :
        (new_conv : Bool) (hits : List (SearchHit F)) (prompt : Text) (o : Outcome Text)
        → llm default prompt ≡ o
        → Responded prompt (
            after F
              (show_answer F llm search clean conv_id q new_conv prompt)
              (after F (save_answer F llm search clean conv_id prompt hits) ([], asked, o)))
    unfolding insert_message
    answered-Responded new_conv hits prompt raised l = (refl, refl, l)
    answered-Responded new_conv hits prompt (ok text) l =
        titled-Responded prompt text
          (auto_title F llm search clean new_conv conv_id q text (saved prompt text hits)) l
          (auto_title-ok new_conv text _)
          (let (a, m) = auto_title-Titles new_conv text (saved prompt text hits) in
            (a, m ∙ saved-messages prompt text hits))

    pub respond-Responded :
        (new_conv : Bool) (hits : List (SearchHit F)) (prompt : Text)
        → Responded prompt (respond F llm search clean conv_id q new_conv (prompt, hits) w)
    unfolding respond generate_and_save insert_message
    respond-Responded new_conv hits prompt =
        answered-Responded new_conv hits prompt (llm default prompt) refl

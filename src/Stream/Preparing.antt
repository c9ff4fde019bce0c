-- ===== src/Stream/Preparing.antt =====
-- The first part of _chat_stream of app/routes/chat.py, up to the prompt.
use vegapunk_web.Base.{
  ℕ, Bool, true, false, Option, none, some, List, [], ◌++◌, All, All-append, In, In-append_right,
  ◌≡◌, refl, sym, subst, inl,
}
use vegapunk_web.Text.{Text, strip}
use vegapunk_web.Json.{Outcome, ok, raised}
use vegapunk_web.Search.{Floats, SearchHit}
use vegapunk_web.Memory.{AnswerContext, build_rewrite_input, build_answer_context}
use vegapunk_web.Chat.{dedupe_sources, assemble_answer_prompt}
use vegapunk_web.Stream.{
  Tier, query_or, with_hits, with_query, with_input, announced, low, emit, lift, pure, ◌>>=◌, Event,
  conversation, sources, World, Stream, after, rewritten, announce, prepare, rewrite_instruction,
}

module _ (F : Floats) where
  abbrev pub IsEarly : Event F → Type 0
  IsEarly (conversation i t) = Unit
  IsEarly (sources s) = Unit
  IsEarly _ = ⊥

  module _ (llm : Tier → Text → Outcome Text) (search : Text → Outcome (List (SearchHit F)))
      (clean : Text → Text) (conv_id : ℕ) (q : Text) (w : World F) where
    -- What may fail before there is a prompt.
    pub data Failed : Type 0 where
      no_input : build_rewrite_input w.db conv_id q ≡ raised → Failed
      no_query : (prompt : Text) → llm low prompt ≡ raised → Failed
      no_hits : (query : Text) → search query ≡ raised → Failed
      no_context : build_answer_context w.db conv_id ≡ raised → Failed

    abbrev pub Prepared : List (Event F) × World F × Outcome (Text × List (SearchHit F)) → Type 0
    Prepared (es, w', raised) = All IsEarly es × (w' ≡ w) × Failed
    Prepared (es, w', ok (prompt, hits)) =
        All IsEarly es
        × (w' ≡ w)
        × In (sources (dedupe_sources F hits)) es
        × (query : Text) × (search query ≡ ok hits)
        × (ctx : AnswerContext) × (build_answer_context w.db conv_id ≡ ok ctx)
        × (prompt ≡ assemble_answer_prompt F ctx hits q)

    -- Early events in front change nothing.
    Prepared-more :
        (es : List (Event F)) (r : List (Event F) × World F × Outcome (Text × List (SearchHit F)))
        → All IsEarly es
        → Prepared r
        → Prepared (es ++ r.0, r.1, r.2)
    Prepared-more es (fs, w', raised) h (k, e, f) = (All-append IsEarly es fs h k, e, f)
    Prepared-more es (fs, w', ok (prompt, hits)) h (k, e, i, query, s, ctx, c, p) =
        (All-append IsEarly es fs h k, e, In-append_right _ es fs i, query, s, ctx, c, p)

    -- So does a step that emits early events and leaves the tables.
    Prepared-after :
        {A : Type 0} (f : A → Stream F (Text × List (SearchHit F)))
        (r : List (Event F) × World F × Outcome A)
        → All IsEarly (r.0)
        → r.1 ≡ w
        → (r.2 ≡ raised → Failed)
        → ((a : A) → r.2 ≡ ok a → Prepared (f a w))
        → Prepared (after F f r)
    Prepared-after f (es, w', raised) h e n k = (h, e, n refl)
    Prepared-after f (es, w', ok a) h e n k =
        Prepared-more es (f a w') h (subst (λ v. Prepared (f a v)) (sym e) (k a refl))

    -- The last steps: the sources, the context and the prompt.
    composed-Prepared :
        (query : Text) (hits : List (SearchHit F)) (o : Outcome AnswerContext)
        → search query ≡ ok hits
        → build_answer_context w.db conv_id ≡ o
        → Prepared (
            after F
              (λ shown.
                ◌>>=◌ F (lift F o) (λ ctx. pure F (assemble_answer_prompt F ctx hits q, hits)))
              (emit F (sources (dedupe_sources F hits)) w))
    composed-Prepared query hits raised s e = ((tt, tt), refl, no_context e)
    composed-Prepared query hits (ok ctx) s e = ((tt, tt), refl, inl refl, query, s, ctx, e, refl)

    announce-silent :
        (new_conv : Bool) (t : Option Text)
        → All IsEarly ((announce F llm search clean new_conv conv_id t w).0)
          × ((announce F llm search clean new_conv conv_id t w).1 ≡ w)
    announce-silent true t = ((tt, tt), refl)
    announce-silent false t = (tt, refl)

    announce-Failed :
        (new_conv : Bool) (t : Option Text)
        → (announce F llm search clean new_conv conv_id t w).2 ≡ raised
        → Failed
    announce-Failed true t e = cc
    announce-Failed false t e = cc

    lift-Failed :
        (g : Text → Text) (prompt : Text) (o : Outcome Text)
        → llm low prompt ≡ o
        → (◌>>=◌ F (lift F o) (λ a. pure F (g a)) w).2 ≡ raised
        → Failed
    lift-Failed g prompt raised e h = no_query prompt e
    lift-Failed g prompt (ok a) e h = cc

    rewritten-Failed :
        (input : Option Text) → (rewritten F llm search clean q input w).2 ≡ raised → Failed
    rewritten-Failed none h = cc
    rewritten-Failed (some input) h =
        lift-Failed (λ rq. query_or F (strip rq) q) (rewrite_instruction ++ input)
          (llm low (rewrite_instruction ++ input)) refl h

    lift-silent :
        (g : Text → Text) (o : Outcome Text)
        → All IsEarly ((◌>>=◌ F (lift F o) (λ a. pure F (g a)) w).0)
          × ((◌>>=◌ F (lift F o) (λ a. pure F (g a)) w).1 ≡ w)
    lift-silent g raised = (tt, refl)
    lift-silent g (ok a) = (tt, refl)

    rewritten-silent :
        (input : Option Text)
        → All IsEarly ((rewritten F llm search clean q input w).0)
          × ((rewritten F llm search clean q input w).1 ≡ w)
    rewritten-silent none = (tt, refl)
    rewritten-silent (some input) =
        lift-silent (λ rq. query_or F (strip rq) q) (llm low (rewrite_instruction ++ input))

    searched-Prepared : (query : Text) → Prepared (with_query F llm search clean conv_id q query w)
    searched-Prepared query =
        Prepared-after (with_hits F llm search clean conv_id q) ([], w, search query) tt refl
          (no_hits query)
          (λ hits s. composed-Prepared query hits (build_answer_context w.db conv_id) s refl)

    rewritten-Prepared :
        (input : Option Text) → Prepared (with_input F llm search clean conv_id q input w)
    rewritten-Prepared input =
        Prepared-after (with_query F llm search clean conv_id q)
          (rewritten F llm search clean q input w) (rewritten-silent input).0
          (rewritten-silent input).1 (rewritten-Failed input) (λ query e. searched-Prepared query)

    pub prepare-Prepared :
        (new_conv : Bool) (t : Option Text)
        → Prepared (prepare F llm search clean conv_id q new_conv t w)
    unfolding prepare
    prepare-Prepared new_conv t =
        Prepared-after (λ said. announced F llm search clean conv_id q)
          (announce F llm search clean new_conv conv_id t w) (announce-silent new_conv t).0
          (announce-silent new_conv t).1 (announce-Failed new_conv t)
          (λ said e.
            Prepared-after (with_input F llm search clean conv_id q)
              ([], w, build_rewrite_input w.db conv_id q) tt refl no_input
              (λ input i. rewritten-Prepared input))

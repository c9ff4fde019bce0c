-- ===== src/Tests/Answers.antt =====
-- The theorems on the LLM and on the stream of an answer at concrete inputs.
use vegapunk_web.Base.{ℕ, zero, suc, true, none, List, [], ◌∷◌, ◌++◌, ◌≡◌, refl, ap, ◌∙◌, list_beq}
use vegapunk_web.Text.{Text, codes, strip, join, text_eq}
use vegapunk_web.Json.{Json, str, arr, obj, nil, cons, end, field, Codec, IsCodec, Outcome, ok}
use vegapunk_web.Tests.StackCodec.{stack_codec, stack_codec-IsCodec, dumps, loads}
use vegapunk_web.Llm.{Attempt, failed, answered, ask, ask_from, extract_openclaw_text}
use vegapunk_web.Llm.Asking.{IsAsked, ask-IsAsked}
use vegapunk_web.Llm.Envelope.{envelope, extract_openclaw_text-envelope}
use vegapunk_web.Search.{SearchHit}
use vegapunk_web.Stream.{Tier, World, chat_stream}
use vegapunk_web.Stream.Traces.{IsTrace, chat_stream-IsTrace}
use vegapunk_web.Tests.Ranking.{millionths}
use vegapunk_web.LlmText.{coerce_str, clean_title, parse_tag_list}
use vegapunk_web.LlmText.Content.{IsContent, coerce_str-IsContent}
use vegapunk_web.LlmText.Clean.{IsTitle, IsTagList, cleaned}

abbrev lower : Text → Text
lower t = t

abbrev reply : Json
reply = obj (
    field (codes "status") (str (codes "completed"))
      (field (codes "output") (arr (cons (str (codes "hello")) nil)) end))

coerce_str-IsContent_example : IsContent lower (codes "hello")
unfolding coerce_str list_beq strip vegapunk_web.LlmText.is_status
coerce_str-IsContent_example = coerce_str-IsContent lower reply (codes "hello") refl

cleaned_example : IsTitle (codes "Go") × IsTagList (codes "Go" ∷ [])
unfolding clean_title parse_tag_list vegapunk_web.Text.starts_with strip
    vegapunk_web.Text.splitlines vegapunk_web.Text.Dedupe.add_all vegapunk_web.Text.split
    vegapunk_web.Text.Dedupe.add_new vegapunk_web.Text.strip_of
cleaned_example = cleaned lower stack_codec (codes " \"Go\"")

abbrev second_try : ℕ → Attempt
second_try zero = failed
second_try (suc n) = answered (envelope (codes "hi" ∷ []))

ask-IsAsked_example : IsAsked stack_codec second_try (ok (codes "hi")) 2
unfolding ask ask_from extract_openclaw_text strip list_beq join
ask-IsAsked_example = ask-IsAsked stack_codec second_try

-- The stack's instructions between braces.
butlast : Text → Text
butlast [] = []
butlast (c ∷ []) = []
butlast (c ∷ d ∷ t) = c ∷ butlast (d ∷ t)

inner : Text → Text
unfolding butlast
inner [] = []
inner (c ∷ t) = butlast t

butlast-snoc : (t : Text) (c : ℕ) → butlast (t ++ (c ∷ [])) ≡ t
unfolding butlast
butlast-snoc [] c = refl
butlast-snoc (d ∷ []) c = refl
butlast-snoc (d ∷ e ∷ t) c = ap (λ u. d ∷ u) (butlast-snoc (e ∷ t) c)

abbrev braced : Codec
braced = record { dumps = λ v. 123 ∷ (dumps v ++ (125 ∷ [])); loads = λ t. loads (inner t) }

braced-IsCodec : IsCodec braced
unfolding inner
braced-IsCodec = record {
  loads-dumps = λ v. ap loads (butlast-snoc (dumps v) 125) ∙ stack_codec-IsCodec.loads-dumps v;
}

abbrev envelope_text : Text
envelope_text = 123 ∷ (dumps (envelope (codes "hi" ∷ [])) ++ (125 ∷ []))

extract_openclaw_text-envelope_example :
    (extract_openclaw_text braced (envelope (codes "hi" ∷ [])) ≡ codes "hi")
    × (extract_openclaw_text braced (str envelope_text) ≡ codes "hi")
    × (extract_openclaw_text braced (obj (field (codes "text") (str envelope_text) end))
        ≡ codes "hi")
unfolding dumps strip join
extract_openclaw_text-envelope_example =
    extract_openclaw_text-envelope braced braced-IsCodec (codes "hi") []
      (record { stripped = refl; no_json = refl }, tt) refl refl

abbrev first_world : World millionths
first_world = record {
  db = record {
    conversations =
        record {
          id = 1;
          user_id = 7;
          title = none;
          summary = none;
          summary_upto_msg_id = none;
          memo = [];
        }
        ∷ [];
    messages = [];
    next_conversation = 2;
    next_message = 5;
  };
  cited = [];
}

abbrev echo : Tier → Text → Outcome Text
echo tier prompt = ok (codes "it is")

abbrev one_hit : Text → Outcome (List (SearchHit millionths))
one_hit query = ok (
    record { chunk_id = 3; note_id = 4; note_title = codes "N"; text = codes "body"; score = 20000 }
    ∷ [])

chat_stream-IsTrace_example :
    IsTrace millionths echo one_hit lower 1
      (codes "who?")
      first_world
      (chat_stream millionths echo one_hit lower 1 (codes "who?") true none first_world).0
      (chat_stream millionths echo one_hit lower 1 (codes "who?") true none first_world).1
chat_stream-IsTrace_example =
    chat_stream-IsTrace millionths echo one_hit lower 1 (codes "who?") first_world true none

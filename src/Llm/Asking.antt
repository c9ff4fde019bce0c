-- ===== src/Llm/Asking.antt =====
-- The requests of _ask of app/llm.py.
use vegapunk_web.Base.{ℕ, ◌≡◌, refl}
use vegapunk_web.Text.{Text}
use vegapunk_web.Json.{Json, Codec, Outcome, raised}
use vegapunk_web.Llm.{
  Attempt, failed, answered, text_or_raise, extract_openclaw_text, ask_from, ask,
}

module _ (J : Codec) where
  -- What `_ask` may end with, by the outcomes of its requests.
  pub data IsAsked (post : ℕ → Attempt) : Outcome Text → ℕ → Type 0 where
    first :
        (v : Json)
        → post 0 ≡ answered v
        → IsAsked post (text_or_raise (extract_openclaw_text J v)) 1
    retried :
        (v : Json)
        → post 0 ≡ failed
        → post 1 ≡ answered v
        → IsAsked post (text_or_raise (extract_openclaw_text J v)) 2
    gave_up : post 0 ≡ failed → post 1 ≡ failed → IsAsked post raised 2

  -- A failed request is made once more and only once: the text is that of the first answer that comes
  -- within two requests, and the call raises if both fail.
  pub ask-IsAsked : (post : ℕ → Attempt) → IsAsked post (ask J post).0 (ask J post).1
  unfolding ask ask_from
  ask-IsAsked post = go (post 0) (post 1) refl refl
    where
      go : (a b : Attempt) → post 0 ≡ a → post 1 ≡ b → IsAsked post (ask J post).0 (ask J post).1
      go (answered v) b e f = rw e (first v e)
      go failed (answered v) e f = rw (e, f) (retried v e f)
      go failed failed e f = rw (e, f) (gave_up e f)

-- ===== src/Llm.antt =====
-- app/llm.py: the client of the LLM gateway. HTTP is a parameter, the outcome of each request; so are
-- floats, with `int`.
pub mod Envelope
pub mod Asking
use vegapunk_web.Base.{
  ℕ, zero, suc, Bool, true, false, not, ◌&&◌, ◌||◌, Option, none, some, List, [], ◌∷◌, ◌++◌, keep,
  is_nil, eqb, if◌then◌else◌, ◌==◌,
}
use vegapunk_web.Text.{Text, text_eq, codes, strip, join}
use vegapunk_web.Json.{
  Json, Items, Fields, null, bool, num, real, str, arr, obj, nil, cons, end, field, get_field,
  Codec, Outcome, ok, raised,
}

-- `s[:1] in "{["`
abbrev pub starts_json : Text → Bool
starts_json [] = true
starts_json (c ∷ s) = eqb c b'{' || eqb c b'['

abbrev pub or_text : Text → Text → Text
or_text [] s = s
or_text (c ∷ t) s = c ∷ t

abbrev pub or_null : Option Json → Json
or_null none = null
or_null (some v) = v

-- `p.get("text") for p in payloads if isinstance(p, dict)`
unfoldable pub payload_texts : Items → List Json
unfolding get_field
payload_texts nil = []
payload_texts (cons (obj fs) xs) = or_null (get_field (codes "text") fs) ∷ payload_texts xs
payload_texts (cons x xs) = payload_texts xs

-- `result.payloads`, if the two are a dict and a list
abbrev pub payloads_in : Option Json → Option Items
payloads_in (some (arr xs)) = some xs
payloads_in _ = none

abbrev pub payloads_of : Option Json → Option Items
payloads_of (some (obj fs)) = payloads_in (get_field (codes "payloads") fs)
payloads_of _ = none

abbrev pub visible_parts : List Text → List Text
visible_parts = keep (λ p. not (is_nil p) && not (is_nil (strip p)))

-- One request: an HTTP error or a body that is no JSON, or the body.
pub data Attempt : Type 0 where
  failed : Attempt
  answered : Json → Attempt

abbrev pub text_or_raise : Text → Outcome Text
text_or_raise [] = raised
text_or_raise (c ∷ s) = ok (c ∷ s)

module _ (J : Codec) where
  -- How a string and a dict are read, by the function for what they hold.
  abbrev pub inner_text : (Json → Text) → Option Json → Text
  inner_text deeper none = []
  inner_text deeper (some v) = deeper v

  abbrev pub string_text : (Json → Text) → Text → Text
  string_text deeper s = if starts_json s then or_text (inner_text deeper (J.loads s)) s else s

  abbrev pub map_texts : (Json → Text) → List Json → List Text
  map_texts deeper [] = []
  map_texts deeper (v ∷ vs) = deeper v ∷ map_texts deeper vs

  abbrev pub joined_texts : (Json → Text) → Option Items → Text
  joined_texts deeper none = []
  joined_texts deeper (some xs) =
      join (codes "\n") (visible_parts (map_texts deeper (payload_texts xs)))

  abbrev pub text_field : (Json → Text) → Option Json → Text
  text_field deeper (some (str s)) = deeper (str s)
  text_field deeper _ = []

  abbrev pub dict_text : (Json → Text) → Fields → Text
  dict_text deeper fs =
      let joined = joined_texts deeper (payloads_of (get_field (codes "result") fs)) in
      if not (is_nil (strip joined))
      then joined
      else text_field deeper (get_field (codes "text") fs)

  -- The fuel is 7 less `_depth`: at 0 the depth is beyond 6.
  unfoldable pub extract : ℕ → Json → Text
  unfolding get_field payload_texts
  extract zero v = []
  extract (suc fuel) (str s) = string_text (extract fuel) (strip s)
  extract (suc fuel) (obj fs) = dict_text (extract fuel) fs
  extract (suc fuel) null = []
  extract (suc fuel) (bool b) = []
  extract (suc fuel) (num n) = []
  extract (suc fuel) (real t) = []
  extract (suc fuel) (arr xs) = []

  unfoldable pub extract_openclaw_text : Json → Text
  unfolding extract
  extract_openclaw_text v = extract 7 v

  -- An answer without text raises at once; `rest` is what the next round gives.
  abbrev pub after_attempt : ℕ → Attempt → Outcome Text × ℕ → Outcome Text × ℕ
  after_attempt i failed rest = rest
  after_attempt i (answered v) rest = (text_or_raise (extract_openclaw_text v), suc i)

  -- The loop of `_ask`, from the request `i` on: the result, and the number of requests made.
  unfoldable pub ask_from : (ℕ → Attempt) → ℕ → ℕ → Outcome Text × ℕ
  unfolding extract_openclaw_text
  ask_from post zero i = (raised, i)
  ask_from post (suc left) i =
      let rest = ask_from post left (suc i) in after_attempt i (post i) rest

  unfoldable pub ask : (ℕ → Attempt) → Outcome Text × ℕ
  unfolding ask_from
  ask post = ask_from post 2 0

module _ (Float : Type 0) (int : Float → ℕ) where
  pub record Client : Type 0 where
    pub base_url : Text
    pub api_key : Text
    pub model_low : Text
    pub model_default : Text
    pub timeout_low : Float
    pub timeout_default : Float

  -- `timeout_low if timeout_low is not None else timeout`
  abbrev pub or_common : Float → Option Float → Float
  or_common timeout none = timeout
  or_common timeout (some t) = t

  unfoldable pub timeout_for : Client → Text → Float
  timeout_for c tier = if tier == codes "low" then c.timeout_low else c.timeout_default

  unfoldable pub model_for : Client → Text → Text
  model_for c tier = if tier == codes "low" then c.model_low else c.model_default

  unfoldable pub headers : Client → List (Text × Text)
  headers c =
      let content_type : List (Text × Text) =
        (codes "Content-Type", codes "application/json") ∷ [] in
      if is_nil c.api_key
      then content_type
      else content_type ++ ((codes "Authorization", codes "Bearer " ++ c.api_key) ∷ [])

  unfoldable pub payload : Client → Text → Text → Json
  unfolding timeout_for model_for
  payload c prompt tier = obj (
      field (codes "prompt") (str prompt) (
        field (codes "level") (str (model_for c tier))
          (field (codes "timeout_seconds") (num (int (timeout_for c tier))) end)))

-- ===== src/Llm/Envelope.antt =====
-- The envelopes that extract_openclaw_text of app/llm.py opens.
use vegapunk_web.Base.{
  ℕ, suc, true, false, List, [], ◌∷◌, ◌++◌, All, concat, is_nil, ◌≡◌, ◌≢◌, refl, sym, ap, ◌∙◌,
  list_beq,
}
use vegapunk_web.Text.{Text, text_eq, codes, strip, join, is_space}
use vegapunk_web.Text.Laws.{visible, visible-append, visible-strip, visible-join, visible-full}
use vegapunk_web.Json.{Json, Items, str, arr, obj, nil, cons, end, field, get_field, Codec, IsCodec}
use vegapunk_web.Llm.{
  starts_json, or_text, payload_texts, visible_parts, map_texts, dict_text, extract,
  extract_openclaw_text,
}

-- `[{"text": text}, ...]`
abbrev pub payloads : List Text → Items
payloads [] = nil
payloads (t ∷ ts) = cons (obj (field (codes "text") (str t) end)) (payloads ts)

-- `{"result": {"payloads": [{"text": text}, ...]}}`
abbrev pub envelope : List Text → Json
envelope texts =
    obj (field (codes "result") (obj (field (codes "payloads") (arr (payloads texts)) end)) end)

-- A text of its own: stripped, not empty and no JSON.
pub record IsPlain (text : Text) : Type 0 where
  pub stripped : strip text ≡ text
  pub no_json : starts_json text ≡ false

plain-full : (t : Text) → starts_json t ≡ false → is_nil t ≡ false
plain-full [] h = cc
plain-full (c ∷ t) h = refl

module _ (J : Codec) where
  extract-plain : (fuel : ℕ) (t : Text) → IsPlain t → extract J (suc fuel) (str t) ≡ t
  unfolding extract
  extract-plain fuel t h = rw h.stripped (rw h.no_json)

  parts-payloads :
      (deeper : Json → Text) (ts : List Text)
      → All IsPlain ts
      → ((t : Text) → IsPlain t → deeper (str t) ≡ t)
      → visible_parts (map_texts J deeper (payload_texts (payloads ts))) ≡ ts
  unfolding payload_texts get_field list_beq
  parts-payloads deeper [] h d = refl
  parts-payloads deeper (t ∷ ts) (p, h) d =
      let full = plain-full t p.no_json in
      rw (d t p) (rw full (rw p.stripped (rw full (ap (◌∷◌ t) (parts-payloads deeper ts h d)))))

  join-full :
      (t : Text) (ts : List Text) → IsPlain t → is_nil (strip (join (codes "\n") (t ∷ ts))) ≡ false
  join-full t ts p = ne-not_nil (strip (join (codes "\n") (t ∷ ts))) (λ e.
      visible-full t p.stripped (λ q. let n = plain-full t p.no_json in cc)
        (nil_left (visible t) (visible (concat ts)) (
          sym (visible-append t (concat ts))
          ∙ sym (visible-join (codes "\n") (t ∷ ts) (unfold is_space in refl))
          ∙ sym (visible-strip (join (codes "\n") (t ∷ ts)))
          ∙ ap visible e)))
    where
      ne-not_nil : (s : Text) → s ≢ [] → is_nil s ≡ false
      ne-not_nil [] n = absurd (n refl)
      ne-not_nil (c ∷ s) n = refl

      nil_left : (s u : Text) → s ++ u ≡ [] → s ≡ []
      nil_left [] u q = refl
      nil_left (c ∷ s) u q = cc

  extract-envelope :
      (fuel : ℕ) (t : Text) (ts : List Text)
      → All IsPlain (t ∷ ts)
      → extract J (suc (suc fuel)) (envelope (t ∷ ts)) ≡ join (codes "\n") (t ∷ ts)
  unfolding extract get_field list_beq
  extract-envelope fuel t ts h =
      let e = parts-payloads (extract J (suc fuel)) (t ∷ ts) h (λ u p. extract-plain fuel u p) in
      rw e (rw (join-full t ts h.0) refl)

  dict_text-field :
      (deeper : Json → Text) (s : Text)
      → dict_text J deeper (field (codes "text") (str s) end) ≡ deeper (str s)
  unfolding get_field list_beq strip
  dict_text-field deeper s = refl

  or_text-full : (t u : Text) → is_nil t ≡ false → or_text t u ≡ t
  or_text-full [] u e = cc
  or_text-full (c ∷ t) u e = refl

  joined-full :
      (t : Text) (ts : List Text) → IsPlain t → is_nil (join (codes "\n") (t ∷ ts)) ≡ false
  unfolding join strip
  joined-full t ts p = go (join (codes "\n") (t ∷ ts)) (join-full t ts p)
    where
      go : (s : Text) → is_nil (strip s) ≡ false → is_nil s ≡ false
      go [] h = h
      go (c ∷ s) h = refl

  -- The texts of the payloads of an envelope `{"result": {"payloads": [{"text": ...}, ...]}}`, one or
  -- more, each of them stripped, not empty and starting with neither bracket of JSON, are found and
  -- joined by newlines, whether the gateway answers with the envelope, with the envelope as a string,
  -- or with that string in a `text` field. The encoding of the envelope has to start with a bracket of
  -- JSON and to have no whitespace at its ends, and the decoder has to read what the encoder writes.
  pub extract_openclaw_text-envelope :
      (C : IsCodec J) (t : Text) (ts : List Text)
      → All IsPlain (t ∷ ts)
      → strip (J.dumps (envelope (t ∷ ts))) ≡ J.dumps (envelope (t ∷ ts))
      → starts_json (J.dumps (envelope (t ∷ ts))) ≡ true
      → let found = join (codes "\n") (t ∷ ts) in
        let encoded = J.dumps (envelope (t ∷ ts)) in
        (extract_openclaw_text J (envelope (t ∷ ts)) ≡ found)
        × (extract_openclaw_text J (str encoded) ≡ found)
        × (extract_openclaw_text J (obj (field (codes "text") (str encoded) end)) ≡ found)
  unfolding extract_openclaw_text
  extract_openclaw_text-envelope C t ts h s b = (extract-envelope 5 t ts h, as_string 4, in_field)
    where
      encoded : Text
      encoded = J.dumps (envelope (t ∷ ts))

      as_string :
          (fuel : ℕ) → extract J (suc (suc (suc fuel))) (str encoded) ≡ join (codes "\n") (t ∷ ts)
      as_string fuel = rw s (
          rw b (
            rw C.loads-dumps (
              rw (extract-envelope fuel t ts h)
                (or_text-full (join (codes "\n") (t ∷ ts)) encoded (joined-full t ts h.0)))))

      in_field :
          extract J 7 (obj (field (codes "text") (str encoded) end)) ≡ join (codes "\n") (t ∷ ts)
      in_field = dict_text-field (extract J 6) encoded ∙ as_string 3

-- ===== src/LlmText/Content.antt =====
-- What coerce_str of app/llm_text.py takes out of a JSON value.
use vegapunk_web.Base.{
  false, not, ◌&&◌, Option, none, some, List, [], ◌∷◌, is_nil, contains, if_intro, ◌==◌, ◌≡◌, subst,
  arith,
}
use vegapunk_web.Text.{Text, text_eq, strip}
use vegapunk_web.Json.{
  Json, Items, Fields, null, bool, num, real, str, arr, obj, nil, cons, end, field,
}
use vegapunk_web.LlmText.{
  Results, result_at, or_else, first_content, fallback, is_status, coerce_text, coerce_str,
  coerce_items, coerce_fields, content_keys, meta_keys,
}

module _ (lower : Text → Text) where
  -- A text that is not blank and no status word.
  abbrev pub IsContent : Text → Type 0
  IsContent t = (is_nil (strip t) ≡ false) × (is_status lower t ≡ false)

  abbrev IsGood : Option Text → Type 0
  IsGood none = Unit
  IsGood (some t) = IsContent t

  abbrev AllGood : Results → Type 0
  AllGood [] = Unit
  AllGood ((k, v) ∷ rs) = IsGood v × AllGood rs

  or_else-IsGood : (a b : Option Text) → IsGood a → IsGood b → IsGood (or_else a b)
  or_else-IsGood none b h k = k
  or_else-IsGood (some t) b h k = h

  result_at-IsGood : (key : Text) (rs : Results) → AllGood rs → IsGood (result_at key rs)
  result_at-IsGood key [] h = tt
  result_at-IsGood key ((k, v) ∷ rs) h =
      if_intro IsGood (k == key) _ _ (λ _. h.0) (λ _. result_at-IsGood key rs h.1)

  first_content-IsGood :
      (keys : List Text) (rs : Results) → AllGood rs → IsGood (first_content keys rs)
  unfolding first_content
  first_content-IsGood [] rs h = tt
  first_content-IsGood (key ∷ keys) rs h =
      or_else-IsGood (result_at key rs) (first_content keys rs) (result_at-IsGood key rs h)
        (first_content-IsGood keys rs h)

  fallback-IsGood : (rs : Results) → AllGood rs → IsGood (fallback lower rs)
  unfolding fallback
  fallback-IsGood [] h = tt
  fallback-IsGood ((k, v) ∷ rs) h =
      let ih = fallback-IsGood rs h.1 in
      if_intro IsGood (contains meta_keys (lower k)) _ _ (λ _. ih)
        (λ _. or_else-IsGood v (fallback lower rs) h.0 ih)

  coerce_text-IsGood : (s : Text) → IsGood (coerce_text lower s)
  coerce_text-IsGood s =
      if_intro IsGood (not (is_nil (strip s)) && not (is_status lower s)) _ _
        (λ e. (ground arith, ground arith)) (λ _. tt)

  mutual
    unfolding coerce_str

    coerce_str-IsGood : (v : Json) → IsGood (coerce_str lower v)
    coerce_str-IsGood null = tt
    coerce_str-IsGood (bool b) = tt
    coerce_str-IsGood (num n) = tt
    coerce_str-IsGood (real t) = tt
    coerce_str-IsGood (str s) = coerce_text-IsGood s
    coerce_str-IsGood (arr xs) = coerce_items-IsGood xs
    coerce_str-IsGood (obj fs) =
        let rs = coerce_fields lower fs in
        let h = coerce_fields-AllGood fs in
        or_else-IsGood (first_content content_keys rs) (fallback lower rs)
          (first_content-IsGood content_keys rs h) (fallback-IsGood rs h)

    coerce_items-IsGood : (xs : Items) → IsGood (coerce_items lower xs)
    coerce_items-IsGood nil = tt
    coerce_items-IsGood (cons x xs) =
        or_else-IsGood (coerce_str lower x) (coerce_items lower xs) (coerce_str-IsGood x)
          (coerce_items-IsGood xs)

    coerce_fields-AllGood : (fs : Fields) → AllGood (coerce_fields lower fs)
    coerce_fields-AllGood end = tt
    coerce_fields-AllGood (field k v fs) = (coerce_str-IsGood v, coerce_fields-AllGood fs)

  -- What is taken out of a JSON answer, however deep it lies in lists, content keys or other keys,
  -- is neither blank nor a mere status word such as "completed".
  pub coerce_str-IsContent : (v : Json) (t : Text) → coerce_str lower v ≡ some t → IsContent t
  coerce_str-IsContent v t e = subst IsGood e (coerce_str-IsGood v)

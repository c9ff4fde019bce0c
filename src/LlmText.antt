-- ===== src/LlmText.antt =====
-- app/llm_text.py: a title or a list of tags out of the answer of an LLM. `str.lower`, whose tables
-- are Python's, and `json.loads` are parameters.
pub mod Content
pub mod Clean
use vegapunk_web.Base.{
  ℕ, ◌-◌, Bool, true, false, not, ◌&&◌, ◌||◌, Option, none, some, List, [], ◌∷◌, map, keep, take,
  length, is_nil, contains, leb, eqb, last_or, if◌then◌else◌, ◌==◌,
}
use vegapunk_web.Text.{Text, text_eq, codes, strip, strip_of, starts_with, split, splitlines, join}
use vegapunk_web.Text.Dedupe.{add_all}
use vegapunk_web.Json.{
  Json, Items, Fields, null, bool, num, real, str, arr, obj, nil, cons, end, field, Codec,
}

abbrev pub content_keys : List Text
content_keys =
    codes "title"
    ∷ codes "제목"
    ∷ codes "text"
    ∷ codes "summary"
    ∷ codes "output"
    ∷ codes "result"
    ∷ codes "content"
    ∷ codes "answer"
    ∷ codes "response"
    ∷ codes "message"
    ∷ codes "value"
    ∷ codes "tags"
    ∷ codes "태그"
    ∷ []

abbrev pub meta_keys : List Text
meta_keys =
    codes "status"
    ∷ codes "state"
    ∷ codes "type"
    ∷ codes "role"
    ∷ codes "id"
    ∷ codes "finish_reason"
    ∷ codes "model"
    ∷ codes "level"
    ∷ codes "code"
    ∷ codes "ok"
    ∷ codes "success"
    ∷ codes "reason"
    ∷ []

abbrev pub status_words : List Text
status_words =
    codes "completed"
    ∷ codes "complete"
    ∷ codes "success"
    ∷ codes "succeeded"
    ∷ codes "ok"
    ∷ codes "done"
    ∷ codes "finished"
    ∷ codes "failed"
    ∷ codes "error"
    ∷ codes "pending"
    ∷ codes "running"
    ∷ codes "null"
    ∷ codes "none"
    ∷ []

abbrev pub fence : Text
fence = codes "```"

unfoldable pub strip_fence : Text → Text
strip_fence t =
    if starts_with fence t
    then strip (join (codes "\n") (keep (λ ln. not (starts_with fence (strip ln))) (splitlines t)))
    else t

-- The results of the values of a dict, by their keys.
abbrev pub Results : Type 0
Results = List (Text × Option Text)

-- `key in obj`, and the result for it
abbrev pub result_at : Text → Results → Option Text
result_at key [] = none
result_at key ((k, v) ∷ rs) = let rest = result_at key rs in if k == key then v else rest

abbrev pub or_else {ℓ} : {A : Type ℓ} → Option A → Option A → Option A
or_else (some a) o = some a
or_else none o = o

-- The loop over `_CONTENT_KEYS`.
unfoldable pub first_content : List Text → Results → Option Text
first_content [] rs = none
first_content (key ∷ keys) rs = or_else (result_at key rs) (first_content keys rs)

-- `if t[:1] in "{["`, the text being not empty
abbrev pub starts_json : Text → Bool
starts_json [] = true
starts_json (c ∷ s) = eqb c b'{' || eqb c b'['

unfoldable pub parse_json : Codec → Text → Option Json
parse_json J t = if starts_json t then J.loads t else none

module _ (lower : Text → Text) where
  unfoldable pub is_status : Text → Bool
  is_status s = contains status_words (lower (strip s))

  -- The loop over the items of a dict behind the content keys.
  unfoldable pub fallback : Results → Option Text
  fallback [] = none
  fallback ((k, v) ∷ rs) =
      let rest = fallback rs in if contains meta_keys (lower k) then rest else or_else v rest

  abbrev pub coerce_text : Text → Option Text
  coerce_text s = if not (is_nil (strip s)) && not (is_status s) then some s else none

  unfoldable mutual
    unfolding first_content fallback

    pub coerce_str : Json → Option Text
    coerce_str null = none
    coerce_str (bool b) = none
    coerce_str (num n) = none
    coerce_str (real t) = none
    coerce_str (str s) = coerce_text s
    coerce_str (arr xs) = coerce_items xs
    coerce_str (obj fs) =
        let rs = coerce_fields fs in or_else (first_content content_keys rs) (fallback rs)

    -- The first item that gives a text.
    pub coerce_items : Items → Option Text
    coerce_items nil = none
    coerce_items (cons x xs) = or_else (coerce_str x) (coerce_items xs)

    pub coerce_fields : Fields → Results
    coerce_fields end = []
    coerce_fields (field k v fs) = (k, coerce_str v) ∷ coerce_fields fs

  -- `[x.strip() for x in obj if ...]`
  unfoldable pub clean_items : Items → List Text
  clean_items nil = []
  clean_items (cons (str s) xs) =
      let rest = clean_items xs in
      if not (is_nil (strip s)) && not (is_status s) then strip s ∷ rest else rest
  clean_items (cons x xs) = clean_items xs

  -- `out or None`
  abbrev pub or_absent : List Text → Option (List Text)
  or_absent [] = none
  or_absent (t ∷ ts) = some (t ∷ ts)

  abbrev pub ListResults : Type 0
  ListResults = List (Text × Option (List Text))

  abbrev pub list_at : Text → ListResults → Option (List Text)
  list_at key [] = none
  list_at key ((k, v) ∷ rs) = let rest = list_at key rs in if k == key then v else rest

  unfoldable pub first_list : List Text → ListResults → Option (List Text)
  first_list [] rs = none
  first_list (key ∷ keys) rs = or_else (list_at key rs) (first_list keys rs)

  unfoldable mutual
    unfolding clean_items first_list

    pub coerce_list : Json → Option (List Text)
    coerce_list null = none
    coerce_list (bool b) = none
    coerce_list (num n) = none
    coerce_list (real t) = none
    coerce_list (str s) = none
    coerce_list (arr xs) = or_absent (clean_items xs)
    coerce_list (obj fs) = first_list content_keys (list_fields fs)

    pub list_fields : Fields → ListResults
    list_fields end = []
    list_fields (field k v fs) = (k, coerce_list v) ∷ list_fields fs

-- `t.splitlines()[0].strip() if t.strip() else ""`
abbrev pub head_line : List Text → Text
head_line [] = []
head_line (l ∷ ls) = strip l

unfoldable pub first_line : Text → Text
first_line t = if is_nil (strip t) then [] else head_line (splitlines t)

abbrev pub is_quote : ℕ → Bool
is_quote c = eqb c b'"' || eqb c b'\'' || eqb c b'`'

-- The quotes around a title are taken off.
unfoldable pub unquote : Text → Text
unquote [] = []
unquote (c ∷ s) =
    if leb 1 (length s) && eqb c (last_or c s) && is_quote c
    then strip (take (length s - 1) s)
    else c ∷ s

-- The class of `strip("\"'`[]")`.
abbrev pub is_edge : ℕ → Bool
is_edge c = is_quote c || eqb c b'[' || eqb c b']'

unfoldable pub clean_item : Text → Text
clean_item s = strip (strip_of is_edge (strip s))

-- `_dedupe`
unfoldable pub dedupe : List Text → List Text
unfolding clean_item
dedupe items = add_all clean_item [] items

-- `t.replace("\n", ",")`
abbrev pub commas : Text → Text
commas = map (λ c. if eqb c b'\n' then b',' else c)

module _ (lower : Text → Text) (J : Codec) where
  abbrev or_empty : Option Text → Text
  or_empty none = []
  or_empty (some s) = s

  abbrev title_text : Text → Option Json → Text
  title_text t none = t
  title_text t (some v) = or_empty (coerce_str lower v)

  unfoldable pub clean_title : Text → Text
  unfolding strip_fence parse_json coerce_str first_line unquote
  clean_title raw =
      let t = strip_fence (strip raw) in
      if is_nil t then [] else unquote (first_line (title_text t (parse_json J t)))

  abbrev plain_tags : Text → List Text
  plain_tags t = dedupe (map strip (split b',' (commas t)))

  abbrev tags_or : Text → Option (List Text) → List Text
  tags_or t none = plain_tags t
  tags_or t (some items) = dedupe items

  abbrev tags_of_json : Text → Option Json → List Text
  tags_of_json t none = plain_tags t
  tags_of_json t (some v) = tags_or t (coerce_list lower v)

  unfoldable pub parse_tag_list : Text → List Text
  unfolding strip_fence parse_json coerce_list dedupe
  parse_tag_list raw =
      let t = strip_fence (strip raw) in if is_nil t then [] else tags_of_json t (parse_json J t)

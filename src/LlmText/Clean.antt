-- ===== src/LlmText/Clean.antt =====
-- The shape of the titles and tags of app/llm_text.py.
use vegapunk_web.Base.{
  ◌-◌, false, ◌&&◌, Option, none, some, List, [], ◌∷◌, take, length, is_nil, last_or, In, All, leb,
  eqb, if_intro, ◌≡◌, ◌≢◌, refl, subst, sym,
}
use vegapunk_web.Text.{Text, strip, strip_of, splitlines, is_line_break}
use vegapunk_web.Text.Laws.{strip-strip}
use vegapunk_web.Text.Lines.{IsLine, All-strip, All-take, splitlines-IsLine}
use vegapunk_web.Text.Dedupe.{IsDistinct, add_all-IsDeduped}
use vegapunk_web.Json.{Json, Codec}
use vegapunk_web.LlmText.{
  strip_fence, parse_json, coerce_list, first_line, head_line, unquote, is_quote, title_text,
  clean_title, dedupe, clean_item, is_edge, tags_of_json, parse_tag_list, tags_or,
}

-- One line, without whitespace at its ends.
abbrev pub IsTitle : Text → Type 0
IsTitle t = IsLine t × (strip t ≡ t)

strip-IsTitle : (t : Text) → IsLine t → IsTitle (strip t)
strip-IsTitle t h = (All-strip (λ c. is_line_break c ≡ false) t h, strip-strip t)

nil-IsTitle : IsTitle []
unfolding strip
nil-IsTitle = (tt, refl)

head_line-IsTitle : (ls : List Text) → All IsLine ls → IsTitle (head_line ls)
head_line-IsTitle [] h = nil-IsTitle
head_line-IsTitle (l ∷ ls) h = strip-IsTitle l h.0

first_line-IsTitle : (t : Text) → IsTitle (first_line t)
unfolding first_line
first_line-IsTitle t =
    if_intro IsTitle (is_nil (strip t)) _ _ (λ _. nil-IsTitle)
      (λ _. head_line-IsTitle (splitlines t) (splitlines-IsLine t))

unquote-IsTitle : (t : Text) → IsTitle t → IsTitle (unquote t)
unfolding unquote
unquote-IsTitle [] h = nil-IsTitle
unquote-IsTitle (c ∷ s) h =
    if_intro IsTitle (leb 1 (length s) && eqb c (last_or c s) && is_quote c) _ _
      (λ _.
        strip-IsTitle (take (length s - 1) s)
          (All-take (λ d. is_line_break d ≡ false) (length s - 1) s h.0.1))
      (λ _. h)

-- No tag twice, none empty and none with whitespace at its ends.
pub record IsTagList (tags : List Text) : Type 0 where
  pub distinct : IsDistinct tags
  pub clean : (t : Text) → In t tags → (t ≢ []) × (strip t ≡ t)

dedupe-IsTagList : (items : List Text) → IsTagList (dedupe items)
unfolding dedupe clean_item
dedupe-IsTagList items =
    let h = add_all-IsDeduped clean_item items in
    record {
      distinct = h.distinct;
      clean = λ t i.
          let (g, j, q) = h.sound t i in
          (
            h.full t i,
            subst (λ (x : Text). strip x ≡ x) (sym q) (strip-strip (strip_of is_edge (strip g))),
          );
    }

module _ (lower : Text → Text) (J : Codec) where
  -- Whatever the LLM answers, a title is one line without whitespace at its ends, and the tags are
  -- distinct, not empty and without whitespace at their ends.
  pub cleaned :
      (raw : Text) → IsTitle (clean_title lower J raw) × IsTagList (parse_tag_list lower J raw)
  unfolding clean_title parse_tag_list
  cleaned raw =
      let t = strip_fence (strip raw) in
      (
        if_intro IsTitle (is_nil t) _ _ (λ _. nil-IsTitle)
            (λ _.
              unquote-IsTitle (first_line (title_text lower J t (parse_json J t)))
                (first_line-IsTitle (title_text lower J t (parse_json J t)))),
        if_intro IsTagList (is_nil t) _ _ (λ _. record { distinct = tt; clean = λ u i. absurd i })
            (λ _. tags (parse_json J t) t),
      )
    where
      chosen : (o : Option (List Text)) (t : Text) → IsTagList (tags_or lower J t o)
      chosen none t = dedupe-IsTagList _
      chosen (some items) t = dedupe-IsTagList items

      tags : (o : Option Json) (t : Text) → IsTagList (tags_of_json lower J t o)
      tags none t = dedupe-IsTagList _
      tags (some v) t = chosen (coerce_list lower v) t

-- ===== src/Distill/Complete.antt =====
-- What distill of app/routes/distill.py never drops.
use vegapunk_web.Base.{
  map, ℕ, ◌&&◌, false, Option, none, some, List, [], ◌++◌, In, In-append_left, In-append_right, ◌⊎◌,
  inl, inr, is_nil, if_intro, ◌≡◌, refl, arith, subst,
}
use vegapunk_web.Text.{Text, codes}
use vegapunk_web.Json.{
  Json, Items, Fields, null, bool, num, real, str, arr, obj, nil, cons, Codec, Outcome, ok, raised,
  truthy, get_field, ◌>>=◌,
}
use vegapunk_web.Memory.{Conversation, ChatDb}
use vegapunk_web.Chat.{own_conversation}
use vegapunk_web.Notes.{Note, NotesDb}
use vegapunk_web.Search.{Floats, Row}
use vegapunk_web.Merging.{notes_of}
use vegapunk_web.Distill.{extract_json_array}
use vegapunk_web.Distill.Request.{
  Candidate, or_none, or_empty_list, target_of, propose, propose_item, propose_all, distill,
  build_distill_prompt, transcript, messages_of, tag_names,
}

abbrev pub InItems : Json → Items → Type 0
InItems v nil = ⊥
InItems v (cons x xs) = (v ≡ x) ⊎ InItems v xs

-- A field is a text, `null` or not there.
abbrev pub IsTextual : Option Json → Type 0
IsTextual none = Unit
IsTextual (some null) = Unit
IsTextual (some (str t)) = Unit
IsTextual (some v) = ⊥

-- The titles and bodies of the dicts of an array are such fields.
unfoldable pub AreTextual : Items → Type 0
AreTextual nil = Unit
AreTextual (cons (obj fs) vs) =
    IsTextual (get_field (codes "title") fs)
    × IsTextual (get_field (codes "body") fs)
    × AreTextual vs
AreTextual (cons v vs) = AreTextual vs

-- A candidate with this title and this body.
abbrev pub Proposes : Text → Text → List Candidate → Type 0
Proposes title body out = (c : Candidate) × In c out × (c.title ≡ title) × (c.body ≡ str body)

module _ (F : Floats) (match_dist : F.Float) (vector_search : Text → ℕ → ℕ → List (Row F))
    (casefold : Text → Text) (user_id : ℕ) (table : List Note) where
  abbrev Succeeds : Outcome (List Candidate) → Type 0
  Succeeds o = (out : List Candidate) × (o ≡ ok out)

  propose-Succeeds :
      (t b : Option Json) (tags : Json)
      → IsTextual t
      → IsTextual b
      → Succeeds
          (propose F match_dist vector_search casefold user_id table (or_none t) (or_none b) tags)
  unfolding target_of
  propose-Succeeds none b tags h k = ([], refl)
  propose-Succeeds (some null) b tags h k = ([], refl)
  propose-Succeeds (some (str t)) none tags h k =
      if_intro Succeeds (truthy (str t) && false) _ _ (λ e. ground arith) (λ _. ([], refl))
  propose-Succeeds (some (str t)) (some null) tags h k =
      if_intro Succeeds (truthy (str t) && false) _ _ (λ e. ground arith) (λ _. ([], refl))
  propose-Succeeds (some (str t)) (some (str b)) tags h k =
      if_intro Succeeds (truthy (str t) && truthy (str b)) _ _ (λ _. (_, refl)) (λ _. ([], refl))
  propose-Succeeds (some (str t)) (some (bool x)) tags h k = absurd k
  propose-Succeeds (some (str t)) (some (num x)) tags h k = absurd k
  propose-Succeeds (some (str t)) (some (real x)) tags h k = absurd k
  propose-Succeeds (some (str t)) (some (arr x)) tags h k = absurd k
  propose-Succeeds (some (str t)) (some (obj x)) tags h k = absurd k
  propose-Succeeds (some (bool x)) b tags h k = absurd h
  propose-Succeeds (some (num x)) b tags h k = absurd h
  propose-Succeeds (some (real x)) b tags h k = absurd h
  propose-Succeeds (some (arr x)) b tags h k = absurd h
  propose-Succeeds (some (obj x)) b tags h k = absurd h

  joined-Succeeds :
      (a b : Outcome (List Candidate))
      → Succeeds a
      → Succeeds b
      → Succeeds (a >>= (λ out. b >>= (λ more. ok (out ++ more))))
  joined-Succeeds a b (out, e) (more, g) = (out ++ more, rw (e, g) refl)

  propose_all-Succeeds :
      (vs : Items)
      → AreTextual vs
      → Succeeds (propose_all F match_dist vector_search casefold user_id table vs)
  unfolding propose_all AreTextual
  propose_all-Succeeds nil h = ([], refl)
  propose_all-Succeeds (cons (obj fs) vs) (t, b, h) =
      joined-Succeeds _ _
        (propose-Succeeds (get_field (codes "title") fs) (get_field (codes "body") fs)
          (or_empty_list (get_field (codes "tags") fs)) t b)
        (propose_all-Succeeds vs h)
  propose_all-Succeeds (cons null vs) h =
      joined-Succeeds (ok []) _ ([], refl) (propose_all-Succeeds vs h)
  propose_all-Succeeds (cons (bool x) vs) h =
      joined-Succeeds (ok []) _ ([], refl) (propose_all-Succeeds vs h)
  propose_all-Succeeds (cons (num x) vs) h =
      joined-Succeeds (ok []) _ ([], refl) (propose_all-Succeeds vs h)
  propose_all-Succeeds (cons (real x) vs) h =
      joined-Succeeds (ok []) _ ([], refl) (propose_all-Succeeds vs h)
  propose_all-Succeeds (cons (str x) vs) h =
      joined-Succeeds (ok []) _ ([], refl) (propose_all-Succeeds vs h)
  propose_all-Succeeds (cons (arr x) vs) h =
      joined-Succeeds (ok []) _ ([], refl) (propose_all-Succeeds vs h)

  unfoldable ProposesIf : Text → Text → Outcome (List Candidate) → Type 0
  ProposesIf title body raised = Unit
  ProposesIf title body (ok out) = Proposes title body out

  module _ (fs : Fields) (title body : Text) (t : get_field (codes "title") fs ≡ some (str title))
      (t_full : is_nil title ≡ false) (b : get_field (codes "body") fs ≡ some (str body))
      (b_full : is_nil body ≡ false) where
    propose_item-Proposes :
        ProposesIf title body
          (propose_item F match_dist vector_search casefold user_id table (obj fs))
    unfolding ProposesIf target_of
    propose_item-Proposes = rw t (rw b (rw t_full (rw b_full (_, inl refl, refl, refl))))

    propose_all-Proposes :
        (vs : Items)
        → InItems (obj fs) vs
        → ProposesIf title body (propose_all F match_dist vector_search casefold user_id table vs)
    unfolding propose_all ProposesIf
    propose_all-Proposes nil h = absurd h
    propose_all-Proposes (cons v vs) (inl e) =
        first (propose_item F match_dist vector_search casefold user_id table v)
          (propose_all F match_dist vector_search casefold user_id table vs)
          (subst
            (λ (x : Json).
              ProposesIf title body
                (propose_item F match_dist vector_search casefold user_id table x))
            e propose_item-Proposes)
      where
        first :
            (o p : Outcome (List Candidate))
            → ProposesIf title body o
            → ProposesIf title body (o >>= (λ out. p >>= (λ more. ok (out ++ more))))
        first raised p h = tt
        first (ok out) raised h = tt
        first (ok out) (ok more) (c, i, q, r) = (c, In-append_left c out more i, q, r)
    propose_all-Proposes (cons v vs) (inr h) =
        second (propose_item F match_dist vector_search casefold user_id table v)
          (propose_all F match_dist vector_search casefold user_id table vs)
          (propose_all-Proposes vs h)
      where
        second :
            (o p : Outcome (List Candidate))
            → ProposesIf title body p
            → ProposesIf title body (o >>= (λ out. p >>= (λ more. ok (out ++ more))))
        second raised p h = tt
        second (ok out) raised h = tt
        second (ok out) (ok more) (c, i, q, r) = (c, In-append_right c out more i, q, r)

module _ (F : Floats) (match_dist : F.Float) (vector_search : Text → ℕ → ℕ → List (Row F))
    (casefold : Text → Text) (J : Codec) (llm : Text → Outcome Text) {Vector : Type 0} where
  -- If the user owns the conversation, the LLM answers the prompt for it, and every title and body of
  -- a dict in the array of its answer is a text, `null` or not there, then the request succeeds, and
  -- every dict whose title and body are texts that are not empty is proposed as a candidate.
  pub distill-Proposes :
      (user_id conv_id : ℕ) (db : ChatDb) (notes : NotesDb Vector) (c : Conversation) (raw : Text)
      (fs : Fields) (title body : Text)
      → own_conversation conv_id user_id db.conversations ≡ some c
      → llm (
          build_distill_prompt
            (transcript (messages_of conv_id db.messages))
            (map (λ (n : Note). n.title) (notes_of user_id notes.notes))
            (tag_names user_id notes.notes notes.tags notes.note_tags))
        ≡ ok raw
      → AreTextual (extract_json_array J raw)
      → InItems (obj fs) (extract_json_array J raw)
      → get_field (codes "title") fs ≡ some (str title)
      → is_nil title ≡ false
      → get_field (codes "body") fs ≡ some (str body)
      → is_nil body ≡ false
      → (out : List Candidate) × (distill F match_dist vector_search casefold J llm user_id conv_id
            db notes
          ≡ ok out)
        × Proposes title body out
  unfolding distill ProposesIf
  distill-Proposes user_id conv_id db notes c raw fs title body own answers ts i t t_full b b_full =
      let items = extract_json_array J raw in
      let (out, e) =
        propose_all-Succeeds F match_dist vector_search casefold user_id notes.notes items ts in
      (
        out,
        rw own (rw answers e),
        subst (ProposesIf F match_dist vector_search casefold user_id notes.notes title body) e (
            propose_all-Proposes F match_dist vector_search casefold user_id notes.notes fs title
              body t t_full b b_full items i),
      )

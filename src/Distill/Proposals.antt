-- ===== src/Distill/Proposals.antt =====
-- What distill of app/routes/distill.py proposes.
use vegapunk_web.Base.{
  ℕ, ◌&&◌, true, false, Option, none, some, List, [], ◌∷◌, ◌++◌, All, All-append, In, ◌⊎◌, inl, inr,
  is_nil, &&-true, if_intro, ◌≡◌, refl, ap, subst, eqb, eqb_iff, arith,
}
use vegapunk_web.Text.{Text, codes}
use vegapunk_web.Json.{
  Json, Items, null, bool, num, real, str, arr, obj, nil, cons, Codec, Outcome, ok, raised, truthy,
  get_field, ◌>>=◌,
}
use vegapunk_web.Chunking.{split_into_chunks}
use vegapunk_web.Memory.{Conversation, ChatDb}
use vegapunk_web.Chat.{own_conversation}
use vegapunk_web.Notes.{Note, NotesDb}
use vegapunk_web.Search.{Floats, Row}
use vegapunk_web.Merging.{
  Target, notes_of, nearest_to, titled_or, same_title, norm, find_merge_target,
}
use vegapunk_web.Merging.Targets.{
  IsChosen, HitsAreOf, TargetIsOf, IsChosen-TargetIsOf, same_title-TargetIsOf,
  find_merge_target-IsChosen,
}
use vegapunk_web.Distill.{extract_json_array}
use vegapunk_web.Distill.Request.{
  Candidate, or_none, or_empty_list, only_titled, target_of, propose, propose_item, propose_all,
  distill, distill_own,
}

abbrev text_in : Json → Text
text_in (str t) = t
text_in _ = []

abbrev IsFound : ℕ → ℕ → List Conversation → Option Conversation → Type 0
IsFound conv_id user_id cs none =
    All (λ (c : Conversation). (c.id ≡ conv_id) × (c.user_id ≡ user_id) → ⊥) cs
IsFound conv_id user_id cs (some c) = In c cs × (c.id ≡ conv_id) × (c.user_id ≡ user_id)

IsFound-behind :
    (conv_id user_id : ℕ) (c : Conversation) (cs : List Conversation) (o : Option Conversation)
    → ((c.id ≡ conv_id) × (c.user_id ≡ user_id) → ⊥)
    → IsFound conv_id user_id cs o
    → IsFound conv_id user_id (c ∷ cs) o
IsFound-behind conv_id user_id c cs none n f = (n, f)
IsFound-behind conv_id user_id c cs (some d) n (i, e, g) = (inr i, e, g)

own_conversation-IsFound :
    (conv_id user_id : ℕ) (cs : List Conversation)
    → IsFound conv_id user_id cs (own_conversation conv_id user_id cs)
unfolding own_conversation
own_conversation-IsFound conv_id user_id [] = tt
own_conversation-IsFound conv_id user_id (c ∷ cs) =
    if_intro (IsFound conv_id user_id (c ∷ cs)) (eqb c.id conv_id && eqb c.user_id user_id) _ _
      (λ e.
        let (h, k) = &&-true (eqb c.id conv_id) (eqb c.user_id user_id) e in
        (inl refl, (eqb_iff c.id conv_id).0 h, (eqb_iff c.user_id user_id).0 k))
      (λ e.
        IsFound-behind conv_id user_id c cs _ (λ (h, k). ground (arith, h, k))
          (own_conversation-IsFound conv_id user_id cs))

module _ (F : Floats) (match_dist : F.Float) (vector_search : Text → ℕ → ℕ → List (Row F))
    (casefold : Text → Text) (user_id : ℕ) (table : List Note) where
  -- A candidate with a title and a body, whose target, if the body is a text, is chosen for both.
  pub record IsProposal (c : Candidate) : Type 0 where
    pub titled : is_nil c.title ≡ false
    pub filled : truthy c.body ≡ true
    pub chosen :
        (body : Text)
        → c.body ≡ str body
        → IsChosen F match_dist
            (nearest_to vector_search user_id)
            casefold
            (norm casefold c.title)
            (notes_of user_id table)
            (split_into_chunks body)
            c.merge_target
    -- It is one of the user's notes.
    pub own_target :
        TargetIsOf F match_dist
          (nearest_to vector_search user_id)
          (notes_of user_id table)
          c.merge_target

  -- The search for a user hits chunks of the user's notes only.
  abbrev pub FindsOwn : Type 0
  FindsOwn =
      (ch : Text)
      → HitsAreOf F match_dist (nearest_to vector_search user_id) (notes_of user_id table)
          (vector_search ch 1 user_id)

  abbrev pub AreProposals : Outcome (List Candidate) → Type 0
  AreProposals raised = Unit
  AreProposals (ok out) = All IsProposal out

  abbrev proposal : Json → Json → Text × Option Target → Outcome (List Candidate)
  proposal body tags found =
      ok (record { title = found.0; body = body; tags = tags; merge_target = found.1 } ∷ [])

  not_nil : (t : Text) → truthy (str t) ≡ true → is_nil t ≡ false
  not_nil [] h = cc
  not_nil (c ∷ t) h = refl

  module _ (own : FindsOwn) where
    by_title :
        (title : Text)
        → TargetIsOf F match_dist
            (nearest_to vector_search user_id)
            (notes_of user_id table)
            (titled_or (same_title casefold (norm casefold title) (notes_of user_id table)) none)
    by_title title =
        same_title-TargetIsOf F match_dist (nearest_to vector_search user_id) casefold
          (norm casefold title) (notes_of user_id table)

    only_titled-AreProposals :
        (title : Text) (body tags : Json) (o : Option Target)
        → truthy (str title) ≡ true
        → truthy body ≡ true
        → ((t : Text) → body ≡ str t → ⊥)
        → TargetIsOf F match_dist (nearest_to vector_search user_id) (notes_of user_id table) o
        → AreProposals (
            only_titled F match_dist vector_search casefold user_id table o
            >>= (λ t. ok (title, t))
            >>= proposal body tags)
    only_titled-AreProposals title body tags none h k n w = tt
    only_titled-AreProposals title body tags (some t) h k n w = (
      record {
        titled = not_nil title h;
        filled = k;
        chosen = λ b e. absurd (n b e);
        own_target = w;
      },
      tt,
    )

    target_of-AreProposals :
        (title body tags : Json)
        → truthy title ≡ true
        → truthy body ≡ true
        → AreProposals (
            target_of F match_dist vector_search casefold user_id table title body
            >>= proposal body tags)
    unfolding target_of
    target_of-AreProposals (str title) (str body) tags h k = (
      record {
        titled = not_nil title h;
        filled = k;
        chosen = λ b e.
            subst
              (λ t.
                IsChosen F match_dist (nearest_to vector_search user_id) casefold
                  (norm casefold title) (notes_of user_id table) (split_into_chunks t)
                  (find_merge_target F match_dist vector_search casefold user_id table title body))
              (ap text_in e)
              (find_merge_target-IsChosen F match_dist vector_search casefold user_id table title
                body);
        own_target =
            IsChosen-TargetIsOf F match_dist (nearest_to vector_search user_id) casefold
              (norm casefold title) (notes_of user_id table) (split_into_chunks body) _ own
              (find_merge_target-IsChosen F match_dist vector_search casefold user_id table title
                body);
      },
      tt,
    )
    target_of-AreProposals (str title) null tags h k = cc
    target_of-AreProposals (str title) (bool b) tags h k =
        only_titled-AreProposals title (bool b) tags _ h k (λ t e. cc) (by_title title)
    target_of-AreProposals (str title) (num n) tags h k =
        only_titled-AreProposals title (num n) tags _ h k (λ t e. cc) (by_title title)
    target_of-AreProposals (str title) (real s) tags h k =
        only_titled-AreProposals title (real s) tags _ h k (λ t e. cc) (by_title title)
    target_of-AreProposals (str title) (arr xs) tags h k =
        only_titled-AreProposals title (arr xs) tags _ h k (λ t e. cc) (by_title title)
    target_of-AreProposals (str title) (obj fs) tags h k =
        only_titled-AreProposals title (obj fs) tags _ h k (λ t e. cc) (by_title title)
    target_of-AreProposals null body tags h k = tt
    target_of-AreProposals (bool b) body tags h k = tt
    target_of-AreProposals (num n) body tags h k = tt
    target_of-AreProposals (real s) body tags h k = tt
    target_of-AreProposals (arr xs) body tags h k = tt
    target_of-AreProposals (obj fs) body tags h k = tt

    propose-AreProposals :
        (title body tags : Json)
        → AreProposals (propose F match_dist vector_search casefold user_id table title body tags)
    propose-AreProposals title body tags =
        if_intro AreProposals (truthy title && truthy body) _ _
          (λ e.
            let (h, k) = &&-true (truthy title) (truthy body) e in
            target_of-AreProposals title body tags h k)
          (λ _. tt)

    propose_item-AreProposals :
        (v : Json) → AreProposals (propose_item F match_dist vector_search casefold user_id table v)
    propose_item-AreProposals (obj fs) =
        propose-AreProposals (or_none (get_field (codes "title") fs))
          (or_none (get_field (codes "body") fs)) (or_empty_list (get_field (codes "tags") fs))
    propose_item-AreProposals null = tt
    propose_item-AreProposals (bool b) = tt
    propose_item-AreProposals (num n) = tt
    propose_item-AreProposals (real s) = tt
    propose_item-AreProposals (str s) = tt
    propose_item-AreProposals (arr xs) = tt

    joined-AreProposals :
        (a b : Outcome (List Candidate))
        → AreProposals a
        → AreProposals b
        → AreProposals (a >>= (λ out. b >>= (λ more. ok (out ++ more))))
    joined-AreProposals raised b h k = tt
    joined-AreProposals (ok out) raised h k = tt
    joined-AreProposals (ok out) (ok more) h k = All-append IsProposal out more h k

    propose_all-AreProposals :
        (vs : Items)
        → AreProposals (propose_all F match_dist vector_search casefold user_id table vs)
    unfolding propose_all
    propose_all-AreProposals nil = tt
    propose_all-AreProposals (cons v vs) =
        joined-AreProposals _ _ (propose_item-AreProposals v) (propose_all-AreProposals vs)

module _ (F : Floats) (match_dist : F.Float) (vector_search : Text → ℕ → ℕ → List (Row F))
    (casefold : Text → Text) (J : Codec) (llm : Text → Outcome Text) {Vector : Type 0}
    (user_id conv_id : ℕ) (db : ChatDb) (notes : NotesDb Vector) where
  -- The user has no conversation with the id.
  abbrev pub IsNotOwn : Type 0
  IsNotOwn =
      All (λ (c : Conversation). (c.id ≡ conv_id) × (c.user_id ≡ user_id) → ⊥) db.conversations

  abbrev pub IsOwn : Type 0
  IsOwn = (c : Conversation) × In c db.conversations × (c.id ≡ conv_id) × (c.user_id ≡ user_id)

  -- The answer to a request, by whose the conversation is.
  abbrev pub IsDistilled : Outcome (List Candidate) → Type 0
  IsDistilled out =
      (IsNotOwn × (out ≡ ok []))
      ⊎ (IsOwn × AreProposals F match_dist vector_search casefold user_id notes.notes out)

  -- If the user has no conversation with the id, there are no candidates. If the user has one, then
  -- whatever the LLM answers, if the request succeeds, every candidate has a title and a body that
  -- are not empty, and a candidate whose body is a text has the target that find_merge_target may
  -- choose for it. With a search that finds only the user's chunks, the target of a candidate is
  -- one of the user's notes.
  pub distill-IsDistilled :
      FindsOwn F match_dist vector_search casefold user_id notes.notes
      → IsDistilled (distill F match_dist vector_search casefold J llm user_id conv_id db notes)
  unfolding distill
  distill-IsDistilled own =
      owned (own_conversation conv_id user_id db.conversations)
        (own_conversation-IsFound conv_id user_id db.conversations)
    where
      answered :
          (o : Outcome Text)
          → AreProposals F match_dist vector_search casefold user_id notes.notes (
              o >>= (λ raw.
                propose_all F match_dist vector_search casefold user_id notes.notes
                  (extract_json_array J raw)))
      answered raised = tt
      answered (ok raw) =
          propose_all-AreProposals F match_dist vector_search casefold user_id notes.notes own
            (extract_json_array J raw)

      owned :
          (c : Option Conversation)
          → IsFound conv_id user_id db.conversations c
          → IsDistilled
              (distill_own F match_dist vector_search casefold J llm user_id conv_id db notes c)
      owned none f = inl (f, refl)
      owned (some c) (i, e, g) = inr ((c, i, e, g), answered (llm _))

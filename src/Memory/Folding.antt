-- ===== src/Memory/Folding.antt =====
-- Folding old turns into the summary, maybe_update_summary of app/memory.py.
use vegapunk_web.Base.{
  ℕ, zero, suc, ◌-◌, ◌≤◌, ◌<◌, Bool, true, ◌&&◌, Option, none, some, List, [], ◌∷◌, ◌++◌, concat,
  length, take, drop, keep, last_or, All, In, In-keep_inv, In-append_left, All-append_left,
  All-append_right, All-keep, concat-append, append-nil, take-append-drop, length-drop, ltb, eqb,
  lt→ltb, le→ltb, if_intro, ◌≡◌, refl, ap, sym, subst, ◌∙◌, inl, inr, arith, Bool-cases,
}
use mathlib.Core.Option.{some-injective}
use vegapunk_web.Text.{Text}
use vegapunk_web.Json.{Outcome, ok, raised, ◌>>=◌, or_raise}
use vegapunk_web.Memory.{
  Message, Conversation, ChatDb, Fold, group_turns, all_but_last, fold_to_turns,
  summary_trigger_turns, last_id, last_turn, find_conv, load_conv, is_after, unsummarized_msgs,
  plan_fold, planned, write_summary, commit_summary, summary_prompt, maybe_update_summary,
}
use vegapunk_web.Memory.Turns.{
  IsTurn, StartsByUser, LaterStart, group_turns-IsPartition, group_turns-concat,
}

-- The rows stand in the order of their ids.
abbrev pub IsIncreasing : List Message → Type 0
IsIncreasing [] = Unit
IsIncreasing (m ∷ ms) = All (λ x. m.id < x.id) ms × IsIncreasing ms

IsIncreasing-keep :
    (p : Message → Bool) (ms : List Message) → IsIncreasing ms → IsIncreasing (keep p ms)
IsIncreasing-keep p [] h = tt
IsIncreasing-keep p (m ∷ ms) h =
    if_intro IsIncreasing (p m) _ _
      (λ _. (All-keep (λ (x : Message). m.id < x.id) p ms h.0, IsIncreasing-keep p ms h.1))
      (λ _. IsIncreasing-keep p ms h.1)

keep-keep :
    (p q r : Message → Bool) (ms : List Message)
    → ((m : Message) → p m ≡ (q m && r m))
    → keep p ms ≡ keep r (keep q ms)
keep-keep p q r [] h = refl
keep-keep p q r (m ∷ ms) h = ground (arith, h m, keep-keep p q r ms h)

keep-All : (u : ℕ) (ms : List Message) → All (λ x. u < x.id) ms → keep (λ m. ltb u m.id) ms ≡ ms
keep-All u [] h = refl
keep-All u (m ∷ ms) h = rw (lt→ltb u m.id h.0) (ap (◌∷◌ m) (keep-All u ms h.1))

-- Behind the last id of a front part stands the rest.
keep_after_last :
    (m : Message) (ms rest : List Message)
    → IsIncreasing ((m ∷ ms) ++ rest)
    → let last = last_or m ms in keep (λ x. ltb last.id x.id) ((m ∷ ms) ++ rest) ≡ rest
keep_after_last m [] rest h = rw (le→ltb m.id m.id (omega arith)) (keep-All m.id rest h.0)
keep_after_last m (n ∷ ms) rest h =
    rw (le→ltb _ m.id (last-le m n ms rest h)) (keep_after_last n ms rest h.1)
  where
    last-le :
        (m n : Message) (ms rest : List Message)
        → IsIncreasing ((m ∷ n ∷ ms) ++ rest)
        → let last = last_or n ms in m.id ≤ last.id
    last-le m n [] rest h = omega (arith, h.0.0)
    last-le m n (k ∷ ms) rest h = last-le m k ms rest (h.0.1, h.1.1)

last_id-append :
    (xs : List Message) (y : Message) (ys : List Message)
    → last_id (xs ++ (y ∷ ys)) ≡ last_id (y ∷ ys)
last_id-append [] y ys = refl
last_id-append (x ∷ []) y ys = refl
last_id-append (x ∷ z ∷ xs) y ys = last_id-append (z ∷ xs) y ys

last_id-last_turn :
    (ts : List (List Message)) → All IsTurn ts → last_id (last_turn ts) ≡ last_id (concat ts)
last_id-last_turn [] h = refl
last_id-last_turn ([] ∷ ts) h = absurd h.0
last_id-last_turn ((m ∷ ms) ∷ []) h = ap last_id (sym (append-nil (m ∷ ms)))
last_id-last_turn ((m ∷ ms) ∷ [] ∷ ts) h = absurd h.1.0
last_id-last_turn ((m ∷ ms) ∷ (n ∷ ns) ∷ ts) h =
    last_id-last_turn ((n ∷ ns) ∷ ts) h.1 ∙ sym (last_id-append (m ∷ ms) n (ns ++ concat ts))

abbrev in_window : ℕ → Option ℕ → Message → Bool
in_window conv_id upto m = eqb m.conv_id conv_id && is_after upto m

later_window :
    (conv_id u : ℕ) (upto : Option ℕ) (x m : Message)
    → in_window conv_id upto x ≡ true
    → x.id ≡ u
    → in_window conv_id (some u) m ≡ (in_window conv_id upto m && ltb u m.id)
later_window conv_id u none x m h e = ground arith
later_window conv_id u (some w) x m h e = ground arith

-- Moving the bound to the id of a message of the window cuts the window behind it.
window_cut :
    (ms : List Message) (conv_id : ℕ) (upto : Option ℕ) (x : Message)
    → In x (keep (in_window conv_id upto) ms)
    → keep (in_window conv_id (some x.id)) ms
      ≡ keep (λ m. ltb x.id m.id) (keep (in_window conv_id upto) ms)
window_cut ms conv_id upto x i =
    keep-keep (in_window conv_id (some x.id)) (in_window conv_id upto) (λ m. ltb x.id m.id) ms
      (λ m. later_window conv_id x.id upto x m (In-keep_inv (in_window conv_id upto) x ms i).0 refl)

In-last_or : (m : Message) (ms : List Message) → In (last_or m ms) (m ∷ ms)
In-last_or m [] = inl refl
In-last_or m (n ∷ ms) = inr (In-last_or n ms)

-- A window that splits into `front` and `rest`, bounded anew by the last id of `front`, is `rest`.
window_rest :
    (ms front rest : List Message) (conv_id u : ℕ) (upto : Option ℕ)
    → IsIncreasing ms
    → keep (in_window conv_id upto) ms ≡ front ++ rest
    → last_id front ≡ ok u
    → keep (in_window conv_id (some u)) ms ≡ rest
window_rest ms [] rest conv_id u upto inc e l = cc
window_rest ms (m ∷ front) rest conv_id u upto inc e l =
    let last = last_or m front in
    let id_eq : last.id ≡ u = cc in
    rw (← id_eq) (
      window_cut ms conv_id upto last (
        subst (λ (w : List Message). In last w) (sym e)
          (In-append_left last (m ∷ front) rest (In-last_or m front)))
      ∙ ap (keep (λ x. ltb last.id x.id)) e
      ∙ keep_after_last m front rest
          (subst IsIncreasing e (IsIncreasing-keep (in_window conv_id upto) ms inc)))

find_conv-write_summary :
    (conv_id : ℕ) (summary : Text) (upto : ℕ) (cs : List Conversation) (c : Conversation)
    → find_conv conv_id cs ≡ some c
    → find_conv conv_id (write_summary conv_id summary upto cs)
      ≡ some (record c { summary = some summary; summary_upto_msg_id = some upto })
unfolding find_conv
find_conv-write_summary conv_id summary upto [] c h = cc
find_conv-write_summary conv_id summary upto (d ∷ cs) c h = elim (Bool-cases (eqb d.id conv_id)) [
  | inl e ↦
      rw (e, e)
        (ap
          (λ (x : Conversation).
            some (record x { summary = some summary; summary_upto_msg_id = some upto }))
          (some-injective d c (rw e at h)))
  | inr e ↦ rw (e, e) (find_conv-write_summary conv_id summary upto cs c (rw e at h))
]

-- What a run folds, and what it leaves in the window.
pub record Folds (db after : ChatDb) (conv_id : ℕ) (f : Fold) (summary : Text) : Type 0 where
  pub conv : Conversation
  pub is_conv : load_conv db conv_id ≡ ok conv
  pub bounded_anew :
      load_conv after conv_id
      ≡ ok (record conv { summary = some summary; summary_upto_msg_id = some f.upto })
  pub prompt_has : f.prompt ≡ summary_prompt conv.summary f.folded
  pub window : List (List Message)
  pub window_is : group_turns (unsummarized_msgs after conv_id (some f.upto)) ≡ window
  pub window_length : length window ≡ fold_to_turns
  pub none_lost :
      group_turns (unsummarized_msgs db conv_id conv.summary_upto_msg_id) ≡ f.folded ++ window
  pub trigger : summary_trigger_turns < length (f.folded ++ window)
  pub messages_kept : after.messages ≡ db.messages

-- The outcome of a run that folds, for the outcome of the request to the LLM.
unfoldable pub FoldsIf : ChatDb → ℕ → Fold → Outcome Text → Outcome ChatDb → Type 0
FoldsIf db conv_id f raised result = result ≡ raised
FoldsIf db conv_id f (ok summary) (ok after) = Folds db after conv_id f summary
FoldsIf db conv_id f (ok summary) raised = ⊥

plan_fold-some :
    (conv : Conversation) (msgs : List Message) (f : Fold)
    → plan_fold conv msgs ≡ ok (some f)
    → (f.folded ≡ all_but_last fold_to_turns (group_turns msgs))
      × (last_id (last_turn f.folded) ≡ ok f.upto)
      × (f.prompt ≡ summary_prompt conv.summary f.folded)
      × (summary_trigger_turns < length (group_turns msgs))
unfolding plan_fold
plan_fold-some conv msgs f h = ground arith

All-take : (n : ℕ) (ts : List (List Message)) → All IsTurn ts → All IsTurn (take n ts)
All-take n ts h = All-append_left IsTurn (take n ts) (drop n ts) (rw (take-append-drop n ts) h)

-- The last turns of a window are what `_group_turns` makes of their messages.
group_turns-drop :
    (n : ℕ) (ts : List (List Message))
    → All IsTurn ts
    → LaterStart ts
    → 0 < n
    → group_turns (concat (drop n ts)) ≡ drop n ts
group_turns-drop zero ts h l p = absurd (omega arith)
group_turns-drop (suc n) [] h l p = group_turns-concat [] tt tt
group_turns-drop (suc n) (t ∷ ts) h l p =
    group_turns-concat (drop n ts)
      (All-append_right IsTurn (take n ts) (drop n ts) (rw (take-append-drop n ts) h.1))
      (All-append_right StartsByUser (take n ts) (drop n ts) (rw (take-append-drop n ts) l))

planned-Folds :
    (db : ChatDb) (conv_id : ℕ) (f : Fold) (summary : Text)
    → IsIncreasing db.messages
    → planned db conv_id ≡ ok (some f)
    → Folds db (commit_summary db conv_id summary f.upto) conv_id f summary
unfolding planned load_conv unsummarized_msgs commit_summary
planned-Folds db conv_id f summary inc = go (find_conv conv_id db.conversations) refl
  where
    go :
        (o : Option Conversation)
        → find_conv conv_id db.conversations ≡ o
        → (do
          conv ← or_raise o
          plan_fold conv (unsummarized_msgs db conv_id conv.summary_upto_msg_id))
          ≡ ok (some f)
        → Folds db (commit_summary db conv_id summary f.upto) conv_id f summary
    go none e h = cc
    go (some conv) e h =
        let msgs = unsummarized_msgs db conv_id conv.summary_upto_msg_id in
        let turns = group_turns msgs in
        let n = length turns - fold_to_turns in
        let (p, t, l) = group_turns-IsPartition msgs in
        let (folded_is, upto_is, prompt_is, trig) = plan_fold-some conv msgs f h in
        let splits : f.folded ++ drop n turns ≡ turns =
          ap (λ (x : List (List Message)). x ++ drop n turns) folded_is
          ∙ take-append-drop n turns in
        let rest_is : keep (in_window conv_id (some f.upto)) db.messages ≡ concat (drop n turns) =
          window_rest db.messages (concat f.folded) (concat (drop n turns)) conv_id f.upto
            conv.summary_upto_msg_id inc
            (sym p ∙ ap concat (sym splits) ∙ concat-append f.folded (drop n turns))
            (sym (last_id-last_turn f.folded (rw folded_is (All-take n turns t))) ∙ upto_is) in
        record {
          conv = conv;
          is_conv = rw e;
          bounded_anew =
              ap or_raise (find_conv-write_summary conv_id summary f.upto db.conversations conv e);
          prompt_has = prompt_is;
          window = drop n turns;
          window_is = ap group_turns rest_is ∙ group_turns-drop n turns t l (omega (arith, trig));
          window_length = omega (arith, length-drop n turns, trig);
          none_lost = sym splits;
          trigger = rw splits trig;
          messages_kept = refl;
        }

-- A run that decides to fold, with more turns in the window than the trigger and the messages in the
-- order of their ids, asks the LLM with the folded turns and the old summary in the prompt. If the
-- LLM answers, the run succeeds: the answer is the new summary and is written together with the new
-- bound, the turns of the window before are the folded turns and then the turns of the window after,
-- which are the last `FOLD_TO_TURNS`, and no message is changed. If the LLM raises, so does the run.
pub maybe_update_summary-FoldsIf :
    (llm : Text → Outcome Text) (db : ChatDb) (conv_id : ℕ) (f : Fold)
    → IsIncreasing db.messages
    → planned db conv_id ≡ ok (some f)
    → FoldsIf db conv_id f (llm f.prompt) (maybe_update_summary llm db conv_id)
unfolding maybe_update_summary FoldsIf
maybe_update_summary-FoldsIf llm db conv_id f inc h = rw h (go (llm f.prompt))
  where
    go :
        (o : Outcome Text)
        → FoldsIf db conv_id f o
            (do new_summary ← o; ok (commit_summary db conv_id new_summary f.upto))
    go raised = refl
    go (ok summary) = planned-Folds db conv_id f summary inc h

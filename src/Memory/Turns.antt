-- ===== src/Memory/Turns.antt =====
-- Cutting messages into turns, _group_turns of app/memory.py.
use vegapunk_web.Base.{
  true, false, List, [], ◌∷◌, ◌++◌, concat, All, ◌≡◌, refl, ap, sym, ◌∙◌, append_assoc, append-nil,
  if_intro,
}
use vegapunk_web.Memory.{Message, is_user, group, group_turns}

concat-group : (cur ms : List Message) → concat (group cur ms) ≡ cur ++ ms
unfolding group
concat-group [] [] = refl
concat-group (c ∷ cur) [] = refl
concat-group [] (m ∷ ms) = concat-group (m ∷ []) ms
concat-group (c ∷ cur) (m ∷ ms) =
    if_intro (λ (ts : List (List Message)). concat ts ≡ (c ∷ cur) ++ (m ∷ ms)) (is_user m) _ _
      (λ _. ap (λ (x : List Message). (c ∷ cur) ++ x) (concat-group (m ∷ []) ms))
      (λ _. concat-group (c ∷ (cur ++ (m ∷ []))) ms ∙ ap (◌∷◌ c) (append_assoc cur (m ∷ []) ms))

-- A turn is not empty, and no message behind its first is the user's.
abbrev pub IsTurn : List Message → Type 0
IsTurn [] = ⊥
IsTurn (m ∷ ms) = All (λ x. is_user x ≡ false) ms

abbrev pub StartsByUser : List Message → Type 0
StartsByUser [] = ⊥
StartsByUser (m ∷ ms) = is_user m ≡ true

-- Every turn but the first starts with a message of the user.
abbrev pub LaterStart : List (List Message) → Type 0
LaterStart [] = Unit
LaterStart (t ∷ ts) = All StartsByUser ts

All-snoc :
    (cur : List Message) (m : Message)
    → All (λ x. is_user x ≡ false) cur
    → is_user m ≡ false
    → All (λ x. is_user x ≡ false) (cur ++ (m ∷ []))
All-snoc [] m h e = (e, tt)
All-snoc (c ∷ cur) m h e = (h.0, All-snoc cur m h.1 e)

group-shape :
    (c : Message) (cur ms : List Message)
    → All (λ x. is_user x ≡ false) cur
    → All IsTurn (group (c ∷ cur) ms)
      × (is_user c ≡ true → All StartsByUser (group (c ∷ cur) ms))
      × LaterStart (group (c ∷ cur) ms)
unfolding group
group-shape c cur [] h = ((h, tt), λ u. (u, tt), tt)
group-shape c cur (m ∷ ms) h =
    if_intro
      (λ (ts : List (List Message)).
        All IsTurn ts × (is_user c ≡ true → All StartsByUser ts) × LaterStart ts)
      (is_user m) _ _ (λ e. let (t, s, l) = group-shape m [] ms tt in ((h, t), λ u. (u, s e), s e))
      (λ e. group-shape c (cur ++ (m ∷ [])) ms (All-snoc cur m h e))

-- The turns, read one after the other, are the messages; no turn is empty, a turn has no user
-- message behind its first message, and every turn but the first starts with a user message.
pub group_turns-IsPartition :
    (ms : List Message)
    → (concat (group_turns ms) ≡ ms) × All IsTurn (group_turns ms) × LaterStart (group_turns ms)
unfolding group_turns
group_turns-IsPartition [] = (refl, tt, tt)
group_turns-IsPartition (m ∷ ms) =
    let (t, s, l) = group-shape m [] ms tt in (concat-group [] (m ∷ ms), t, l)

group-append :
    (c : Message) (cur ms rest : List Message)
    → All (λ x. is_user x ≡ false) ms
    → group (c ∷ cur) (ms ++ rest) ≡ group (c ∷ (cur ++ ms)) rest
unfolding group
group-append c cur [] rest h = ap (λ (x : List Message). group (c ∷ x) rest) (sym (append-nil cur))
group-append c cur (m ∷ ms) rest h = rw (h.0) (
    group-append c (cur ++ (m ∷ [])) ms rest h.1
    ∙ ap (λ (x : List Message). group (c ∷ x) rest) (append_assoc cur (m ∷ []) ms))

group-concat :
    (c : Message) (cur : List Message) (ts : List (List Message))
    → All IsTurn ts
    → All StartsByUser ts
    → group (c ∷ cur) (concat ts) ≡ (c ∷ cur) ∷ ts
unfolding group
group-concat c cur [] h s = refl
group-concat c cur ([] ∷ ts) h s = absurd h.0
group-concat c cur ((m ∷ ms) ∷ ts) h s =
    rw (s.0)
      (ap (◌∷◌ (c ∷ cur)) (group-append m [] ms (concat ts) h.0 ∙ group-concat m ms ts h.1 s.1))

-- Turns of this shape are what `_group_turns` gives for their messages.
pub group_turns-concat :
    (ts : List (List Message)) → All IsTurn ts → All StartsByUser ts → group_turns (concat ts) ≡ ts
unfolding group_turns
group_turns-concat [] h s = refl
group_turns-concat ([] ∷ ts) h s = absurd h.0
group_turns-concat ((m ∷ ms) ∷ ts) h s =
    group-append m [] ms (concat ts) h.0 ∙ group-concat m ms ts h.1 s.1

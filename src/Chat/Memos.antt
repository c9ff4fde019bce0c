-- ===== src/Chat/Memos.antt =====
-- Writing and reading the memo of a conversation, app/routes/memo.py.
use vegapunk_web.Base.{
  ℕ, true, false, some, List, [], ◌∷◌, ◌≡◌, ◌≢◌, refl, ap, inl, inr, arith, if◌then◌else◌,
  Bool-cases,
}
use mathlib.Core.Option.{some-injective}
use vegapunk_web.Text.{Text}
use vegapunk_web.Memory.{Conversation, ChatDb}
use vegapunk_web.Chat.{is_own, own_conversation, update_own, get_conv_memo, put_conv_memo}

abbrev with_memo : Text → Conversation → Conversation
with_memo body c = record c { memo = body }

own-update_own :
    (conv_id user_id other : ℕ) (body : Text) (cs : List Conversation)
    → user_id ≢ other
    → own_conversation conv_id other (update_own conv_id user_id (with_memo body) cs)
      ≡ own_conversation conv_id other cs
unfolding own_conversation
own-update_own conv_id user_id other body [] ne = refl
own-update_own conv_id user_id other body (c ∷ cs) ne =
    elim (Bool-cases (is_own conv_id user_id c)) [
      | inl e ↦
          let f : is_own conv_id other c ≡ false = ground arith in
          rw (e, f) (own-update_own conv_id user_id other body cs ne)
      | inr e ↦ rw e (
          ap (λ x. if is_own conv_id other c then some c else x)
            (own-update_own conv_id user_id other body cs ne))
    ]

own-update_own_self :
    (conv_id user_id : ℕ) (body : Text) (c : Conversation) (cs : List Conversation)
    → own_conversation conv_id user_id cs ≡ some c
    → own_conversation conv_id user_id (update_own conv_id user_id (with_memo body) cs)
      ≡ some (with_memo body c)
unfolding own_conversation
own-update_own_self conv_id user_id body c [] h = cc
own-update_own_self conv_id user_id body c (d ∷ cs) h =
    elim (Bool-cases (is_own conv_id user_id d)) [
      | inl e ↦ rw (e, e) (ap (λ x. some (with_memo body x)) (some-injective d c (rw e at h)))
      | inr e ↦ rw (e, e) (own-update_own_self conv_id user_id body c cs (rw e at h))
    ]

-- A memo that a user writes for a conversation of theirs is read back, and what another user reads
-- for that conversation is what it was.
pub put_conv_memo_read :
    (conv_id user_id other : ℕ) (body : Text) (c : Conversation) (db : ChatDb)
    → own_conversation conv_id user_id db.conversations ≡ some c
    → user_id ≢ other
    → let (found, after) = put_conv_memo conv_id user_id body db in
      (found ≡ true)
      × (get_conv_memo conv_id user_id after ≡ some body)
      × (get_conv_memo conv_id other after ≡ get_conv_memo conv_id other db)
unfolding put_conv_memo get_conv_memo
put_conv_memo_read conv_id user_id other body c db h ne = (
  rw h,
  rw (own-update_own_self conv_id user_id body c db.conversations h),
  rw (own-update_own conv_id user_id other body db.conversations ne),
)

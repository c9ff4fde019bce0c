-- ===== src/Tests/People.antt =====
-- The theorems on accounts and memos at concrete inputs.
use vegapunk_web.Base.{true, Option, none, some, [], ◌∷◌, ◌≡◌, refl, list_beq}
use vegapunk_web.Text.{Text, codes}
use vegapunk_web.Accounts.{Status, Profile, AccountsDb, user_of, resolve_user, link_profile}
use vegapunk_web.Accounts.Identities.{resolve_user_again, identity_kept}
use vegapunk_web.Memory.{Conversation, ChatDb}
use vegapunk_web.Chat.{own_conversation, get_conv_memo, put_conv_memo}
use vegapunk_web.Chat.Memos.{put_conv_memo_read}

abbrev profile : Option Text → Profile
profile email = record { provider = codes "github"; sub = codes "9"; email = email; name = none }

abbrev accounts : AccountsDb
accounts = record {
  users =
      record { id = 1; email = codes "e"; name = none; status = Status.active; merged_into = none }
      ∷ [];
  identities = [];
  next_user = 2;
}

resolve_user_again_example :
    let (user_id, after) = resolve_user (profile (some (codes "e"))) accounts in
    resolve_user (profile none) after ≡ (user_id, after)
resolve_user_again_example =
    resolve_user_again (profile (some (codes "e"))) (profile none) accounts refl refl

abbrev linked_accounts : AccountsDb
linked_accounts = record accounts {
  identities =
      record { user_id = 1; provider = codes "github"; sub = codes "9"; email = none } ∷ [];
}

identity_kept_example :
    (user_of (codes "github") (codes "9") (resolve_user (profile none) linked_accounts).1.identities
      ≡ some 1)
    × (user_of
          (codes "github")
          (codes "9")
          (link_profile (profile none) (some 5) linked_accounts).1.identities
        ≡ some 1)
unfolding user_of list_beq
identity_kept_example =
    identity_kept (profile none) (some 5) (codes "github") (codes "9") 1 linked_accounts refl

abbrev talk : Conversation
talk = record {
  id = 1;
  user_id = 7;
  title = none;
  summary = none;
  summary_upto_msg_id = none;
  memo = [];
}

abbrev chats : ChatDb
chats = record { conversations = talk ∷ []; messages = []; next_conversation = 2; next_message = 1 }

put_conv_memo_read_example :
    let (found, after) = put_conv_memo 1 7 (codes "m") chats in
    (found ≡ true)
    × (get_conv_memo 1 7 after ≡ some (codes "m"))
    × (get_conv_memo 1 8 after ≡ get_conv_memo 1 8 chats)
unfolding own_conversation
put_conv_memo_read_example = put_conv_memo_read 1 7 8 (codes "m") talk chats refl (λ e. cc)

-- ===== src/Session.antt =====
-- app/session.py: the store interface, the fallback store, and the sessions, one-time states and
-- link tokens kept in it. A fresh random token is an argument; `decode` of bytes is the identity.
pub mod Laws
use vegapunk_web.Base.{ℕ, ◌*◌, Option, none, some, [], ◌∷◌, ◌++◌, ◌≡◌, if◌then◌else◌, ◌==◌}
use vegapunk_web.Base.Dict
use vegapunk_web.Base.Dict.{Dict}
use vegapunk_web.Text.{Text, text_eq, codes}
use vegapunk_web.Json.{
  Json, num, obj, end, field, Outcome, ok, raised, or_raise, subscript, Codec, ◌>>=◌,
}

-- The methods that the program requires of a store. Time is not modelled: between the calls of a
-- statement no entry expires.
pub record Store : Type 1 where
  pub State : Type 0
  pub setex : State → Text → ℕ → Text → State
  pub get : State → Text → Option Text
  pub delete : State → Text → State

pub record IsLawful (S : Store) : Type 0 where
  pub get-setex :
      (s : S.State) (j k : Text) (ttl : ℕ) (v : Text)
      → S.get (S.setex s k ttl v) j ≡ (if k == j then some v else S.get s j)
  pub get-delete :
      (s : S.State) (j k : Text) → S.get (S.delete s k) j ≡ (if k == j then none else S.get s j)

-- `MemoryStore`: a dict, the TTL ignored
abbrev pub memory_store : Store
memory_store = record {
  State = Dict Text Text;
  setex = λ d key ttl value. Dict.insert key value d;
  get = λ d key. Dict.lookup key d;
  delete = λ d key. Dict.erase key d;
}

abbrev pub sess_prefix : Text
sess_prefix = codes "sess:"

abbrev pub oauth_prefix : Text
oauth_prefix = codes "oauthstate:"

abbrev pub link_prefix : Text
link_prefix = codes "linktoken:"

abbrev pub linkstate_prefix : Text
linkstate_prefix = codes "linkstate:"

abbrev pub authreq_state_prefix : Text
authreq_state_prefix = codes "authreqstate:"

abbrev pub oauth_state_ttl : ℕ
oauth_state_ttl = 600

abbrev pub link_token_ttl : ℕ
link_token_ttl = 600

-- `{"user_id": user_id}`
abbrev pub user_dict : ℕ → Json
user_dict user_id = obj (field (codes "user_id") (num user_id) end)

-- The bodies that read and decode a raw value.
abbrev pub decode_raw : Codec → Option Text → Outcome (Option Json)
decode_raw J none = ok none
decode_raw J (some raw) = do v ← or_raise (J.loads raw); ok (some v)

abbrev pub decode_user : Codec → Option Text → Outcome (Option Json)
decode_user J none = ok none
decode_user J (some raw) = do
  v ← or_raise (J.loads raw)
  user_id ← subscript (codes "user_id") v
  ok (some user_id)

module _ (S : Store) where
  -- `get` then `delete`: what the `pop_…` functions share
  unfoldable pub pop_raw : S.State → Text → Option Text × S.State
  pop_raw s key = (S.get s key, S.delete s key)

  unfoldable pub destroy_session : S.State → Text → S.State
  destroy_session s token = S.delete s (sess_prefix ++ token)

  unfoldable pub stash_oauth_state : S.State → Text → Text → S.State
  stash_oauth_state s state provider = S.setex s (oauth_prefix ++ state) oauth_state_ttl provider

  unfoldable pub pop_oauth_state : S.State → Text → Option Text × S.State
  unfolding pop_raw
  pop_oauth_state s state = pop_raw s (oauth_prefix ++ state)

  unfoldable pub stash_link_state : S.State → Text → Text → S.State
  stash_link_state s state token = S.setex s (linkstate_prefix ++ state) oauth_state_ttl token

  unfoldable pub pop_link_state : S.State → Text → Option Text × S.State
  unfolding pop_raw
  pop_link_state s state = pop_raw s (linkstate_prefix ++ state)

  unfoldable pub stash_authreq_state : S.State → Text → Text → S.State
  stash_authreq_state s state authreq_id =
      S.setex s (authreq_state_prefix ++ state) oauth_state_ttl authreq_id

  unfoldable pub pop_authreq_state : S.State → Text → Option Text × S.State
  unfolding pop_raw
  pop_authreq_state s state = pop_raw s (authreq_state_prefix ++ state)

  module _ (J : Codec) where
    unfoldable pub create_session : S.State → ℕ → ℕ → Text → Text × S.State
    create_session s user_id ttl token =
        (token, S.setex s (sess_prefix ++ token) ttl (J.dumps (user_dict user_id)))

    unfoldable pub get_session : S.State → Text → Outcome (Option Json)
    get_session s token = decode_raw J (S.get s (sess_prefix ++ token))

    unfoldable pub stash_link_token : S.State → Text → ℕ → S.State
    stash_link_token s token user_id =
        S.setex s (link_prefix ++ token) link_token_ttl (J.dumps (user_dict user_id))

    unfoldable pub pop_link_token : S.State → Text → Outcome (Option Json) × S.State
    unfolding pop_raw
    pop_link_token s token =
        let (raw, s') = pop_raw s (link_prefix ++ token) in (decode_user J raw, s')

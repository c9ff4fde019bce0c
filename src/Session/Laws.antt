-- ===== src/Session/Laws.antt =====
-- The keys and the sessions of app/session.py, and those of app/oauth_store.py.
use vegapunk_web.Base.{
  ℕ, false, Option, none, some, [], ◌∷◌, ◌++◌, ◌≡◌, ◌≢◌, refl, sym, ap, ◌∙◌, if◌then◌else◌, ◌==◌,
  ==-refl, ==-ne, eqb, list_beq,
}
use vegapunk_web.Base.Dict.{lookup-insert, lookup-erase}
use vegapunk_web.Text.{Text, text_eq, codes}
use vegapunk_web.Json.{ok, Codec, IsCodec}
use vegapunk_web.OauthStore.{
  client_prefix, authreq_prefix, code_prefix, token_prefix, refresh_prefix,
}
use vegapunk_web.Settings.{setting_prefix}
use vegapunk_web.Session.{
  Store, IsLawful, memory_store, sess_prefix, oauth_prefix, link_prefix, linkstate_prefix,
  authreq_state_prefix, user_dict, decode_raw, create_session, get_session, destroy_session,
  stash_oauth_state, pop_oauth_state,
}

-- The dict of `MemoryStore` is lawful.
pub memory_store-IsLawful : IsLawful memory_store
memory_store-IsLawful = record {
  get-setex = λ s j k ttl v. lookup-insert j k v s;
  get-delete = λ s j k. lookup-erase j k s;
}

-- A key up to its first colon, and what stands behind.
upto_colon : Text → Text
upto_colon [] = []
upto_colon (c ∷ s) = let rest = upto_colon s in if eqb c b':' then [] else c ∷ rest

behind_colon : Text → Text
behind_colon [] = []
behind_colon (c ∷ s) = let rest = behind_colon s in if eqb c b':' then s else rest

-- The families of keys that the program uses.
pub data Namespace : Type 0 where
  sess oauth_state link_token link_state authreq_state : Namespace
  client authreq auth_code access_token refresh_token setting : Namespace

abbrev pub prefix : Namespace → Text
prefix sess = sess_prefix
prefix oauth_state = oauth_prefix
prefix link_token = link_prefix
prefix link_state = linkstate_prefix
prefix authreq_state = authreq_state_prefix
prefix client = client_prefix
prefix authreq = authreq_prefix
prefix auth_code = code_prefix
prefix access_token = token_prefix
prefix refresh_token = refresh_prefix
prefix setting = setting_prefix

named : Text → Option Namespace
named name =
    if name == codes "sess"
    then some sess
    else if name == codes "oauthstate"
    then some oauth_state
    else if name == codes "linktoken"
    then some link_token
    else if name == codes "linkstate"
    then some link_state
    else if name == codes "authreqstate"
    then some authreq_state
    else if name == codes "mcpclient"
    then some client
    else if name == codes "authreq"
    then some authreq
    else if name == codes "code"
    then some auth_code
    else if name == codes "mcptok"
    then some access_token
    else if name == codes "mcprt"
    then some refresh_token
    else if name == codes "setting"
    then some setting
    else none

named-key : (n : Namespace) (t : Text) → named (upto_colon (prefix n ++ t)) ≡ some n
unfolding named upto_colon list_beq
named-key sess t = refl
named-key oauth_state t = refl
named-key link_token t = refl
named-key link_state t = refl
named-key authreq_state t = refl
named-key client t = refl
named-key authreq t = refl
named-key auth_code t = refl
named-key access_token t = refl
named-key refresh_token t = refl
named-key setting t = refl

behind-key : (n : Namespace) (t : Text) → behind_colon (prefix n ++ t) ≡ t
unfolding behind_colon
behind-key sess t = refl
behind-key oauth_state t = refl
behind-key link_token t = refl
behind-key link_state t = refl
behind-key authreq_state t = refl
behind-key client t = refl
behind-key authreq t = refl
behind-key auth_code t = refl
behind-key access_token t = refl
behind-key refresh_token t = refl
behind-key setting t = refl

-- Two keys that the sessions, the authorization server and the settings form in the shared store are
-- equal only with one prefix and for one token: no session token, code, state or setting can be
-- taken for one of another kind.
pub key_injective :
    (n m : Namespace) (t u : Text) → prefix n ++ t ≡ prefix m ++ u → (n ≡ m) × (t ≡ u)
key_injective n m t u e = (
  some-inj (sym (named-key n t) ∙ ap (λ k. named (upto_colon k)) e ∙ named-key m u),
  sym (behind-key n t) ∙ ap behind_colon e ∙ behind-key m u,
)
  where
    some-inj : {a b : Namespace} → some a ≡ some b → a ≡ b
    some-inj p = cc

pub key-ne : (n m : Namespace) (t u : Text) → n ≢ m → (prefix n ++ t == prefix m ++ u) ≡ false
key-ne n m t u h = ==-ne (prefix n ++ t) (prefix m ++ u) (λ e. h (key_injective n m t u e).0)

module _ (S : Store) (L : IsLawful S) where
  pub get-delete_self : (s : S.State) (k : Text) → S.get (S.delete s k) k ≡ none
  get-delete_self s k = L.get-delete s k k ∙ rw (==-refl k)

  pub get-setex_self :
      (s : S.State) (k : Text) (ttl : ℕ) (v : Text) → S.get (S.setex s k ttl v) k ≡ some v
  get-setex_self s k ttl v = L.get-setex s k k ttl v ∙ rw (==-refl k)

  -- A stashed login state gives back the provider that it was issued for, and only once.
  pub oauth_state_once :
      (s : S.State) (state provider : Text)
      → let s' = stash_oauth_state S s state provider in
        ((pop_oauth_state S s' state).0 ≡ some provider)
        × ((pop_oauth_state S (pop_oauth_state S s' state).1 state).0 ≡ none)
  unfolding stash_oauth_state pop_oauth_state
  oauth_state_once s state provider = (
    get-setex_self s (oauth_prefix ++ state) 600 provider,
    get-delete_self _ (oauth_prefix ++ state),
  )

  module _ (J : Codec) (C : IsCodec J) where
    -- A new session is the user's, the sessions of other tokens are what they were, and after the
    -- log-out the token is no session.
    pub session_lifecycle :
        (s : S.State) (user_id ttl : ℕ) (tok other : Text)
        → tok ≢ other
        → let s' = (create_session S J s user_id ttl tok).1 in
          (get_session S J s' tok ≡ ok (some (user_dict user_id)))
          × (get_session S J s' other ≡ get_session S J s other)
          × (get_session S J (destroy_session S s' tok) tok ≡ ok none)
    unfolding create_session get_session destroy_session
    session_lifecycle s user_id ttl tok other ne = (
      rw (get-setex_self, C.loads-dumps),
      ap (decode_raw J) (
          L.get-setex s (sess_prefix ++ other) (sess_prefix ++ tok) ttl _
          ∙ rw (
              ==-ne (sess_prefix ++ tok) (sess_prefix ++ other)
                (λ e. ne (key_injective sess sess tok other e).1))),
      rw get-delete_self,
    )

-- ===== src/OauthStore.antt =====
-- app/oauth_store.py: what the authorization server keeps in the store. A fresh random token is an
-- argument of the function that issues it.
pub mod Laws
pub mod Refinement
use vegapunk_web.Base.{ℕ, ◌*◌, Option, none, some, List, ◌++◌, ◌≡◌}
use vegapunk_web.Text.{Text, codes}
use vegapunk_web.Json.{Json, Items, str, arr, obj, end, field, strings, Outcome, Codec}
use vegapunk_web.Session.{Store, decode_raw}

abbrev pub client_prefix : Text
client_prefix = codes "mcpclient:"

abbrev pub authreq_prefix : Text
authreq_prefix = codes "authreq:"

abbrev pub code_prefix : Text
code_prefix = codes "code:"

abbrev pub token_prefix : Text
token_prefix = codes "mcptok:"

abbrev pub refresh_prefix : Text
refresh_prefix = codes "mcprt:"

abbrev pub client_ttl : ℕ
client_ttl = 60 * 60 * 24 * 30

abbrev pub authreq_ttl : ℕ
authreq_ttl = 600

abbrev pub code_ttl : ℕ
code_ttl = 60

abbrev pub access_ttl : ℕ
access_ttl = 60 * 60

abbrev pub refresh_ttl : ℕ
refresh_ttl = 60 * 60 * 24 * 30

-- `{"redirect_uris": redirect_uris, "client_name": client_name}`
abbrev pub client_dict : Items → Json → Json
client_dict redirect_uris client_name = obj (
    field (codes "redirect_uris") (arr redirect_uris) (field (codes "client_name") client_name end))

-- `{"user_id": user_id, "client_id": client_id, "scope": scope}`
abbrev pub token_dict : Json → Json → Json → Json
token_dict user_id client_id scope = obj (
    field (codes "user_id") user_id
      (field (codes "client_id") client_id (field (codes "scope") scope end)))

module _ (S : Store) (J : Codec) where
  unfoldable pub put : S.State → Text → ℕ → Json → S.State
  put s key ttl value = S.setex s key ttl (J.dumps value)

  unfoldable pub get : S.State → Text → Outcome (Option Json)
  get s key = decode_raw J (S.get s key)

  -- If the value does not decode, `_pop` raises before it deletes.
  abbrev pub pop_rest : S.State → Text → Outcome (Option Json) → Outcome (Option Json) × S.State
  pop_rest s key (Outcome.ok value) = (Outcome.ok value, S.delete s key)
  pop_rest s key Outcome.raised = (Outcome.raised, s)

  unfoldable pub pop : S.State → Text → Outcome (Option Json) × S.State
  unfolding get
  pop s key = pop_rest s key (get s key)

  unfoldable pub register_client : S.State → Items → Json → Text → S.State
  unfolding put
  register_client s redirect_uris client_name client_id =
      put s (client_prefix ++ client_id) client_ttl (client_dict redirect_uris client_name)

  unfoldable pub get_client : S.State → Text → Outcome (Option Json)
  unfolding get
  get_client s client_id = get s (client_prefix ++ client_id)

  unfoldable pub save_authreq : S.State → Json → Text → S.State
  unfolding put
  save_authreq s params authreq_id = put s (authreq_prefix ++ authreq_id) authreq_ttl params

  unfoldable pub pop_authreq : S.State → Text → Outcome (Option Json) × S.State
  unfolding pop
  pop_authreq s authreq_id = pop s (authreq_prefix ++ authreq_id)

  unfoldable pub issue_code : S.State → Json → Text → S.State
  unfolding put
  issue_code s params code = put s (code_prefix ++ code) code_ttl params

  unfoldable pub pop_code : S.State → Text → Outcome (Option Json) × S.State
  unfolding pop
  pop_code s code = pop s (code_prefix ++ code)

  unfoldable pub issue_access : S.State → Json → Json → Json → Text → S.State
  unfolding put
  issue_access s user_id client_id scope token =
      put s (token_prefix ++ token) access_ttl (token_dict user_id client_id scope)

  unfoldable pub resolve_access : S.State → Text → Outcome (Option Json)
  unfolding get
  resolve_access s token = get s (token_prefix ++ token)

  unfoldable pub issue_refresh : S.State → Json → Json → Json → Text → S.State
  unfolding put
  issue_refresh s user_id client_id scope token =
      put s (refresh_prefix ++ token) refresh_ttl (token_dict user_id client_id scope)

  unfoldable pub pop_refresh : S.State → Text → Outcome (Option Json) × S.State
  unfolding pop
  pop_refresh s token = pop s (refresh_prefix ++ token)

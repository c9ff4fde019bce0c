-- ===== src/Oauth.antt =====
-- app/routes/oauth.py: the authorization server. `urlparse` and authlib's S256 transform are
-- parameters; `redirect uri params` stands for a redirect to the URI with the encoded parameters
-- behind it.
pub mod Token
pub mod Grants
pub mod Pkce
pub mod Authorize
pub mod Flow
use vegapunk_web.Base.{
  ℕ, Bool, true, false, not, ◌&&◌, ◌||◌, Option, none, some, List, [], ◌∷◌, ◌++◌, is_nil, contains,
  if◌then◌else◌, ◌==◌,
}
use vegapunk_web.Base.Dict.{Dict, lookup}
use vegapunk_web.Text.{Text, text_eq, codes, starts_with}
use vegapunk_web.Json.{
  Json, Items, Fields, null, num, str, arr, obj, nil, cons, end, field, strings, get_field, Outcome,
  ok, raised, ◌>>=◌, subscript, is_str, truthy, Codec,
}
use vegapunk_web.Session.{Store, get_session}
use vegapunk_web.OauthStore.{
  access_ttl, register_client, get_client, save_authreq, pop_authreq, issue_code, pop_code,
  issue_access, issue_refresh, pop_refresh, resolve_access,
}

abbrev pub default_provider : Text
default_provider = codes "github"

abbrev pub allowed_hosts : List Text
allowed_hosts =
    codes "claude.ai" ∷ codes "claude.com" ∷ codes "chatgpt.com" ∷ codes "chat.openai.com" ∷ []

abbrev pub loopback_hosts : List Text
loopback_hosts = codes "localhost" ∷ codes "127.0.0.1" ∷ codes "::1" ∷ []

abbrev pub scope_default : Text
scope_default = codes "mcp"

-- The result of `urlparse`.
pub record Url : Type 0 where
  pub scheme : Text
  pub hostname : Option Text

pub data Reply : Type 0 where
  json : ℕ → Json → Reply
  redirect : Text → List (Text × Text) → Reply
  -- the redirect to `/auth/login/<provider>?authreq=<id>`
  login : Text → Text → Reply
  -- the handler raised
  failed : Reply

-- `d.get(key, default)`
abbrev pub param : Dict Text Text → Text → Text → Text
param d key default = elim (lookup key d) [ none ↦ default | some v ↦ v ]

abbrev pub oauth_error : Text → ℕ → Text → Reply
oauth_error error status description = json status (
    obj (
      field (codes "error") (str error) (
        if is_nil description
        then end
        else field (codes "error_description") (str description) end)))

abbrev pub invalid_grant : Text → Reply
invalid_grant description = oauth_error (codes "invalid_grant") 400 description

abbrev is_host_in : List Text → Option Text → Bool
is_host_in hosts none = false
is_host_in hosts (some h) = contains hosts h

module _ (urlparse : Text → Url) where
  unfoldable pub redirect_uri_allowed : Text → Bool
  redirect_uri_allowed uri =
      let p = urlparse uri in
      if p.scheme == codes "https" && is_host_in allowed_hosts p.hostname
      then true
      else p.scheme == codes "http" && is_host_in loopback_hosts p.hostname

  -- The loop over `redirect_uris`: the first one that is no text or is not allowed.
  unfoldable pub refused_uri : Items → Option Json
  unfolding redirect_uri_allowed
  refused_uri nil = none
  refused_uri (cons (str uri) xs) =
      let rest = refused_uri xs in if redirect_uri_allowed uri then rest else some (str uri)
  refused_uri (cons x xs) = some x

-- `f"{value}"`, where `show` formats what is no text
abbrev pub formatted : (Json → Text) → Json → Text
formatted show (str s) = s
formatted show v = show v

-- `d.get(key, default)` of a dict of JSON values
abbrev pub field_or : Text → Fields → Json → Json
field_or k fs default = elim (get_field k fs) [ none ↦ default | some v ↦ v ]

module _ (urlparse : Text → Url) (show : Json → Text) (S : Store) (J : Codec) where
  abbrev registered_reply : Text → Items → Json → Reply
  registered_reply client_id uris name = json 201 (
      obj (
        field (codes "client_id") (str client_id) (
          field (codes "redirect_uris") (arr uris) (
            field (codes "client_name") name (
              field (codes "token_endpoint_auth_method") (str (codes "none")) (
                field (codes "grant_types")
                  (arr (strings (codes "authorization_code" ∷ codes "refresh_token" ∷ [])))
                  (field (codes "response_types") (arr (strings (codes "code" ∷ []))) end)))))))

  register_checked : S.State → Fields → Text → Items → Option Json → Reply × S.State
  register_checked s fs client_id uris (some uri) = (
    oauth_error (codes "invalid_redirect_uri") 400
        (codes "허용되지 않은 redirect_uri: " ++ formatted show uri),
    s,
  )
  register_checked s fs client_id uris none =
      let name = field_or (codes "client_name") fs (str []) in
      (registered_reply client_id uris name, register_client S J s uris name client_id)

  -- `body.get("redirect_uris") or []`, then the tests on it
  register_uris : S.State → Fields → Text → Json → Reply × S.State
  register_uris s fs client_id (arr (cons x xs)) =
      register_checked s fs client_id (cons x xs) (refused_uri urlparse (cons x xs))
  register_uris s fs client_id _ =
      (oauth_error (codes "invalid_redirect_uri") 400 (codes "redirect_uris 필요"), s)

  -- `none` is a body that is no JSON; a body that is no dict has no `get`.
  unfoldable pub register : S.State → Option Json → Text → Reply × S.State
  unfolding register_uris register_checked
  register s none client_id =
      (oauth_error (codes "invalid_client_metadata") 400 (codes "본문(JSON) 필요"), s)
  register s (some (obj fs)) client_id =
      register_uris s fs client_id (field_or (codes "redirect_uris") fs null)
  register s (some _) client_id = (failed, s)

abbrev with_state : Text → List (Text × Text)
with_state state = if is_nil state then [] else (codes "state", state) ∷ []

unfoldable pub redirect_err : Text → Text → Text → Text → Reply
redirect_err redirect_uri error state desc = redirect redirect_uri (
    (codes "error", error)
    ∷ ((if is_nil desc then [] else (codes "error_description", desc) ∷ []) ++ with_state state))

-- `pending`
abbrev pub pending_dict : Text → Text → Text → Text → Text → Text → Json
pending_dict client_id redirect_uri code_challenge method scope state = obj (
    field (codes "client_id") (str client_id) (
      field (codes "redirect_uri") (str redirect_uri) (
        field (codes "code_challenge") (str code_challenge) (
          field (codes "code_challenge_method") (str method)
            (field (codes "scope") (str scope) (field (codes "state") (str state) end))))))

-- What is stored with an authorization code.
abbrev pub code_dict : Json → Json → Json → Json → Json → Json → Json
code_dict client_id user_id redirect_uri code_challenge method scope = obj (
    field (codes "client_id") client_id (
      field (codes "user_id") user_id (
        field (codes "redirect_uri") redirect_uri (
          field (codes "code_challenge") code_challenge
            (field (codes "code_challenge_method") method (field (codes "scope") scope end))))))

-- `t in s`, for texts
unfoldable pub is_infix : Text → Text → Bool
is_infix t [] = is_nil t
is_infix t (c ∷ s) = starts_with t (c ∷ s) || is_infix t s

abbrev is_some : Option Json → Bool
is_some none = false
is_some (some v) = true

-- `uri in client["redirect_uris"]`, for a list, a text and a dict
abbrev pub has_item : Items → Text → Bool
has_item nil t = false
has_item (cons x xs) t = is_str x t || has_item xs t

abbrev pub contains_uri : Json → Text → Outcome Bool
contains_uri (arr xs) t = ok (has_item xs t)
contains_uri (str s) t = ok (is_infix t s)
contains_uri (obj fs) t = ok (is_some (get_field t fs))
contains_uri _ t = raised

-- `pending.get("state")`, kept if it is true
abbrev state_param : (Json → Text) → Json → List (Text × Text)
state_param show (obj fs) =
    let v = field_or (codes "state") fs null in
    if truthy v then (codes "state", formatted show v) ∷ [] else []
state_param show _ = []

-- The parameters of the request, as they are kept until the code is issued.
abbrev pub pending_of : Dict Text Text → Json
pending_of q =
    let asked = param q (codes "scope") [] in
    pending_dict (param q (codes "client_id") []) (param q (codes "redirect_uri") [])
      (param q (codes "code_challenge") []) (param q (codes "code_challenge_method") [])
      (if is_nil asked then scope_default else asked) (param q (codes "state") [])

abbrev pub lacks_pkce : Dict Text Text → Bool
lacks_pkce q =
    is_nil (param q (codes "code_challenge") [])
    || not (param q (codes "code_challenge_method") [] == codes "S256")

-- The reply of a handler: what was raised is answered by the framework.
abbrev pub or_failed {ℓ} : {State : Type ℓ} → State → Outcome (Reply × State) → Reply × State
or_failed s (ok r) = r
or_failed s raised = (failed, s)

module _ (show : Json → Text) (S : Store) (J : Codec) where
  -- `code` is the fresh code.
  unfoldable pub issue_and_redirect : S.State → Json → Json → Text → Outcome (Reply × S.State)
  issue_and_redirect s user_id pending code = do
    client_id ← subscript (codes "client_id") pending
    redirect_uri ← subscript (codes "redirect_uri") pending
    challenge ← subscript (codes "code_challenge") pending
    method ← subscript (codes "code_challenge_method") pending
    scope ← subscript (codes "scope") pending
    ok (
      redirect (formatted show redirect_uri) ((codes "code", code) ∷ state_param show pending),
      issue_code S J s (code_dict client_id user_id redirect_uri challenge method scope) code,
    )

  abbrev pub session_of : S.State → Option Text → Outcome (Option Json)
  session_of s none = ok none
  session_of s (some token) = if is_nil token then ok none else get_session S J s token

  -- The last two steps of `authorize`; `fresh` is the new code or the new authreq id.
  unfoldable pub authorize_session : S.State → Json → Text → Option Json → Outcome (Reply × S.State)
  unfolding issue_and_redirect
  authorize_session s pending fresh none =
      ok (login default_provider fresh, save_authreq S J s pending fresh)
  authorize_session s pending fresh (some sess) = do
    user_id ← subscript (codes "user_id") sess
    issue_and_redirect s user_id pending fresh

  -- From the check of the redirect URI on; `known` says that it is registered.
  unfoldable pub authorize_known :
      S.State → Dict Text Text → Option Text → Text → Bool → Outcome (Reply × S.State)
  unfolding redirect_err authorize_session
  authorize_known s q cookie fresh known =
      let redirect_uri = param q (codes "redirect_uri") [] in
      let state = param q (codes "state") [] in
      if not known
      then ok (oauth_error (codes "invalid_request") 400 (codes "redirect_uri 불일치"), s)
      else if not (param q (codes "response_type") (codes "code") == codes "code")
      then ok (redirect_err redirect_uri (codes "unsupported_response_type") state [], s)
      else if lacks_pkce q
      then ok (redirect_err redirect_uri (codes "invalid_request") state (codes "PKCE S256 필수"), s)
      else do sess ← session_of s cookie; authorize_session s (pending_of q) fresh sess

  unfoldable pub authorize_client :
      S.State → Dict Text Text → Option Text → Text → Option Json → Outcome (Reply × S.State)
  unfolding authorize_known
  authorize_client s q cookie fresh none =
      ok (oauth_error (codes "invalid_client") 400 (codes "미등록 client_id"), s)
  authorize_client s q cookie fresh (some client) = do
    uris ← subscript (codes "redirect_uris") client
    known ← contains_uri uris (param q (codes "redirect_uri") [])
    authorize_known s q cookie fresh known

  unfoldable pub authorize : S.State → Dict Text Text → Option Text → Text → Reply × S.State
  unfolding authorize_client
  authorize s q cookie fresh = or_failed s (do
    client ← get_client S J s (param q (codes "client_id") [])
    authorize_client s q cookie fresh client)

  resume_pending :
      Json → Text → Outcome (Option Json) × S.State → Option (Reply × S.State) × S.State
  resume_pending user_id code (raised, s) = (some (failed, s), s)
  resume_pending user_id code (ok none, s) = (none, s)
  resume_pending user_id code (ok (some pending), s) =
      let r = or_failed s (issue_and_redirect s user_id pending code) in (some r, r.1)

  -- `None` means that the request is not there or has expired.
  unfoldable pub resume_authorize :
      S.State → Json → Text → Text → Option (Reply × S.State) × S.State
  unfolding resume_pending issue_and_redirect
  resume_authorize s user_id authreq_id code =
      resume_pending user_id code (pop_authreq S J s authreq_id)

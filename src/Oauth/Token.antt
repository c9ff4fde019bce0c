-- ===== src/Oauth/Token.antt =====
-- The token endpoint of app/routes/oauth.py: the grants for a code and for a refresh token. The S256
-- transform of authlib is a parameter.
use vegapunk_web.Base.{Bool, false, not, ◌||◌, Option, none, some, [], is_nil, if◌then◌else◌, ◌==◌}
use vegapunk_web.Base.Dict.{Dict}
use vegapunk_web.Text.{Text, text_eq, codes}
use vegapunk_web.Json.{
  Json, num, str, obj, end, field, Outcome, ok, raised, ◌>>=◌, subscript, is_str, Codec,
}
use vegapunk_web.Session.{Store}
use vegapunk_web.OauthStore.{access_ttl, pop_code, issue_access, issue_refresh, pop_refresh}
use vegapunk_web.Oauth.{Reply, json, failed, param, oauth_error, invalid_grant, or_failed}

-- `value and data[key] != value`
unfoldable pub mismatch : Text → Text → Json → Outcome Bool
mismatch value key stored =
    if is_nil value then ok false else (do v ← subscript key stored; ok (not (is_str v value)))

module _ (s256 : Text → Text) (S : Store) (J : Codec) where
  -- `access` and `refresh` are the fresh tokens.
  unfoldable pub token_response : S.State → Json → Json → Json → Text → Text → Reply × S.State
  token_response s user_id client_id scope access refresh = (
    json 200 (
        obj (
          field (codes "access_token") (str access) (
            field (codes "token_type") (str (codes "Bearer")) (
              field (codes "expires_in") (num access_ttl)
                (field (codes "refresh_token") (str refresh) (field (codes "scope") scope end)))))),
    issue_refresh S J (issue_access S J s user_id client_id scope access) user_id client_id scope
        refresh,
  )

  abbrev pub respond : S.State → Json → Text → Text → Outcome (Reply × S.State)
  respond s stored access refresh = do
    user_id ← subscript (codes "user_id") stored
    client_id ← subscript (codes "client_id") stored
    scope ← subscript (codes "scope") stored
    ok (token_response s user_id client_id scope access refresh)

  -- From the tests on the data of the code on.
  unfoldable pub redeem :
      S.State → Json → Text → Text → Text → Text → Text → Outcome (Reply × S.State)
  unfolding mismatch token_response
  redeem s stored verifier client_id redirect_uri access refresh = do
    other_client ← mismatch client_id (codes "client_id") stored
    if other_client then ok (invalid_grant (codes "client_id 불일치"), s) else do
      other_uri ← mismatch redirect_uri (codes "redirect_uri") stored
      if other_uri then ok (invalid_grant (codes "redirect_uri 불일치"), s) else do
        challenge ← subscript (codes "code_challenge") stored
        if not (is_str challenge (s256 verifier))
            then ok (invalid_grant (codes "PKCE 검증 실패"), s)
            else respond s stored access refresh

  unfoldable pub redeem_popped :
      Dict Text Text → Text → Text → Outcome (Option Json) × S.State → Reply × S.State
  redeem_popped form access refresh (raised, s) = (failed, s)
  redeem_popped form access refresh (ok none, s) = (invalid_grant (codes "code 없음/만료"), s)
  redeem_popped form access refresh (ok (some stored), s) = or_failed s (
      redeem s stored (param form (codes "code_verifier") []) (param form (codes "client_id") [])
        (param form (codes "redirect_uri") []) access refresh)

  unfoldable pub grant_authorization_code : S.State → Dict Text Text → Text → Text → Reply × S.State
  unfolding redeem_popped redeem
  grant_authorization_code s form access refresh =
      let code = param form (codes "code") [] in
      if is_nil code || is_nil (param form (codes "code_verifier") [])
      then (oauth_error (codes "invalid_request") 400 (codes "code·code_verifier 필요"), s)
      else redeem_popped form access refresh (pop_code S J s code)

  unfoldable pub rotate : S.State → Json → Text → Text → Text → Outcome (Reply × S.State)
  unfolding mismatch token_response
  rotate s stored client_id access refresh = do
    other_client ← mismatch client_id (codes "client_id") stored
    if other_client
        then ok (invalid_grant (codes "client_id 불일치"), s)
        else respond s stored access refresh

  unfoldable pub rotate_popped :
      Dict Text Text → Text → Text → Outcome (Option Json) × S.State → Reply × S.State
  rotate_popped form access refresh (raised, s) = (failed, s)
  rotate_popped form access refresh (ok none, s) = (invalid_grant (codes "refresh_token 없음/만료"), s)
  rotate_popped form access refresh (ok (some stored), s) =
      or_failed s (rotate s stored (param form (codes "client_id") []) access refresh)

  unfoldable pub grant_refresh_token : S.State → Dict Text Text → Text → Text → Reply × S.State
  unfolding rotate_popped rotate
  grant_refresh_token s form access refresh =
      let old = param form (codes "refresh_token") [] in
      if is_nil old
      then (oauth_error (codes "invalid_request") 400 (codes "refresh_token 필요"), s)
      else rotate_popped form access refresh (pop_refresh S J s old)

  unfoldable pub token : S.State → Dict Text Text → Text → Text → Reply × S.State
  unfolding grant_authorization_code grant_refresh_token
  token s form access refresh =
      let grant_type = param form (codes "grant_type") [] in
      if grant_type == codes "authorization_code"
      then grant_authorization_code s form access refresh
      else if grant_type == codes "refresh_token"
      then grant_refresh_token s form access refresh
      else (oauth_error (codes "unsupported_grant_type") 400 [], s)

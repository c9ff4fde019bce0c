-- ===== src/Oauth/Flow.antt =====
-- From an authorize request to an access token, app/routes/oauth.py.
use vegapunk_web.Base.{
  ℕ, true, false, ◌||◌, Option, some, List, [], ap, ◌∷◌, ◌++◌, ◌≡◌, refl, is_nil, if◌then◌else◌,
  list_beq,
}
use vegapunk_web.Base.Dict.{Dict}
use vegapunk_web.Text.{Text, text_eq, text_beq_refl, codes}
use vegapunk_web.Json.{
  Json, num, str, obj, field, end, subscript, truthy, Outcome, ok, Codec, IsCodec,
}
use vegapunk_web.Session.{Store, IsLawful, user_dict}
use vegapunk_web.OauthStore.{
  put, pop_code, issue_code, get_client, resolve_access, code_prefix, token_dict, pop_refresh,
  issue_refresh, issue_access, refresh_prefix, token_prefix,
}
use vegapunk_web.OauthStore.Laws.{get-put_self, pop_of_get}
use vegapunk_web.Oauth.{
  Reply, json, redirect, param, code_dict, contains_uri, lacks_pkce, session_of, issue_and_redirect,
  authorize_session, authorize_known, authorize_client, authorize, scope_default, or_failed,
}
use vegapunk_web.Oauth.Token.{
  mismatch, redeem, redeem_popped, grant_authorization_code, token_response,
}
use vegapunk_web.Oauth.Pkce.{resolves-token_response}

-- The scope that a request asks for.
abbrev pub scope_of : Dict Text Text → Text
scope_of q = let asked = param q (codes "scope") [] in if is_nil asked then scope_default else asked

-- What is stored with the code of a request.
abbrev code_data : Dict Text Text → ℕ → Json
code_data q user_id =
    code_dict (str (param q (codes "client_id") [])) (num user_id)
      (str (param q (codes "redirect_uri") [])) (str (param q (codes "code_challenge") []))
      (str (param q (codes "code_challenge_method") [])) (str (scope_of q))

-- The redirect with the code, and with the state of the request if it has one.
abbrev pub code_redirect : Dict Text Text → Text → Reply
code_redirect q code =
    let state = param q (codes "state") [] in
    let with_state : List (Text × Text) =
      if is_nil state then [] else (codes "state", state) ∷ [] in
    redirect (param q (codes "redirect_uri") []) ((codes "code", code) ∷ with_state)

-- The answer of the token endpoint that hands out the two tokens.
abbrev pub tokens_reply : Text → Text → Text → Reply
tokens_reply access refresh scope = json 200 (
    obj (
      field (codes "access_token") (str access) (
        field (codes "token_type") (str (codes "Bearer")) (
          field (codes "expires_in") (num 3600) (
            field (codes "refresh_token") (str refresh) (field (codes "scope") (str scope) end))))))

state_again :
    (state : Text)
    → let pair : List (Text × Text) = (codes "state", state) ∷ [] in
      (if truthy (str state) then pair else []) ≡ (if is_nil state then [] else pair)
state_again [] = refl
state_again (c ∷ state) = refl

mismatch_same :
    (v key : Text) (stored : Json)
    → subscript key stored ≡ ok (str v)
    → mismatch v key stored ≡ ok false
unfolding mismatch
mismatch_same [] key stored e = refl
mismatch_same (c ∷ v) key stored e = rw e (rw text_beq_refl)

module _ (show : Json → Text) (s256 : Text → Text) (S : Store) (L : IsLawful S) (J : Codec)
    (C : IsCodec J) where
  authorize_issues :
      (s : S.State) (q : Dict Text Text) (cookie : Option Text) (code : Text) (client uris : Json)
      (user_id : ℕ)
      → get_client S J s (param q (codes "client_id") []) ≡ ok (some client)
      → subscript (codes "redirect_uris") client ≡ ok uris
      → contains_uri uris (param q (codes "redirect_uri") []) ≡ ok true
      → param q (codes "response_type") (codes "code") ≡ codes "code"
      → lacks_pkce q ≡ false
      → session_of show S J s cookie ≡ ok (some (user_dict user_id))
      → authorize show S J s q cookie code
        ≡ (code_redirect q code, issue_code S J s (code_data q user_id) code)
  unfolding authorize authorize_client authorize_known authorize_session issue_and_redirect
      subscript list_beq
  authorize_issues s q cookie code client uris user_id hc hu hk hr hp hs =
      rw (hc, hu, hk, hr, hp, hs)
        (ap
          (λ (ps : List (Text × Text)). (
            redirect (param q (codes "redirect_uri") []) ((codes "code", code) ∷ ps),
            issue_code S J s (code_data q user_id) code,
          ))
          (state_again (param q (codes "state") [])))

  redeem_issued :
      (s : S.State) (q : Dict Text Text) (verifier access refresh : Text) (user_id : ℕ)
      → param q (codes "code_challenge") [] ≡ s256 verifier
      → or_failed s (
          redeem s256 S J s
            (code_data q user_id)
            verifier
            (param q (codes "client_id") [])
            (param q (codes "redirect_uri") [])
            access
            refresh)
        ≡ token_response s256 S J s
            (num user_id)
            (str (param q (codes "client_id") []))
            (str (scope_of q))
            access
            refresh
  unfolding redeem subscript list_beq
  redeem_issued s q verifier access refresh user_id hv =
      rw
        (mismatch_same (param q (codes "client_id") []) (codes "client_id") (code_data q user_id)
          refl)
        (rw
          (mismatch_same (param q (codes "redirect_uri") []) (codes "redirect_uri")
            (code_data q user_id) refl)
          (rw (hv, text_beq_refl)))

  granted :
      (s : S.State) (q form : Dict Text Text) (access refresh : Text) (user_id : ℕ)
      → (is_nil (param form (codes "code") []) || is_nil (param form (codes "code_verifier") []))
        ≡ false
      → param q (codes "code_challenge") [] ≡ s256 (param form (codes "code_verifier") [])
      → param form (codes "client_id") [] ≡ param q (codes "client_id") []
      → param form (codes "redirect_uri") [] ≡ param q (codes "redirect_uri") []
      → let key = code_prefix ++ param form (codes "code") [] in
        let t = issue_code S J s (code_data q user_id) (param form (codes "code") []) in
        grant_authorization_code s256 S J t form access refresh
        ≡ token_response s256 S J
            (S.delete t key)
            (num user_id)
            (str (param q (codes "client_id") []))
            (str (scope_of q))
            access
            refresh
  unfolding grant_authorization_code redeem_popped pop_code issue_code
  granted s q form access refresh user_id hn hv hi hd =
      let key = code_prefix ++ param form (codes "code") [] in
      let t = put S J s key 60 (code_data q user_id) in
      rw
        (
          hn,
          pop_of_get S L J t key (code_data q user_id)
              (get-put_self S L J s key 60 (code_data q user_id) C),
        )
        (rw (hi, hd) (redeem_issued (S.delete t key) q _ access refresh user_id hv))

  refreshes-token_response :
      (s : S.State) (u c p : Json) (access refresh : Text)
      → (pop_refresh S J (token_response s256 S J s u c p access refresh).1 refresh).0
        ≡ ok (some (token_dict u c p))
  unfolding pop_refresh token_response issue_refresh issue_access
  refreshes-token_response s u c p access refresh =
      let key = refresh_prefix ++ refresh in
      let t = put S J s (token_prefix ++ access) 3600 (token_dict u c p) in
      ap (λ (r : Outcome (Option Json) × S.State). r.0)
        (pop_of_get S L J (put S J t key 2592000 (token_dict u c p)) key (token_dict u c p)
          (get-put_self S L J t key 2592000 (token_dict u c p) C))

  -- Over a lawful store, a logged-in user's authorize request for a code, with a registered redirect
  -- URI and an S256 challenge, is answered by a redirect to that URI with the fresh code, and with the
  -- state of the request if it has one. Who then shows that code and the verifier of the challenge,
  -- neither of them empty, with the client and the redirect URI of the request, is answered by the two
  -- fresh tokens and the scope; the access token then resolves to that user, that client and the scope
  -- asked for, and so does the refresh token.
  pub authorization_code_flow :
      (s : S.State) (q form : Dict Text Text) (cookie : Option Text) (access refresh : Text)
      (client uris : Json) (user_id : ℕ)
      → get_client S J s (param q (codes "client_id") []) ≡ ok (some client)
      → subscript (codes "redirect_uris") client ≡ ok uris
      → contains_uri uris (param q (codes "redirect_uri") []) ≡ ok true
      → param q (codes "response_type") (codes "code") ≡ codes "code"
      → lacks_pkce q ≡ false
      → session_of show S J s cookie ≡ ok (some (user_dict user_id))
      → (is_nil (param form (codes "code") []) || is_nil (param form (codes "code_verifier") []))
        ≡ false
      → param q (codes "code_challenge") [] ≡ s256 (param form (codes "code_verifier") [])
      → param form (codes "client_id") [] ≡ param q (codes "client_id") []
      → param form (codes "redirect_uri") [] ≡ param q (codes "redirect_uri") []
      → let s' = (authorize show S J s q cookie (param form (codes "code") [])).1 in
        let r = grant_authorization_code s256 S J s' form access refresh in
        let claims =
          token_dict (num user_id) (str (param q (codes "client_id") [])) (str (scope_of q)) in
        ((authorize show S J s q cookie (param form (codes "code") [])).0
          ≡ code_redirect q (param form (codes "code") []))
        × (r.0 ≡ tokens_reply access refresh (scope_of q))
        × (resolve_access S J r.1 access ≡ ok (some claims))
        × ((pop_refresh S J r.1 refresh).0 ≡ ok (some claims))
  authorization_code_flow s q form cookie access refresh client uris user_id hc hu hk hr hp hs hn hv
        hi hd =
      rw
        (authorize_issues s q cookie (param form (codes "code") []) client uris user_id hc hu hk hr
          hp hs)
        (rw (granted s q form access refresh user_id hn hv hi hd) (
          refl,
          unfold token_response in refl,
          resolves-token_response s256 S L J C _ (num user_id)
              (str (param q (codes "client_id") [])) (str (scope_of q)) access refresh,
          refreshes-token_response _ (num user_id) (str (param q (codes "client_id") []))
              (str (scope_of q)) access refresh,
        ))

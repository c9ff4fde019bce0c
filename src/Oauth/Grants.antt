-- ===== src/Oauth/Grants.antt =====
-- Codes and refresh tokens at the token endpoint of app/routes/oauth.py.
use vegapunk_web.Base.{
  Bool, false, ◌||◌, Option, none, some, [], ◌++◌, ◌≡◌, ◌≢◌, refl, ◌∙◌, inl, inr, arith, is_nil,
  if_intro, ◌==◌, ==-ne, eqb,
}
use vegapunk_web.Base.Dict.{Dict}
use vegapunk_web.Text.{Text, text_eq, codes}
use vegapunk_web.Json.{Json, subscript, Outcome, ok, raised, ◌>>=◌, Codec}
use vegapunk_web.Session.{Store, IsLawful}
use vegapunk_web.Session.Laws.{Namespace, key-ne, key_injective}
use vegapunk_web.OauthStore.{
  put, pop, pop_code, pop_refresh, issue_access, issue_refresh, code_prefix, token_prefix,
  refresh_prefix, token_dict,
}
use vegapunk_web.OauthStore.Laws.{get-put_ne, IsSpent, IsSpent-same, IsSpent-pop}
use vegapunk_web.Oauth.{Reply, json, param, or_failed}
use vegapunk_web.Oauth.Token.{
  token_response, respond, redeem, redeem_popped, grant_authorization_code, rotate, rotate_popped,
  grant_refresh_token,
}

-- The reply hands out tokens.
abbrev pub is_granted : Reply → Bool
is_granted (json status body) = eqb status 200
is_granted _ = false

module _ (s256 : Text → Text) (S : Store) (L : IsLawful S) (J : Codec) where
  -- A key that is no access or refresh token.
  abbrev IsOther : Text → Text → Text → Type 0
  IsOther k access refresh =
      ((token_prefix ++ access == k) ≡ false) × ((refresh_prefix ++ refresh == k) ≡ false)

  get-token_response :
      (s : S.State) (k : Text) (u c p : Json) (access refresh : Text)
      → IsOther k access refresh
      → S.get (token_response s256 S J s u c p access refresh).1 k ≡ S.get s k
  unfolding token_response issue_access issue_refresh
  get-token_response s k u c p access refresh h =
      get-put_ne S L J (put S J s (token_prefix ++ access) 3600 (token_dict u c p)) k
        (refresh_prefix ++ refresh) 2592000 (token_dict u c p) h.1
      ∙ get-put_ne S L J s k (token_prefix ++ access) 3600 (token_dict u c p) h.0

  -- The handler's state, at a key that is no new token.
  get-respond :
      (s : S.State) (k : Text) (stored : Json) (access refresh : Text)
      → IsOther k access refresh
      → S.get (or_failed s (respond s256 S J s stored access refresh)).1 k ≡ S.get s k
  get-respond s k stored access refresh h =
      go (subscript (codes "user_id") stored) (subscript (codes "client_id") stored)
        (subscript (codes "scope") stored)
    where
      go :
          (u c p : Outcome Json)
          → S.get
              (or_failed s (do
                user_id ← u
                client_id ← c
                scope ← p
                ok (token_response s256 S J s user_id client_id scope access refresh))).1
              k
            ≡ S.get s k
      go (ok u) (ok c) (ok p) = get-token_response s k u c p access refresh h
      go (ok u) (ok c) raised = refl
      go (ok u) raised p = refl
      go raised c p = refl

  get-redeem :
      (s : S.State) (k : Text) (stored : Json) (v c r access refresh : Text)
      → IsOther k access refresh
      → S.get (or_failed s (redeem s256 S J s stored v c r access refresh)).1 k ≡ S.get s k
  unfolding redeem
  get-redeem s k stored v c r access refresh h =
      ground (arith, get-respond s k stored access refresh h)

  get-rotate :
      (s : S.State) (k : Text) (stored : Json) (c access refresh : Text)
      → IsOther k access refresh
      → S.get (or_failed s (rotate s256 S J s stored c access refresh)).1 k ≡ S.get s k
  unfolding rotate
  get-rotate s k stored c access refresh h = ground (arith, get-respond s k stored access refresh h)

  code-IsOther : (code access refresh : Text) → IsOther (code_prefix ++ code) access refresh
  code-IsOther code access refresh = (
    key-ne Namespace.access_token Namespace.auth_code access code (λ e. cc),
    key-ne Namespace.refresh_token Namespace.auth_code refresh code (λ e. cc),
  )

  -- After a request that names a code, whatever became of it, the code is spent.
  IsSpent-redeem_popped :
      (form : Dict Text Text) (s : S.State) (key access refresh : Text)
      → IsOther key access refresh
      → (r : Outcome (Option Json) × S.State) → IsSpent S L J r.1 key
      → IsSpent S L J (redeem_popped s256 S J form access refresh r).1 key
  unfolding redeem_popped
  IsSpent-redeem_popped form s key access refresh h (raised, t) sp = sp
  IsSpent-redeem_popped form s key access refresh h (ok none, t) sp = sp
  IsSpent-redeem_popped form s key access refresh h (ok (some stored), t) sp =
      IsSpent-same S L J t
        (or_failed t (
          redeem s256 S J t stored (param form (codes "code_verifier") [])
            (param form (codes "client_id") []) (param form (codes "redirect_uri") []) access
            refresh)).1
        key (get-redeem t key stored _ _ _ access refresh h) sp

  IsSpent-rotate_popped :
      (form : Dict Text Text) (s : S.State) (key access refresh : Text)
      → IsOther key access refresh
      → (r : Outcome (Option Json) × S.State) → IsSpent S L J r.1 key
      → IsSpent S L J (rotate_popped s256 S J form access refresh r).1 key
  unfolding rotate_popped
  IsSpent-rotate_popped form s key access refresh h (raised, t) sp = sp
  IsSpent-rotate_popped form s key access refresh h (ok none, t) sp = sp
  IsSpent-rotate_popped form s key access refresh h (ok (some stored), t) sp =
      IsSpent-same S L J t
        (or_failed t
          (rotate s256 S J t stored (param form (codes "client_id") []) access refresh)).1
        key (get-rotate t key stored _ access refresh h) sp

  spends_code :
      (s : S.State) (form : Dict Text Text) (code access refresh : Text)
      → param form (codes "code") [] ≡ code
      → (is_nil code || is_nil (param form (codes "code_verifier") [])) ≡ false
      → IsSpent S L J
          (grant_authorization_code s256 S J s form access refresh).1
          (code_prefix ++ code)
  unfolding grant_authorization_code pop_code
  spends_code s form code access refresh e v =
      rw (e, v)
        (IsSpent-redeem_popped form s (code_prefix ++ code) access refresh
          (code-IsOther code access refresh) (pop S J s (code_prefix ++ code))
          (IsSpent-pop S L J s (code_prefix ++ code)))

  -- A spent code gets no tokens.
  refused_if_spent :
      (form : Dict Text Text) (s : S.State) (code access refresh : Text)
      → param form (codes "code") [] ≡ code
      → IsSpent S L J s (code_prefix ++ code)
      → is_granted (grant_authorization_code s256 S J s form access refresh).0 ≡ false
  unfolding grant_authorization_code redeem_popped pop_code pop
  refused_if_spent form s code access refresh e (inl sp) = rw e (
      if_intro (λ (r : Reply × S.State). is_granted r.0 ≡ false)
        (is_nil code || is_nil (param form (codes "code_verifier") [])) _ _ (λ _. refl)
        (λ _. rw sp))
  refused_if_spent form s code access refresh e (inr sp) = rw e (
      if_intro (λ (r : Reply × S.State). is_granted r.0 ≡ false)
        (is_nil code || is_nil (param form (codes "code_verifier") [])) _ _ (λ _. refl)
        (λ _. rw sp))

  -- A code is good once: after a request that names it, with a verifier, a later request with the
  -- same code gets no tokens, whether the first one got any or failed, and whatever happened to
  -- other keys in between.
  pub code_once :
      (s t : S.State) (form form' : Dict Text Text) (code access refresh access' refresh' : Text)
      → param form (codes "code") [] ≡ code
      → (is_nil code || is_nil (param form (codes "code_verifier") [])) ≡ false
      → param form' (codes "code") [] ≡ code
      → S.get t (code_prefix ++ code)
        ≡ S.get (grant_authorization_code s256 S J s form access refresh).1 (code_prefix ++ code)
      → is_granted (grant_authorization_code s256 S J t form' access' refresh').0 ≡ false
  code_once s t form form' code access refresh access' refresh' e v e' same =
      refused_if_spent form' t code access' refresh' e' (
        IsSpent-same S L J (grant_authorization_code s256 S J s form access refresh).1 t
          (code_prefix ++ code) same (spends_code s form code access refresh e v))

  refresh-IsOther :
      (old access refresh : Text) → refresh ≢ old → IsOther (refresh_prefix ++ old) access refresh
  refresh-IsOther old access refresh ne = (
    key-ne Namespace.access_token Namespace.refresh_token access old (λ e. cc),
    ==-ne (refresh_prefix ++ refresh) (refresh_prefix ++ old)
        (λ e. ne (key_injective Namespace.refresh_token Namespace.refresh_token refresh old e).1),
  )

  spends_refresh :
      (s : S.State) (form : Dict Text Text) (old access refresh : Text)
      → param form (codes "refresh_token") [] ≡ old
      → is_nil old ≡ false
      → refresh ≢ old
      → IsSpent S L J (grant_refresh_token s256 S J s form access refresh).1 (refresh_prefix ++ old)
  unfolding grant_refresh_token pop_refresh
  spends_refresh s form old access refresh e v ne =
      rw (e, v)
        (IsSpent-rotate_popped form s (refresh_prefix ++ old) access refresh
          (refresh-IsOther old access refresh ne) (pop S J s (refresh_prefix ++ old))
          (IsSpent-pop S L J s (refresh_prefix ++ old)))

  rotation_refused :
      (form : Dict Text Text) (s : S.State) (old access refresh : Text)
      → param form (codes "refresh_token") [] ≡ old
      → IsSpent S L J s (refresh_prefix ++ old)
      → is_granted (grant_refresh_token s256 S J s form access refresh).0 ≡ false
  unfolding grant_refresh_token rotate_popped pop_refresh pop
  rotation_refused form s old access refresh e (inl sp) = rw e (
      if_intro (λ (r : Reply × S.State). is_granted r.0 ≡ false) (is_nil old) _ _ (λ _. refl)
        (λ _. rw sp))
  rotation_refused form s old access refresh e (inr sp) = rw e (
      if_intro (λ (r : Reply × S.State). is_granted r.0 ≡ false) (is_nil old) _ _ (λ _. refl)
        (λ _. rw sp))

  -- A refresh token is good once: it is rotated away by the request that shows it, whatever that
  -- request got, if the token issued in its place is another one.
  pub refresh_once :
      (s t : S.State) (form form' : Dict Text Text) (old access refresh access' refresh' : Text)
      → param form (codes "refresh_token") [] ≡ old
      → is_nil old ≡ false
      → refresh ≢ old
      → param form' (codes "refresh_token") [] ≡ old
      → S.get t (refresh_prefix ++ old)
        ≡ S.get (grant_refresh_token s256 S J s form access refresh).1 (refresh_prefix ++ old)
      → is_granted (grant_refresh_token s256 S J t form' access' refresh').0 ≡ false
  refresh_once s t form form' old access refresh access' refresh' e v ne e' same =
      rotation_refused form' t old access' refresh' e' (
        IsSpent-same S L J (grant_refresh_token s256 S J s form access refresh).1 t
          (refresh_prefix ++ old) same (spends_refresh s form old access refresh e v ne))

-- ===== src/Oauth/Pkce.antt =====
-- The tests of the token endpoint of app/routes/oauth.py on the data of a code.
use vegapunk_web.Base.{
  Bool, true, false, not, ◌||◌, Option, none, some, [], ◌∷◌, ◌++◌, ◌≡◌, refl, sym, ap, ◌∙◌, ◌⊎◌,
  inl, inr, arith, is_nil, if◌then◌else◌, if_intro,
}
use vegapunk_web.Base.Dict.{Dict}
use vegapunk_web.Text.{Text, text_eq, codes}
use vegapunk_web.Json.{
  Json, num, str, subscript, is_str, Outcome, ok, raised, ◌>>=◌, Codec, IsCodec,
}
use vegapunk_web.Session.{Store, IsLawful, decode_raw}
use vegapunk_web.Session.Laws.{Namespace, key-ne}
use vegapunk_web.OauthStore.{
  put, get, pop, pop_rest, pop_code, issue_access, issue_refresh, resolve_access, code_prefix,
  token_prefix, refresh_prefix, token_dict,
}
use vegapunk_web.OauthStore.Laws.{get-put_ne, get-put_self}
use vegapunk_web.Oauth.{Reply, param, invalid_grant, or_failed}
use vegapunk_web.Oauth.Token.{
  mismatch, token_response, respond, redeem, redeem_popped, grant_authorization_code,
}
use vegapunk_web.Oauth.Grants.{is_granted}

-- What the stored data of a code has to be for a request to get tokens.
pub record Fits (s256 : Text → Text) (stored : Json) (verifier client_id redirect_uri : Text)
    : Type 0 where
  pub pkce : subscript (codes "code_challenge") stored ≡ ok (str (s256 verifier))
  pub client_matches :
      (client_id ≡ []) ⊎ (subscript (codes "client_id") stored ≡ ok (str client_id))
  pub uri_matches :
      (redirect_uri ≡ []) ⊎ (subscript (codes "redirect_uri") stored ≡ ok (str redirect_uri))

-- The tokens' data: who they stand for, and that the access token resolves to it.
pub record Hands (S : Store) (J : Codec) (stored : Json) (access : Text) (s : S.State)
    : Type 0 where
  pub user_id : Json
  pub client : Json
  pub scope : Json
  pub user_is : subscript (codes "user_id") stored ≡ ok user_id
  pub client_is : subscript (codes "client_id") stored ≡ ok client
  pub scope_is : subscript (codes "scope") stored ≡ ok scope
  pub resolves : resolve_access S J s access ≡ ok (some (token_dict user_id client scope))

is_str-eq : (v : Json) (t : Text) → is_str v t ≡ true → v ≡ str t
is_str-eq (str s) t h = ap str ((text_eq.same_iff s t).0 h)
is_str-eq Json.null t h = cc
is_str-eq (Json.bool b) t h = cc
is_str-eq (num n) t h = cc
is_str-eq (Json.real r) t h = cc
is_str-eq (Json.arr xs) t h = cc
is_str-eq (Json.obj fs) t h = cc

no_mismatch :
    (value key : Text) (stored : Json)
    → mismatch value key stored ≡ ok false
    → (value ≡ []) ⊎ (subscript key stored ≡ ok (str value))
unfolding mismatch
no_mismatch [] key stored h = inl refl
no_mismatch (c ∷ value) key stored h = inr (go (subscript key stored) h)
  where
    go :
        (o : Outcome Json)
        → (do v ← o; ok (not (is_str v (c ∷ value)))) ≡ ok false
        → o ≡ ok (str (c ∷ value))
    go raised h = cc
    go (ok v) h = ap ok (is_str-eq v (c ∷ value) (ground arith))

not-false : (b : Bool) → not b ≡ false → b ≡ true
not-false true h = refl
not-false false h = sym h

module _ (s256 : Text → Text) (S : Store) (L : IsLawful S) (J : Codec) (C : IsCodec J) where
  pub resolves-token_response :
      (s : S.State) (u c p : Json) (access refresh : Text)
      → resolve_access S J (token_response s256 S J s u c p access refresh).1 access
        ≡ ok (some (token_dict u c p))
  unfolding resolve_access token_response issue_access issue_refresh get
  resolves-token_response s u c p access refresh =
      ap (decode_raw J) (
        get-put_ne S L J (put S J s (token_prefix ++ access) 3600 (token_dict u c p))
          (token_prefix ++ access) (refresh_prefix ++ refresh) 2592000 (token_dict u c p)
          (key-ne Namespace.refresh_token Namespace.access_token refresh access (λ e. cc)))
      ∙ get-put_self S L J s (token_prefix ++ access) 3600 (token_dict u c p) C

  granted-respond :
      (s : S.State) (stored : Json) (access refresh : Text)
      → is_granted (or_failed s (respond s256 S J s stored access refresh)).0 ≡ true
      → Hands S J stored access (or_failed s (respond s256 S J s stored access refresh)).1
  granted-respond s stored access refresh =
      go (subscript (codes "user_id") stored) (subscript (codes "client_id") stored)
        (subscript (codes "scope") stored) refl refl refl
    where
      reply : Outcome Json → Outcome Json → Outcome Json → Reply × S.State
      reply u c p = or_failed s (do
        user_id ← u
        client_id ← c
        scope ← p
        ok (token_response s256 S J s user_id client_id scope access refresh))

      go :
          (u c p : Outcome Json)
          → subscript (codes "user_id") stored ≡ u
          → subscript (codes "client_id") stored ≡ c
          → subscript (codes "scope") stored ≡ p
          → is_granted (reply u c p).0 ≡ true
          → Hands S J stored access (reply u c p).1
      go (ok u) (ok c) (ok p) eu ec ep h = record {
        user_id = u;
        client = c;
        scope = p;
        user_is = eu;
        client_is = ec;
        scope_is = ep;
        resolves = resolves-token_response s u c p access refresh;
      }
      go (ok u) (ok c) raised eu ec ep h = cc
      go (ok u) raised p eu ec ep h = cc
      go raised c p eu ec ep h = cc

  -- A request that names a code of these data gets tokens only if it fits them.
  granted-redeem :
      (s : S.State) (stored : Json) (v c r access refresh : Text)
      → is_granted (or_failed s (redeem s256 S J s stored v c r access refresh)).0 ≡ true
      → Fits s256 stored v c r
        × Hands S J stored access (or_failed s (redeem s256 S J s stored v c r access refresh)).1
  unfolding redeem
  granted-redeem s stored v c r access refresh =
      go (mismatch c (codes "client_id") stored) (mismatch r (codes "redirect_uri") stored)
        (subscript (codes "code_challenge") stored) refl refl refl
    where
      last : Json → Outcome (Reply × S.State)
      last ch =
          if not (is_str ch (s256 v))
          then ok (invalid_grant (codes "PKCE 검증 실패"), s)
          else respond s256 S J s stored access refresh

      chain : Outcome Bool → Outcome Bool → Outcome Json → Outcome (Reply × S.State)
      chain m n ch = do
        other_client ← m
        if other_client then ok (invalid_grant (codes "client_id 불일치"), s) else do
          other_uri ← n
          if other_uri
              then ok (invalid_grant (codes "redirect_uri 불일치"), s)
              else do challenge ← ch; last challenge

      go :
          (m n : Outcome Bool) (ch : Outcome Json)
          → mismatch c (codes "client_id") stored ≡ m
          → mismatch r (codes "redirect_uri") stored ≡ n
          → subscript (codes "code_challenge") stored ≡ ch
          → is_granted (or_failed s (chain m n ch)).0 ≡ true
          → Fits s256 stored v c r × Hands S J stored access (or_failed s (chain m n ch)).1
      go raised n ch em en ech h = cc
      go (ok true) n ch em en ech h = cc
      go (ok false) raised ch em en ech h = cc
      go (ok false) (ok true) ch em en ech h = cc
      go (ok false) (ok false) raised em en ech h = cc
      go (ok false) (ok false) (ok ch) em en ech h =
          if_intro
            (λ (o : Outcome (Reply × S.State)).
              is_granted (or_failed s o).0 ≡ true
              → Fits s256 stored v c r × Hands S J stored access (or_failed s o).1)
            (not (is_str ch (s256 v))) _ _ (λ _ g. cc)
            (λ e g. (
              record {
                pkce = ech ∙ ap ok (is_str-eq ch (s256 v) (not-false (is_str ch (s256 v)) e));
                client_matches = no_mismatch c (codes "client_id") stored em;
                uri_matches = no_mismatch r (codes "redirect_uri") stored en;
              },
              granted-respond s stored access refresh g,
            ))
            h

  -- What a request that got tokens tells: its code was stored with data that it fits, the tokens
  -- stand for the user, the client and the scope of those data, and the access token resolves.
  pub record Sound (s s' : S.State) (form : Dict Text Text) (access : Text) : Type 0 where
    pub stored : Json
    pub was_stored : get S J s (code_prefix ++ param form (codes "code") []) ≡ ok (some stored)
    pub fits :
        Fits s256 stored
          (param form (codes "code_verifier") [])
          (param form (codes "client_id") [])
          (param form (codes "redirect_uri") [])
    pub hands : Hands S J stored access s'

  -- Tokens are handed out only for a stored code, to who shows the verifier of its challenge (and
  -- the client and the redirect URI of the code, if the request names any), and the access token
  -- then resolves to the user, the client and the scope that the code was issued for.
  pub granted-Sound :
      (s : S.State) (form : Dict Text Text) (access refresh : Text)
      → is_granted (grant_authorization_code s256 S J s form access refresh).0 ≡ true
      → Sound s (grant_authorization_code s256 S J s form access refresh).1 form access
  unfolding grant_authorization_code redeem_popped pop_code pop
  granted-Sound s form access refresh =
      if_intro (λ (r : Reply × S.State). is_granted r.0 ≡ true → Sound s r.1 form access)
        (is_nil code || is_nil (param form (codes "code_verifier") [])) _ _ (λ _ h. cc)
        (λ _. go (get S J s (code_prefix ++ code)) refl)
    where
      code : Text
      code = param form (codes "code") []

      result : Outcome (Option Json) → Reply × S.State
      result o = redeem_popped s256 S J form access refresh (pop_rest S J s (code_prefix ++ code) o)

      go :
          (o : Outcome (Option Json))
          → get S J s (code_prefix ++ code) ≡ o
          → is_granted (result o).0 ≡ true
          → Sound s (result o).1 form access
      go raised e h = cc
      go (ok none) e h = cc
      go (ok (some stored)) e h =
          let (f, k) =
            granted-redeem (S.delete s (code_prefix ++ code)) stored
              (param form (codes "code_verifier") []) (param form (codes "client_id") [])
              (param form (codes "redirect_uri") []) access refresh h in
          record { stored = stored; was_stored = e; fits = f; hands = k }

-- ===== src/Mcp/Guard.antt =====
-- The middleware of app/mcp_server.py and what stands behind it.
use vegapunk_web.Base.{
  true, false, Option, none, some, List, [], ◌∷◌, ◌++◌, drop, All, ◌≡◌, ◌≢◌, refl, ap, if_intro,
  ◌⊎◌, inl, inr, ◌==◌,
}
use vegapunk_web.Text.{Text, text_eq, codes, strip, starts_with}
use vegapunk_web.Json.{
  Json, null, bool, num, real, str, arr, obj, Codec, Outcome, ok, raised, or_raise, ◌>>=◌,
  subscript,
}
use vegapunk_web.Session.{Store}
use vegapunk_web.OauthStore.{resolve_access}
use vegapunk_web.Mcp.{
  Context, AppState, Scope, Reply, unauthorized, is_mcp, normalized, host_in, trimmed, base_or,
  some_text, token_of, token_in, auth_header, bearer_token, principal_for, principal, passed, reset,
  run_as, admit, with_base, call, www_authenticate, scheme_host,
}

-- No header of the list has the name.
abbrev pub IsWithout : List (Text × Text) → Type 0
IsWithout = All (λ (h : Text × Text). h.0 ≢ codes "authorization")

-- The first `authorization` header has the value.
abbrev pub IsFirst : Text → List (Text × Text) → Type 0
IsFirst value headers =
    (before : List (Text × Text)) × (after : List (Text × Text)) × (headers
      ≡ before ++ ((codes "authorization", value) ∷ after))
    × IsWithout before

abbrev HasHeader : List (Text × Text) → Option Text → Type 0
HasHeader headers none = IsWithout headers
HasHeader headers (some value) = IsFirst value headers

HasHeader-behind :
    (name value : Text) (headers : List (Text × Text)) (o : Option Text)
    → name ≢ codes "authorization"
    → HasHeader headers o
    → HasHeader ((name, value) ∷ headers) o
HasHeader-behind name value headers none h k = (h, k)
HasHeader-behind name value headers (some v) h (before, after, e, a) =
    ((name, value) ∷ before, after, ap (◌∷◌ (name, value)) e, (h, a))

auth_header-HasHeader : (headers : List (Text × Text)) → HasHeader headers (auth_header headers)
unfolding auth_header
auth_header-HasHeader [] = tt
auth_header-HasHeader ((name, value) ∷ headers) =
    if_intro (HasHeader ((name, value) ∷ headers)) (name == codes "authorization") _ _
      (λ e. (
        [],
        headers,
        ap (λ (n : Text). (n, value) ∷ headers)
            ((text_eq.same_iff name (codes "authorization")).0 e),
        tt,
      ))
      (λ e.
        HasHeader-behind name value headers (auth_header headers)
          (λ p. let t = (text_eq.same_iff name (codes "authorization")).1 p in cc)
          (auth_header-HasHeader headers))

module _ (decode : Text → Option Text) (lower : Text → Text) where
  -- The headers carry the bearer token.
  pub record IsBearer (token : Text) (headers : List (Text × Text)) : Type 0 where
    pub value : Text
    pub auth : Text
    pub is_first : IsFirst value headers
    pub decodes : decode value ≡ some auth
    pub scheme : starts_with (codes "bearer ") (lower auth) ≡ true
    pub token_is : strip (drop 7 auth) ≡ token
    pub not_empty : token ≢ []

  -- The headers carry none: no header, another scheme, or nothing behind it.
  pub data LacksToken (headers : List (Text × Text)) : Type 0 where
    no_header : IsWithout headers → LacksToken headers
    other_scheme :
        (value auth : Text)
        → IsFirst value headers
        → decode value ≡ some auth
        → starts_with (codes "bearer ") (lower auth) ≡ false
        → LacksToken headers
    nothing_behind :
        (value auth : Text)
        → IsFirst value headers
        → decode value ≡ some auth
        → strip (drop 7 auth) ≡ []
        → LacksToken headers

  abbrev IsToken : List (Text × Text) → Outcome (Option Text) → Type 0
  IsToken headers raised = (value : Text) × IsFirst value headers × (decode value ≡ none)
  IsToken headers (ok none) = LacksToken headers
  IsToken headers (ok (some token)) = IsBearer token headers

  some_text-IsToken :
      (headers : List (Text × Text)) (value auth t : Text)
      → IsFirst value headers
      → decode value ≡ some auth
      → starts_with (codes "bearer ") (lower auth) ≡ true
      → strip (drop 7 auth) ≡ t
      → IsToken headers (ok (some_text t))
  some_text-IsToken headers value auth [] f d b e = nothing_behind value auth f d e
  some_text-IsToken headers value auth (c ∷ t) f d b e = record {
    value = value;
    auth = auth;
    is_first = f;
    decodes = d;
    scheme = b;
    token_is = e;
    not_empty = λ p. cc;
  }

  decoded-IsToken :
      (headers : List (Text × Text)) (value : Text) (o : Option Text)
      → IsFirst value headers
      → decode value ≡ o
      → IsToken headers (do auth ← or_raise o; ok (token_of decode lower auth))
  decoded-IsToken headers value none f d = (value, f, d)
  decoded-IsToken headers value (some auth) f d =
      if_intro (λ (t : Option Text). IsToken headers (ok t))
        (starts_with (codes "bearer ") (lower auth)) _ _
        (λ b. some_text-IsToken headers value auth (strip (drop 7 auth)) f d b refl)
        (λ b. other_scheme value auth f d b)

  bearer_token-IsToken :
      (headers : List (Text × Text)) → IsToken headers (bearer_token decode lower headers)
  unfolding bearer_token
  bearer_token-IsToken headers = go (auth_header headers) (auth_header-HasHeader headers)
    where
      go : (o : Option Text) → HasHeader headers o → IsToken headers (token_in decode lower o)
      go none h = no_header h
      go (some value) h = decoded-IsToken headers value (decode value) h refl

  module _ (S : Store) (J : Codec) (redirect_base : Text) {W R : Type 0}
      (app : Scope → Context → W → Outcome R × W × Context) (state : AppState) (s : S.State)
      (scope : Scope) (ctx : Context) (w : W) where
    -- Why a request is answered by 401.
    pub data IsUnknown : Type 0 where
      no_store : state.store_set ≡ false → IsUnknown
      no_token : LacksToken scope.headers → IsUnknown
      not_stored :
          (token : Text)
          → IsBearer token scope.headers
          → (resolve_access S J s token ≡ ok none) ⊎ (resolve_access S J s token ≡ ok (some null))
          → IsUnknown

    -- Why the middleware raises.
    pub data IsBroken : Type 0 where
      host_undecodable :
          trimmed redirect_base ≡ []
          → decode (host_in (codes "localhost") scope.headers) ≡ none
          → IsBroken
      header_undecodable :
          (value : Text)
          → state.store_set ≡ true
          → IsFirst value scope.headers
          → decode value ≡ none
          → IsBroken
      value_broken :
          (token : Text)
          → state.store_set ≡ true
          → IsBearer token scope.headers
          → resolve_access S J s token ≡ raised
          → IsBroken
      no_user :
          (token : Text) (claims : Json)
          → state.store_set ≡ true
          → IsBearer token scope.headers
          → resolve_access S J s token ≡ ok (some claims)
          → claims ≢ null
          → subscript (codes "user_id") claims ≡ raised
          → IsBroken

    -- How a request may be served.
    pub data IsGuarded : Outcome (Reply R) × W × Context → Type 0 where
      outside :
          is_mcp scope ≡ false
          → IsGuarded (passed decode lower S J redirect_base app (app scope ctx w))
      refused :
          (base : Text)
          → is_mcp scope ≡ true
          → scheme_host decode redirect_base scope ≡ ok base
          → IsUnknown
          → IsGuarded (ok (unauthorized (www_authenticate base)), w, ctx)
      broken : is_mcp scope ≡ true → IsBroken → IsGuarded (raised, w, ctx)
      admitted :
          (token : Text) (claims user_id : Json)
          → is_mcp scope ≡ true
          → state.store_set ≡ true
          → IsBearer token scope.headers
          → resolve_access S J s token ≡ ok (some claims)
          → subscript (codes "user_id") claims ≡ ok user_id
          → IsGuarded (
              reset decode lower S J redirect_base app ctx (
                passed decode lower S J redirect_base app (
                  app
                    (normalized scope)
                    (record {
                      user_id = some user_id;
                      has_pool = state.pool_set;
                      has_store = state.store_set;
                    })
                    w)))

    -- Where a principal comes from.
    abbrev IsPrincipal : Outcome (Option Json) → Type 0
    IsPrincipal (ok (some claims)) =
        (token : Text) × (state.store_set ≡ true)
        × IsBearer token scope.headers
        × (resolve_access S J s token ≡ ok (some claims))
    IsPrincipal (ok none) = IsUnknown
    IsPrincipal raised = IsBroken

    resolved-IsPrincipal :
        (token : Text) (o : Outcome (Option Json))
        → state.store_set ≡ true
        → IsBearer token scope.headers
        → resolve_access S J s token ≡ o
        → IsPrincipal o
    resolved-IsPrincipal token raised h b e = value_broken token h b e
    resolved-IsPrincipal token (ok none) h b e = not_stored token b (inl e)
    resolved-IsPrincipal token (ok (some claims)) h b e = (token, h, b, e)

    token-IsPrincipal :
        (o : Outcome (Option Text))
        → state.store_set ≡ true
        → IsToken scope.headers o
        → IsPrincipal (do token ← o; principal_for decode lower S J redirect_base s token)
    token-IsPrincipal raised h (value, f, d) = header_undecodable value h f d
    token-IsPrincipal (ok none) h b = no_token b
    token-IsPrincipal (ok (some token)) h b =
        resolved-IsPrincipal token (resolve_access S J s token) h b refl

    principal-IsPrincipal :
        IsPrincipal (principal decode lower S J redirect_base state s scope.headers)
    unfolding principal
    principal-IsPrincipal =
        if_intro IsPrincipal state.store_set _ _
          (λ h.
            token-IsPrincipal (bearer_token decode lower scope.headers) h
              (bearer_token-IsToken scope.headers))
          (λ h. no_store h)

    run_as-IsGuarded :
        (claims : Json) (o : Outcome Json)
        → is_mcp scope ≡ true
        → IsPrincipal (ok (some claims))
        → claims ≢ null
        → subscript (codes "user_id") claims ≡ o
        → IsGuarded (run_as decode lower S J redirect_base app state scope ctx w o)
    run_as-IsGuarded claims raised h (token, q, b, t) n e =
        broken h (no_user token claims q b t n e)
    run_as-IsGuarded claims (ok user_id) h (token, q, b, t) n e =
        admitted token claims user_id h q b t e

    admit-IsGuarded :
        (base : Text) (o : Outcome (Option Json))
        → is_mcp scope ≡ true
        → scheme_host decode redirect_base scope ≡ ok base
        → IsPrincipal o
        → IsGuarded (admit decode lower S J redirect_base app state scope ctx w base o)
    admit-IsGuarded base raised h e p = broken h p
    admit-IsGuarded base (ok none) h e p = refused base h e p
    admit-IsGuarded base (ok (some null)) h e (token, q, b, t) =
        refused base h e (not_stored token b (inr t))
    admit-IsGuarded base (ok (some (bool x))) h e p = run_as-IsGuarded (bool x) _ h p (λ n. cc) refl
    admit-IsGuarded base (ok (some (num x))) h e p = run_as-IsGuarded (num x) _ h p (λ n. cc) refl
    admit-IsGuarded base (ok (some (real x))) h e p = run_as-IsGuarded (real x) _ h p (λ n. cc) refl
    admit-IsGuarded base (ok (some (str x))) h e p = run_as-IsGuarded (str x) _ h p (λ n. cc) refl
    admit-IsGuarded base (ok (some (arr x))) h e p = run_as-IsGuarded (arr x) _ h p (λ n. cc) refl
    admit-IsGuarded base (ok (some (obj x))) h e p = run_as-IsGuarded (obj x) _ h p (λ n. cc) refl

    scheme_host-IsBroken : scheme_host decode redirect_base scope ≡ raised → IsBroken
    unfolding scheme_host
    scheme_host-IsBroken =
        go (trimmed redirect_base) (decode (host_in (codes "localhost") scope.headers)) refl refl
      where
        go :
            (t : Text) (o : Option Text)
            → trimmed redirect_base ≡ t
            → decode (host_in (codes "localhost") scope.headers) ≡ o
            → base_or t (do host ← or_raise o; ok (scope.scheme ++ (codes "://" ++ host))) ≡ raised
            → IsBroken
        go [] none et eo h = host_undecodable et eo
        go [] (some host) et eo h = cc
        go (c ∷ t) o et eo h = cc

    -- A request for a path under `/mcp` reaches what stands behind the middleware only with a bearer
    -- token in its first `authorization` header that the store resolves to claims, and then with the
    -- user of these claims in the context. The answer is 401 only if there is no store, no such token
    -- or nothing stored for it; an error before anything runs only if the host header (without a
    -- configured base) or the `authorization` header does not decode, or the stored value is broken
    -- or names no user. Behind a request the context is what it was before; requests for other paths
    -- pass through as they are.
    pub call-IsGuarded : IsGuarded (call decode lower S J redirect_base app state s scope ctx w)
    unfolding call
    call-IsGuarded =
        if_intro IsGuarded (is_mcp scope) _ _
          (λ h. go h (scheme_host decode redirect_base scope) refl) (λ h. outside h)
      where
        go :
            is_mcp scope ≡ true
            → (o : Outcome Text) → scheme_host decode redirect_base scope ≡ o
            → IsGuarded (with_base decode lower S J redirect_base app state s scope ctx w o)
        go h raised e = broken h (scheme_host-IsBroken e)
        go h (ok base) e =
            admit-IsGuarded base (principal decode lower S J redirect_base state s scope.headers) h
              e principal-IsPrincipal

-- ===== src/Mcp.antt =====
-- app/mcp_server.py: the middleware that turns a bearer token into the context of a request, and the
-- tools that read it. The protocol library behind the middleware, `bytes.decode`, `str.lower` and what the tools'
-- components take as parameters are parameters.
pub mod Guard
pub mod Tools
pub mod Tenants
use vegapunk_web.Base.{
  ℕ, Bool, true, false, not, ◌&&◌, ◌||◌, Option, none, some, List, [], ◌∷◌, ◌++◌, drop, is_nil, eqb,
  if◌then◌else◌, ◌==◌,
}
use vegapunk_web.Text.{Text, text_eq, codes, strip, rstrip_of, starts_with}
use vegapunk_web.Json.{
  Json, null, bool, num, real, str, arr, obj, Codec, Outcome, ok, raised, or_raise, ◌>>=◌,
  subscript,
}
use vegapunk_web.Session.{Store}
use vegapunk_web.OauthStore.{resolve_access}

-- The context variables of a request.
pub record Context : Type 0 where
  pub user_id : Option Json
  pub has_pool : Bool
  pub has_store : Bool

-- What of `app.state` is there.
pub record AppState : Type 0 where
  pub pool_set : Bool
  pub store_set : Bool

pub record Scope : Type 0 where
  pub kind : Text
  pub path : Text
  pub headers : List (Text × Text)
  pub scheme : Text

pub data Reply (R : Type 0) : Type 0 where
  unauthorized : Text → Reply R
  answer : R → Reply R

abbrev pub empty_context : Context
empty_context = record { user_id = none; has_pool = false; has_store = false }

-- `_require_ctx`: the user's id. What is stored is an integer; any other value counts as an error
-- here, though it is the query behind that refuses it.
abbrev pub id_in : Option Json → Outcome ℕ
id_in (some (num n)) = ok n
id_in _ = raised

unfoldable pub require_ctx : Context → Outcome ℕ
require_ctx ctx = if ctx.has_pool then id_in ctx.user_id else raised

-- `_www_authenticate`
unfoldable pub www_authenticate : Text → Text
www_authenticate base =
    codes "Bearer error=\"invalid_token\", resource_metadata=\""
    ++ (base ++ codes "/.well-known/oauth-protected-resource\"")

-- `dict(headers).get(b"host", b"localhost")`: the last one counts.
unfoldable pub host_in : Text → List (Text × Text) → Text
host_in host [] = host
host_in host ((name, value) ∷ headers) =
    host_in (if name == codes "host" then value else host) headers

-- `_scheme_host`, for the setting `OAUTH_REDIRECT_BASE`
abbrev pub base_or : Text → Outcome Text → Outcome Text
base_or [] other = other
base_or (c ∷ configured) other = ok (c ∷ configured)

abbrev pub trimmed : Text → Text
trimmed redirect_base = rstrip_of (λ c. eqb c b'/') redirect_base

unfoldable pub scheme_host : (Text → Option Text) → Text → Scope → Outcome Text
unfolding host_in
scheme_host decode redirect_base scope = base_or (trimmed redirect_base) (do
  host ← or_raise (decode (host_in (codes "localhost") scope.headers))
  ok (scope.scheme ++ (codes "://" ++ host)))

-- The first `authorization` header.
unfoldable pub auth_header : List (Text × Text) → Option Text
auth_header [] = none
auth_header ((name, value) ∷ headers) =
    if name == codes "authorization" then some value else auth_header headers

abbrev pub some_text : Text → Option Text
some_text [] = none
some_text (c ∷ t) = some (c ∷ t)

abbrev pub is_mcp : Scope → Bool
is_mcp scope = scope.kind == codes "http" && starts_with (codes "/mcp") scope.path

-- `/mcp` becomes `/mcp/`.
abbrev pub normalized : Scope → Scope
normalized scope =
    if scope.path == codes "/mcp" then record scope { path = codes "/mcp/" } else scope

-- `decode` is `bytes.decode`, which raises on bytes that are no UTF-8.
module _ (decode : Text → Option Text) (lower : Text → Text) where
  abbrev pub token_of : Text → Option Text
  token_of auth =
      if starts_with (codes "bearer ") (lower auth) then some_text (strip (drop 7 auth)) else none

  abbrev pub token_in : Option Text → Outcome (Option Text)
  token_in none = ok none
  token_in (some value) = do auth ← or_raise (decode value); ok (token_of auth)

  unfoldable pub bearer_token : List (Text × Text) → Outcome (Option Text)
  unfolding auth_header
  bearer_token headers = token_in (auth_header headers)

  module _ (S : Store) (J : Codec) (redirect_base : Text) where
    abbrev pub principal_for : S.State → Option Text → Outcome (Option Json)
    principal_for s none = ok none
    principal_for s (some token) = resolve_access S J s token

    unfoldable pub principal : AppState → S.State → List (Text × Text) → Outcome (Option Json)
    unfolding bearer_token
    principal state s headers =
        if state.store_set
        then (do token ← bearer_token headers; principal_for s token)
        else ok none

    module _ {W R : Type 0} (app : Scope → Context → W → Outcome R × W × Context) where
      abbrev pub passed : Outcome R × W × Context → Outcome (Reply R) × W × Context
      passed (raised, w, ctx) = (raised, w, ctx)
      passed (ok r, w, ctx) = (ok (answer r), w, ctx)

      -- The `finally` block: the variables are what they were.
      abbrev pub reset : Context → Outcome (Reply R) × W × Context → Outcome (Reply R) × W × Context
      reset old (r, w, ctx) = (r, w, old)

      abbrev pub run_as :
          AppState → Scope → Context → W → Outcome Json → Outcome (Reply R) × W × Context
      run_as state scope ctx w raised = (raised, w, ctx)
      run_as state scope ctx w (ok user_id) = reset ctx (
          passed (
            app (normalized scope)
              (record {
                user_id = some user_id;
                has_pool = state.pool_set;
                has_store = state.store_set;
              })
              w))

      -- `None` is also what the stored value `null` decodes to.
      abbrev pub admit :
          AppState
          → Scope
          → Context
          → W
          → Text
          → Outcome (Option Json)
          → Outcome (Reply R) × W × Context
      admit state scope ctx w base raised = (raised, w, ctx)
      admit state scope ctx w base (ok none) = (ok (unauthorized (www_authenticate base)), w, ctx)
      admit state scope ctx w base (ok (some null)) =
          (ok (unauthorized (www_authenticate base)), w, ctx)
      admit state scope ctx w base (ok (some claims)) =
          run_as state scope ctx w (subscript (codes "user_id") claims)

      abbrev pub with_base :
          AppState → S.State → Scope → Context → W → Outcome Text → Outcome (Reply R) × W × Context
      with_base state s scope ctx w raised = (raised, w, ctx)
      with_base state s scope ctx w (ok base) =
          admit state scope ctx w base (principal state s scope.headers)

      -- `McpAuthMiddleware.__call__`
      unfoldable pub call :
          AppState → S.State → Scope → Context → W → Outcome (Reply R) × W × Context
      unfolding principal www_authenticate scheme_host
      call state s scope ctx w =
          if is_mcp scope
          then with_base state s scope ctx w (scheme_host decode redirect_base scope)
          else passed (app scope ctx w)

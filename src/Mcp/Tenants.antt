-- ===== src/Mcp/Tenants.antt =====
-- A request to app/mcp_server.py that changes notes, from the token to the tables.
use vegapunk_web.Base.{
  ℕ, Bool, true, false, Option, some, List, ◌≡◌, refl, sym, subst, ◌⊎◌, inl, inr, if◌then◌else◌,
}
use vegapunk_web.Text.{Text, codes}
use vegapunk_web.Json.{
  Json, null, bool, num, real, str, arr, obj, Codec, Outcome, ok, raised, subscript,
}
use vegapunk_web.Session.{Store}
use vegapunk_web.OauthStore.{resolve_access}
use vegapunk_web.Notes.{NotesDb}
use vegapunk_web.Ingest.{Written, Answer}
use vegapunk_web.Ingest.Soundness.{IsSound}
use vegapunk_web.Ingest.Owners.{LeavesOthers, requests-LeavesOthers}
use vegapunk_web.Mcp.{
  Context, AppState, Scope, Reply, id_in, require_ctx, is_mcp, normalized, passed, reset, call,
}
use vegapunk_web.Mcp.Guard.{IsBearer, IsGuarded, outside, refused, broken, admitted, call-IsGuarded}
use vegapunk_web.Mcp.Tools.{
  as_user, or_no_tags, tool_ingest_note, tool_update_note, tool_delete_note,
}

conflict : {b : Bool} → b ≡ true → b ≡ false → ⊥
conflict h e = cc

-- The calls of a tool that change notes.
pub data Change : Type 0 where
  ingest : Text → Text → Option (List Text) → Option ℕ → Change
  update : Text → Option Text → Option (List Text) → Change
  delete : Text → Change

pub data Told : Type 0 where
  written : Written → Told
  answered : Answer → Told

abbrev pub told {ℓ} : {A : Type 0} {B : Type ℓ} → (A → Told) → Outcome A × B → Outcome Told × B
told f (raised, b) = (raised, b)
told f (ok a, b) = (ok (f a), b)

module _ {Vector : Type 0} (embed : List Text → Outcome (List Vector)) where
  unfoldable pub run_change : Change → Context → NotesDb Vector → Outcome Told × NotesDb Vector
  run_change (ingest title body tags merge_into) ctx db =
      told written (tool_ingest_note embed ctx title body tags merge_into db)
  run_change (update title body tags) ctx db =
      told answered (tool_update_note embed ctx title body tags db)
  run_change (delete title) ctx db = told answered (tool_delete_note ctx title db)

  -- What stands behind the middleware, for one such call.
  abbrev pub tool_app :
      Change → Scope → Context → NotesDb Vector → Outcome Told × NotesDb Vector × Context
  tool_app c scope ctx db = let (r, after) = run_change c ctx db in (r, after, ctx)

  -- Nothing is changed, or only notes of the user with the id `n`.
  abbrev ByUser : Outcome ℕ → NotesDb Vector → NotesDb Vector → Type 0
  ByUser raised db after = after ≡ db
  ByUser (ok n) db after = LeavesOthers n db after

  told-tables : {A : Type 0} (f : A → Told) (r : Outcome A × NotesDb Vector) → (told f r).1 ≡ r.1
  told-tables f (raised, b) = refl
  told-tables f (ok a, b) = refl

  as_user-ByUser :
      {A : Type 0} (o : Outcome ℕ) (f : ℕ → Outcome A × NotesDb Vector) (db : NotesDb Vector)
      → ((n : ℕ) → LeavesOthers n db (f n).1)
      → ByUser o db (as_user o f db).1
  as_user-ByUser raised f db h = refl
  as_user-ByUser (ok n) f db h = h n

  run_change-ByUser :
      (c : Change) (ctx : Context) (db : NotesDb Vector)
      → IsSound db
      → ByUser (require_ctx ctx) db (run_change c ctx db).1
  unfolding run_change tool_ingest_note tool_update_note tool_delete_note
  run_change-ByUser (ingest title body tags merge_into) ctx db h =
      subst (λ (a : NotesDb Vector). ByUser (require_ctx ctx) db a)
        (sym (told-tables written (tool_ingest_note embed ctx title body tags merge_into db)))
        (as_user-ByUser (require_ctx ctx) _ db
          (λ n. (requests-LeavesOthers embed n db h).0 title body (or_no_tags tags) merge_into))
  run_change-ByUser (update title body tags) ctx db h =
      subst (λ (a : NotesDb Vector). ByUser (require_ctx ctx) db a)
        (sym (told-tables answered (tool_update_note embed ctx title body tags db)))
        (as_user-ByUser (require_ctx ctx) _ db
          (λ n. (requests-LeavesOthers embed n db h).1 title body tags))
  run_change-ByUser (delete title) ctx db h =
      subst (λ (a : NotesDb Vector). ByUser (require_ctx ctx) db a)
        (sym (told-tables answered (tool_delete_note ctx title db)))
        (as_user-ByUser (require_ctx ctx) _ db (λ n. (requests-LeavesOthers embed n db h).2 title))

module _ (decode : Text → Option Text) (lower : Text → Text) (S : Store) (J : Codec)
    (redirect_base : Text) {Vector : Type 0} (embed : List Text → Outcome (List Vector))
    (state : AppState) (s : S.State) (scope : Scope) (ctx : Context) where
  -- The tables behind a request: as before, or changed for the user that its token stands for.
  abbrev pub IsAuthorized : NotesDb Vector → NotesDb Vector → Type 0
  IsAuthorized db after =
      (after ≡ db)
      ⊎ ((token : Text) × (claims : Json) × (n : ℕ) × IsBearer decode lower token scope.headers
          × (resolve_access S J s token ≡ ok (some claims))
          × (subscript (codes "user_id") claims ≡ ok (num n))
          × LeavesOthers n db after)

  passed-tables :
      (c : Change) (r : Outcome Told × NotesDb Vector × Context)
      → (reset decode lower S J redirect_base
          (tool_app embed c)
          ctx
          (passed decode lower S J redirect_base (tool_app embed c) r)).1
        ≡ r.1
  passed-tables c (raised, db, x) = refl
  passed-tables c (ok t, db, x) = refl

  ByUser-IsAuthorized :
      (token : Text) (claims user_id : Json) (db after : NotesDb Vector)
      → IsBearer decode lower token scope.headers
      → resolve_access S J s token ≡ ok (some claims)
      → subscript (codes "user_id") claims ≡ ok user_id
      → ByUser embed
          (require_ctx (record {
            user_id = some user_id;
            has_pool = state.pool_set;
            has_store = state.store_set;
          }))
          db
          after
      → IsAuthorized db after
  unfolding require_ctx
  ByUser-IsAuthorized token claims user_id db after b r u h = go state.pool_set user_id u h
    where
      go :
          (p : Bool) (v : Json)
          → subscript (codes "user_id") claims ≡ ok v
          → ByUser embed (if p then id_in (some v) else raised) db after
          → IsAuthorized db after
      go false v q k = inl k
      go true (num n) q k = inr (token, claims, n, b, r, q, k)
      go true null q k = inl k
      go true (bool x) q k = inl k
      go true (real x) q k = inl k
      go true (str x) q k = inl k
      go true (arr x) q k = inl k
      go true (obj x) q k = inl k

  -- With sound tables, a request under `/mcp` for a tool that saves, changes or deletes a note leaves
  -- the tables as they are, or it carries a bearer token that the store resolves to the claims of a
  -- user, and then the rows of all other users' notes are the same.
  pub call-IsAuthorized :
      (c : Change) (db : NotesDb Vector)
      → IsSound db
      → is_mcp scope ≡ true
      → IsAuthorized db
          (call decode lower S J redirect_base (tool_app embed c) state s scope ctx db).1
  call-IsAuthorized c db h m =
      go (call decode lower S J redirect_base (tool_app embed c) state s scope ctx db)
        (call-IsGuarded decode lower S J redirect_base (tool_app embed c) state s scope ctx db)
    where
      go :
          (r : Outcome (Reply Told) × NotesDb Vector × Context)
          → IsGuarded decode lower S J redirect_base (tool_app embed c) state s scope ctx db r
          → IsAuthorized db r.1
      go _ (outside e) = absurd (conflict m e)
      go _ (refused base e f x) = inl refl
      go _ (broken e x) = inl refl
      go _ (admitted token claims user_id e q b r u) =
          subst (λ (a : NotesDb Vector). IsAuthorized db a)
            (sym (passed-tables c (tool_app embed c (normalized scope) _ db)))
            (ByUser-IsAuthorized token claims user_id db _ b r u (run_change-ByUser embed c _ db h))

-- ===== src/Tests/Server.antt =====
-- The theorems on sessions and on the authorization server at concrete inputs: the store is the dict
-- of `MemoryStore`, the codec the one of `StackCodec`, and the transform of a verifier leaves it as
-- it is.
use vegapunk_web.Base.{true, false, none, some, List, [], ◌∷◌, ◌≡◌, ◌≢◌, refl, eqb, list_beq, arith}
use vegapunk_web.Base.Dict.{Dict, lookup, insert, erase}
use vegapunk_web.Text.{Text, codes, text_eq}
use vegapunk_web.Json.{Json, str, num, arr, strings, subscript, get_field, ok}
use vegapunk_web.Session.{memory_store, user_dict, create_session, get_session, destroy_session}
use vegapunk_web.Session.Laws.{Namespace, memory_store-IsLawful, key_injective, session_lifecycle}
use vegapunk_web.OauthStore.{
  client_dict, token_dict, put, get, pop, register_client, get_client, issue_code, issue_refresh,
  pop_refresh, pop_code, resolve_access,
}
use vegapunk_web.OauthStore.Refinement.{
  Command, give_code, take_code, run_all, specified_all, Represents, run_all-refines,
}
use vegapunk_web.Oauth.{
  code_dict, redirect_err, issue_and_redirect, authorize_session, authorize_known, authorize_client,
  authorize, resume_authorize,
}
use vegapunk_web.Oauth.Token.{mismatch, token_response, redeem, grant_authorization_code}
use vegapunk_web.Oauth.Grants.{is_granted, code_once}
use vegapunk_web.Oauth.Pkce.{Sound, granted-Sound}
use vegapunk_web.Oauth.Authorize.{OnlyTo, IsRegistered, target, resumed_target, authorize_redirects}
use vegapunk_web.Oauth.Flow.{code_redirect, tokens_reply, authorization_code_flow}
use vegapunk_web.Tests.StackCodec.{stack_codec, stack_codec-IsCodec, loads, dumps}

differ : (a b : Text) → list_beq eqb a b ≡ false → a ≢ b
differ a b h e =
    let same : list_beq eqb a b ≡ true = (text_eq.same_iff a b).1 e in absurd (ground arith)

abbrev show : Json → Text
show v = codes "?"

abbrev plain : Text → Text
plain verifier = verifier

-- A store with a registered client and the session `k` of user 7.
abbrev client : Json
client = client_dict (strings (codes "u" ∷ [])) (str (codes "n"))

abbrev with_client : Dict Text Text
with_client =
    (create_session memory_store stack_codec
      (register_client memory_store stack_codec [] (strings (codes "u" ∷ [])) (str (codes "n"))
        (codes "c"))
      7 60 (codes "k")).1

abbrev query : Dict Text Text
query =
    (codes "client_id", codes "c")
    ∷ (codes "redirect_uri", codes "u")
    ∷ (codes "code_challenge", codes "v")
    ∷ (codes "code_challenge_method", codes "S256")
    ∷ []

abbrev code_form : Dict Text Text
code_form =
    (codes "code", codes "x")
    ∷ (codes "code_verifier", codes "v")
    ∷ (codes "client_id", codes "c")
    ∷ (codes "redirect_uri", codes "u")
    ∷ []

abbrev refresh_form : Dict Text Text
refresh_form = (codes "refresh_token", codes "r") ∷ []

authorization_code_flow_example :
    let s' =
      (authorize show memory_store stack_codec with_client query
        (some (codes "k"))
        (codes "x")).1 in
    let r =
      grant_authorization_code plain memory_store stack_codec s' code_form
        (codes "a")
        (codes "r") in
    let claims = token_dict (num 7) (str (codes "c")) (str (codes "mcp")) in
    ((authorize show memory_store stack_codec with_client query (some (codes "k")) (codes "x")).0
      ≡ code_redirect query (codes "x"))
    × (r.0 ≡ tokens_reply (codes "a") (codes "r") (codes "mcp"))
    × (resolve_access memory_store stack_codec r.1 (codes "a") ≡ ok (some claims))
    × ((pop_refresh memory_store stack_codec r.1 (codes "r")).0 ≡ ok (some claims))
unfolding lookup insert list_beq subscript get_field get_client register_client create_session
    get_session put get loads dumps
authorization_code_flow_example =
    authorization_code_flow show plain memory_store memory_store-IsLawful stack_codec
      stack_codec-IsCodec with_client query code_form (some (codes "k")) (codes "a") (codes "r")
      client (arr (strings (codes "u" ∷ []))) 7 refl refl refl refl refl refl refl refl refl refl

-- A store with a code of user 7 for the client, and one with a refresh token.
abbrev with_code : Dict Text Text
with_code =
    issue_code memory_store stack_codec []
      (code_dict (str (codes "c")) (num 7) (str (codes "u")) (str (codes "v")) (str (codes "S256"))
        (str (codes "mcp")))
      (codes "x")

abbrev with_refresh : Dict Text Text
with_refresh =
    issue_refresh memory_store stack_codec [] (num 7) (str (codes "c")) (str (codes "mcp"))
      (codes "r")

granted-Sound_example :
    Sound plain memory_store memory_store-IsLawful stack_codec stack_codec-IsCodec with_code
      (grant_authorization_code plain memory_store stack_codec with_code code_form
        (codes "a")
        (codes "r")).1
      code_form
      (codes "a")
unfolding lookup insert erase list_beq subscript get_field issue_code put get pop pop_code loads
    dumps grant_authorization_code redeem mismatch token_response
granted-Sound_example =
    granted-Sound plain memory_store memory_store-IsLawful stack_codec stack_codec-IsCodec with_code
      code_form (codes "a") (codes "r") refl

code_once_example :
    is_granted
      (grant_authorization_code plain memory_store stack_codec
        (grant_authorization_code plain memory_store stack_codec with_code code_form
          (codes "a")
          (codes "r")).1
        code_form
        (codes "b")
        (codes "s")).0
    ≡ false
unfolding lookup list_beq
code_once_example =
    code_once plain memory_store memory_store-IsLawful stack_codec with_code
      (grant_authorization_code plain memory_store stack_codec with_code code_form (codes "a")
        (codes "r")).1
      code_form code_form (codes "x") (codes "a") (codes "r") (codes "b") (codes "s") refl refl refl
      refl

-- The store with the request that waits for a log-in.
abbrev waiting : Dict Text Text
waiting = (authorize show memory_store stack_codec with_client query none (codes "x")).1

authorize_redirects_example :
    OnlyTo
      (IsRegistered memory_store stack_codec with_client query)
      (target (authorize show memory_store stack_codec with_client query none (codes "x")).0)
    × OnlyTo (IsRegistered memory_store stack_codec with_client query) (
        resumed_target memory_store stack_codec
          (resume_authorize show memory_store stack_codec waiting
            (num 7)
            (codes "x")
            (codes "y")).0)
unfolding lookup insert list_beq subscript get_field get_client register_client create_session
    get_session put get loads dumps authorize authorize_client authorize_known authorize_session
    issue_and_redirect redirect_err
authorize_redirects_example =
    authorize_redirects show memory_store memory_store-IsLawful stack_codec stack_codec-IsCodec
      with_client waiting query none (codes "x") (codes "y") (num 7) refl refl

key_injective_example : (Namespace.sess ≡ Namespace.sess) × (codes "k" ≡ codes "k")
key_injective_example = key_injective Namespace.sess Namespace.sess (codes "k") (codes "k") refl

session_lifecycle_example :
    let s' = (create_session memory_store stack_codec with_client 8 60 (codes "m")).1 in
    (get_session memory_store stack_codec s' (codes "m") ≡ ok (some (user_dict 8)))
    × (get_session memory_store stack_codec s' (codes "k")
        ≡ get_session memory_store stack_codec with_client (codes "k"))
    × (get_session memory_store stack_codec
          (destroy_session memory_store s' (codes "m"))
          (codes "m")
        ≡ ok none)
unfolding list_beq
session_lifecycle_example =
    session_lifecycle memory_store memory_store-IsLawful stack_codec stack_codec-IsCodec with_client
      8 60 (codes "m") (codes "k") (differ _ _ refl)

-- A code is given, taken and asked for again.
abbrev three_calls : List Command
three_calls =
    give_code (str (codes "p")) (codes "x") ∷ take_code (codes "x") ∷ take_code (codes "x") ∷ []

nothing-Represents : Represents memory_store stack_codec [] (λ k t. none)
unfolding get lookup
nothing-Represents k t = refl

run_all-refines_example :
    ((run_all memory_store stack_codec three_calls []).0
      ≡ ok none ∷ ok (some (str (codes "p"))) ∷ ok none ∷ [])
    × Represents memory_store stack_codec
        (run_all memory_store stack_codec three_calls []).1
        ((specified_all three_calls (λ k t. none)).1)
unfolding specified_all list_beq
run_all-refines_example =
    run_all-refines memory_store memory_store-IsLawful stack_codec stack_codec-IsCodec three_calls
      [] (λ k t. none) nothing-Represents

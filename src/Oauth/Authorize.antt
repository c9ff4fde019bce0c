-- ===== src/Oauth/Authorize.antt =====
-- The redirects of the authorize endpoint, and of its resumption after a log-in, of app/routes/oauth.py.
use vegapunk_web.Base.{
  Bool, true, false, not, Option, none, some, [], ◌++◌, ◌≡◌, refl, ap, ◌∙◌, ◌⊎◌, inl, inr, if_intro,
  ◌==◌, list_beq,
}
use vegapunk_web.Base.Dict.{Dict}
use vegapunk_web.Text.{Text, text_eq, codes}
use vegapunk_web.Json.{Json, subscript, Outcome, ok, raised, ◌>>=◌, Codec, IsCodec}
use vegapunk_web.Session.{Store, IsLawful, decode_raw}
use vegapunk_web.Session.Laws.{Namespace, key-ne}
use vegapunk_web.OauthStore.{
  get_client, get, save_authreq, issue_code, pop_authreq, pop, authreq_prefix, code_prefix,
}
use vegapunk_web.OauthStore.Laws.{get-put_ne, get-put_self}
use vegapunk_web.Oauth.{
  Reply, redirect, param, redirect_err, or_failed, contains_uri, issue_and_redirect,
  authorize_session, authorize_known, authorize_client, authorize, lacks_pkce, pending_of,
  session_of, resume_authorize,
}

-- The URI of a redirect to the client.
abbrev pub target : Reply → Option Text
target (redirect uri params) = some uri
target _ = none

-- Every URI there is has the property.
abbrev pub OnlyTo : (Text → Type 0) → Option Text → Type 0
OnlyTo P none = Unit
OnlyTo P (some uri) = P uri

module _ (S : Store) (J : Codec) where
  -- The URI is the one that the request names, and it is registered for the client of the request.
  pub record IsRegistered (s : S.State) (q : Dict Text Text) (uri : Text) : Type 0 where
    pub named : uri ≡ param q (codes "redirect_uri") []
    pub client : Json
    pub uris : Json
    pub is_client : get_client S J s (param q (codes "client_id") []) ≡ ok (some client)
    pub has_uris : subscript (codes "redirect_uris") client ≡ ok uris
    pub has_uri : contains_uri uris (param q (codes "redirect_uri") []) ≡ ok true

  -- The redirect of `resume_authorize`.
  abbrev pub resumed_target : Option (Reply × S.State) → Option Text
  resumed_target none = none
  resumed_target (some r) = target r.0

module _ (show : Json → Text) (S : Store) (L : IsLawful S) (J : Codec) (C : IsCodec J) where
  -- What is kept for a resumption: nothing, or a request for a registered URI.
  abbrev IsKept : S.State → Dict Text Text → Text → S.State → Type 0
  IsKept s q fresh s' =
      (S.get s' (authreq_prefix ++ fresh) ≡ none)
      ⊎ ((get S J s' (authreq_prefix ++ fresh) ≡ ok (some (pending_of q)))
          × IsRegistered S J s q (param q (codes "redirect_uri") []))

  abbrev IsSafe : S.State → Dict Text Text → Text → Reply × S.State → Type 0
  IsSafe s q fresh r = OnlyTo (IsRegistered S J s q) (target r.0) × IsKept s q fresh r.1

  IsSafe-authorize_session :
      (s : S.State) (q : Dict Text Text) (fresh : Text) (sess : Option Json)
      → S.get s (authreq_prefix ++ fresh) ≡ none
      → IsRegistered S J s q (param q (codes "redirect_uri") [])
      → IsSafe s q fresh (or_failed s (authorize_session show S J s (pending_of q) fresh sess))
  unfolding authorize_session issue_and_redirect subscript list_beq save_authreq issue_code
  IsSafe-authorize_session s q fresh none e r =
      (tt, inr (get-put_self S L J s (authreq_prefix ++ fresh) 600 (pending_of q) C, r))
  IsSafe-authorize_session s q fresh (some sess) e r = go (subscript (codes "user_id") sess)
    where
      go :
          (o : Outcome Json)
          → IsSafe s q fresh (
              or_failed s
                (do user_id ← o; issue_and_redirect show S J s user_id (pending_of q) fresh))
      go raised = (tt, inl e)
      go (ok u) = (
        r,
        inl (
            get-put_ne S L J s (authreq_prefix ++ fresh) (code_prefix ++ fresh) 60 _
              (key-ne Namespace.auth_code Namespace.authreq fresh fresh (λ p. cc))
            ∙ e),
      )

  IsSafe-authorize_known :
      (s : S.State) (q : Dict Text Text) (cookie : Option Text) (fresh : Text) (known : Bool)
      → S.get s (authreq_prefix ++ fresh) ≡ none
      → (known ≡ true → IsRegistered S J s q (param q (codes "redirect_uri") []))
      → IsSafe s q fresh (or_failed s (authorize_known show S J s q cookie fresh known))
  unfolding authorize_known redirect_err
  IsSafe-authorize_known s q cookie fresh false e r = (tt, inl e)
  IsSafe-authorize_known s q cookie fresh true e r =
      if_intro P (not (param q (codes "response_type") (codes "code") == codes "code")) _ _
        (λ _. (r refl, inl e))
        (λ _.
          if_intro P (lacks_pkce q) _ _ (λ _. (r refl, inl e))
            (λ _. go (session_of show S J s cookie)))
    where
      P : Outcome (Reply × S.State) → Type 0
      P o = IsSafe s q fresh (or_failed s o)

      go :
          (o : Outcome (Option Json))
          → P (do sess ← o; authorize_session show S J s (pending_of q) fresh sess)
      go raised = (tt, inl e)
      go (ok sess) = IsSafe-authorize_session s q fresh sess e (r refl)

  IsSafe-authorize :
      (s : S.State) (q : Dict Text Text) (cookie : Option Text) (fresh : Text)
      → S.get s (authreq_prefix ++ fresh) ≡ none
      → IsSafe s q fresh (authorize show S J s q cookie fresh)
  unfolding authorize authorize_client
  IsSafe-authorize s q cookie fresh e = go (get_client S J s (param q (codes "client_id") [])) refl
    where
      named : Text
      named = param q (codes "redirect_uri") []

      P : Outcome (Reply × S.State) → Type 0
      P o = IsSafe s q fresh (or_failed s o)

      known :
          (client uris : Json)
          → get_client S J s (param q (codes "client_id") []) ≡ ok (some client)
          → subscript (codes "redirect_uris") client ≡ ok uris
          → (k : Outcome Bool) → contains_uri uris named ≡ k
          → P (do b ← k; authorize_known show S J s q cookie fresh b)
      known client uris ec eu raised ek = (tt, inl e)
      known client uris ec eu (ok b) ek = IsSafe-authorize_known s q cookie fresh b e (λ t. record {
        named = refl;
        client = client;
        uris = uris;
        is_client = ec;
        has_uris = eu;
        has_uri = ek ∙ ap ok t;
      })

      listed :
          (client : Json)
          → get_client S J s (param q (codes "client_id") []) ≡ ok (some client)
          → (u : Outcome Json) → subscript (codes "redirect_uris") client ≡ u
          → P (do
            uris ← u
            b ← contains_uri uris named
            authorize_known show S J s q cookie fresh b)
      listed client ec raised eu = (tt, inl e)
      listed client ec (ok uris) eu = known client uris ec eu (contains_uri uris named) refl

      go :
          (o : Outcome (Option Json))
          → get_client S J s (param q (codes "client_id") []) ≡ o
          → P (do client ← o; authorize_client show S J s q cookie fresh client)
      go raised ec = (tt, inl e)
      go (ok none) ec = (tt, inl e)
      go (ok (some client)) ec = listed client ec (subscript (codes "redirect_uris") client) refl

  resumed-IsKept :
      (s t : S.State) (q : Dict Text Text) (user_id : Json) (fresh code : Text)
      → IsKept s q fresh t
      → OnlyTo
          (IsRegistered S J s q)
          (resumed_target S J (resume_authorize show S J t user_id fresh code).0)
  unfolding resume_authorize issue_and_redirect subscript list_beq pop_authreq pop get
  resumed-IsKept s t q user_id fresh code (inl e) = rw (e, resume_authorize) tt
  resumed-IsKept s t q user_id fresh code (inr (e, r)) = rw (e, resume_authorize) r

  -- Over a lawful store, with a fresh authreq id that no entry of it has, the authorize endpoint
  -- redirects to a client only at the URI that the request names and that is registered for the
  -- client it names, errors included. So does the resumption of the request after a log-in: as long
  -- as the entry of the id stays what `authorize` left, it redirects only to that URI.
  pub authorize_redirects :
      (s t : S.State) (q : Dict Text Text) (cookie : Option Text) (fresh code : Text)
      (user_id : Json)
      → S.get s (authreq_prefix ++ fresh) ≡ none
      → S.get t (authreq_prefix ++ fresh)
        ≡ S.get (authorize show S J s q cookie fresh).1 (authreq_prefix ++ fresh)
      → OnlyTo (IsRegistered S J s q) (target (authorize show S J s q cookie fresh).0)
        × OnlyTo
            (IsRegistered S J s q)
            (resumed_target S J (resume_authorize show S J t user_id fresh code).0)
  unfolding get
  authorize_redirects s t q cookie fresh code user_id e same =
      let (direct, kept) = IsSafe-authorize s q cookie fresh e in
      (
        direct,
        resumed-IsKept s t q user_id fresh code (elim kept [
          | inl n ↦ inl (same ∙ n)
          | inr (g, r) ↦ inr (ap (decode_raw J) same ∙ g, r)
        ]),
      )

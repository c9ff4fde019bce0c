-- ===== src/OauthStore/Laws.antt =====
-- The entries of the store of app/oauth_store.py, written and read.
use vegapunk_web.Base.{ℕ, false, Option, none, some, ◌≡◌, refl, ap, ◌∙◌, ◌⊎◌, inl, inr, ◌==◌}
use vegapunk_web.Text.{Text, text_eq}
use vegapunk_web.Json.{Json, Outcome, ok, raised, Codec, IsCodec}
use vegapunk_web.Session.{Store, IsLawful, decode_raw}
use vegapunk_web.Session.Laws.{get-delete_self, get-setex_self}
use vegapunk_web.OauthStore.{put, get, pop, pop_rest}

module _ (S : Store) (L : IsLawful S) (J : Codec) where
  pub get-put_ne :
      (s : S.State) (j k : Text) (ttl : ℕ) (v : Json)
      → (k == j) ≡ false
      → S.get (put S J s k ttl v) j ≡ S.get s j
  unfolding put
  get-put_ne s j k ttl v e = L.get-setex s j k ttl (J.dumps v) ∙ rw e

  pub get-put_self :
      (s : S.State) (k : Text) (ttl : ℕ) (v : Json)
      → IsCodec J
      → get S J (put S J s k ttl v) k ≡ ok (some v)
  unfolding put get
  get-put_self s k ttl v C = rw (get-setex_self S L, C.loads-dumps)

  -- A value that was put can be popped, and is gone then.
  pub pop_of_get :
      (s : S.State) (k : Text) (v : Json)
      → get S J s k ≡ ok (some v)
      → pop S J s k ≡ (ok (some v), S.delete s k)
  unfolding pop
  pop_of_get s k v e = rw e

  -- Nothing can be had for the key.
  abbrev pub IsSpent : S.State → Text → Type 0
  IsSpent s k = (get S J s k ≡ ok none) ⊎ (get S J s k ≡ raised)

  pub IsSpent-of_none : (s : S.State) (k : Text) → S.get s k ≡ none → IsSpent s k
  unfolding get
  IsSpent-of_none s k e = inl (rw e)

  pub IsSpent-same : (s t : S.State) (k : Text) → S.get t k ≡ S.get s k → IsSpent s k → IsSpent t k
  unfolding get
  IsSpent-same s t k e (inl h) = inl (ap (decode_raw J) e ∙ h)
  IsSpent-same s t k e (inr h) = inr (ap (decode_raw J) e ∙ h)

  pub IsSpent-pop : (s : S.State) (k : Text) → IsSpent (pop S J s k).1 k
  unfolding pop
  IsSpent-pop s k = go (get S J s k) refl
    where
      go : (o : Outcome (Option Json)) → get S J s k ≡ o → IsSpent (pop_rest S J s k o).1 k
      go raised e = inr e
      go (ok v) e = IsSpent-of_none (S.delete s k) k (get-delete_self S L s k)

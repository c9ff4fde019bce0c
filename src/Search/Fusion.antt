-- ===== src/Search/Fusion.antt =====
-- The scores of rrf of app/search.py.
use vegapunk_web.Base.{
  ℕ, suc, ◌+◌, Option, none, some, List, [], ◌∷◌, ◌++◌, ◌≡◌, refl, ap, sym, ◌∙◌, eqb, eqb_iff,
  if◌then◌else◌, nat_eq, Bool-cases, inl, inr,
}
use mathlib.Core.Option.{some-injective}
use vegapunk_web.Base.Dict
use vegapunk_web.Base.Dict.{lookup, lookup-insert}
use vegapunk_web.Search.{Floats, Scores, score_of, add_ranks, add_lists}

module _ (F : Floats) where
  open F use {Float, zero_float, add, recip}

  -- The contributions of a list to a chunk: 1/(k+r+1) for each place `r`, from rank `r` on.
  pub contributions : ℕ → ℕ → ℕ → List ℕ → List Float
  contributions k c r [] = []
  contributions k c r (d ∷ ds) =
      let rest = contributions k c (suc r) ds in if eqb d c then recip (k + r + 1) ∷ rest else rest

  pub all_contributions : ℕ → ℕ → List (List ℕ) → List Float
  all_contributions k c [] = []
  all_contributions k c (l ∷ ls) = contributions k c 0 l ++ all_contributions k c ls

  -- A chunk's entry after some contributions: none if there were none.
  abbrev pub add_up : Option Float → List Float → Option Float
  add_up acc [] = acc
  add_up none (v ∷ vs) = add_up (some (add zero_float v)) vs
  add_up (some a) (v ∷ vs) = add_up (some (add a v)) vs

  add_up-append :
      (acc : Option Float) (vs ws : List Float) → add_up acc (vs ++ ws) ≡ add_up (add_up acc vs) ws
  add_up-append acc [] ws = refl
  add_up-append none (v ∷ vs) ws = add_up-append (some (add zero_float v)) vs ws
  add_up-append (some a) (v ∷ vs) ws = add_up-append (some (add a v)) vs ws

  lookup-add_ranks :
      (k r c : ℕ) (ds : List ℕ) (scores : Scores F)
      → lookup c (add_ranks F k r ds scores) ≡ add_up (lookup c scores) (contributions k c r ds)
  unfolding add_ranks contributions
  lookup-add_ranks k r c [] scores = refl
  lookup-add_ranks k r c (d ∷ ds) scores =
      lookup-add_ranks k (suc r) c ds (Dict.insert d value scores)
      ∙ ap (λ (o : Option Float). add_up o (contributions k c (suc r) ds))
          (lookup-insert c d value scores)
      ∙ elim (Bool-cases (eqb d c)) [
        | inl e ↦ rw e (
            entry (lookup d scores) (lookup c scores) (recip (k + r + 1))
              (contributions k c (suc r) ds) (ap (λ (x : ℕ). lookup x scores) ((eqb_iff d c).0 e)))
        | inr e ↦ rw e
      ]
    where
      value : Float
      value = add (score_of F d scores) (recip (k + r + 1))

      entry :
          (o p : Option Float) (v : Float) (vs : List Float)
          → o ≡ p
          → add_up (some (add (elim o [ none ↦ zero_float | some a ↦ a ]) v)) vs ≡ add_up p (v ∷ vs)
      entry none none v vs e = refl
      entry none (some b) v vs e = cc
      entry (some a) none v vs e = cc
      entry (some a) (some b) v vs e =
          ap (λ (x : Float). add_up (some (add x v)) vs) (some-injective a b e)

  lookup-add_lists :
      (k c : ℕ) (ls : List (List ℕ)) (scores : Scores F)
      → lookup c (add_lists F k ls scores) ≡ add_up (lookup c scores) (all_contributions k c ls)
  unfolding add_lists all_contributions
  lookup-add_lists k c [] scores = refl
  lookup-add_lists k c (l ∷ ls) scores =
      lookup-add_lists k c ls (add_ranks F k 0 l scores)
      ∙ ap (λ (o : Option Float). add_up o (all_contributions k c ls))
          (lookup-add_ranks k 0 c l scores)
      ∙ sym (add_up-append (lookup c scores) (contributions k c 0 l) (all_contributions k c ls))

  -- Before the sort: a chunk that no list names has no score; any other has the sum, from 0.0 on
  -- and in the order of the lists and ranks, of 1/(k+r+1) over the places `r` that name it.
  pub rrf_score :
      (k c : ℕ) (rank_lists : List (List ℕ))
      → lookup c (add_lists F k rank_lists []) ≡ add_up none (all_contributions k c rank_lists)
  unfolding lookup
  rrf_score k c rank_lists = lookup-add_lists k c rank_lists []

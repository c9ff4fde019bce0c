-- ===== src/Search/Gate.antt =====
-- The list of hits of search of app/search.py: its length and its order.
use vegapunk_web.Base.{
  ℕ, zero, suc, ◌≤◌, Bool, false, ◌&&◌, Option, none, some, List, [], ◌∷◌, take, keep, length,
  is_nil, if_intro, nat_eq, ◌≡◌, inl, inr, arith, All, In,
}
use vegapunk_web.Base.Sorting.{IsSorted, IsStrictOrder, sorted-IsSorted}
use vegapunk_web.Search.{
  Floats, Link, Meta, Row, Scores, SearchHit, higher, hit_of, hits_of, clamp_top_k, scored, ranked,
  search,
}

module _ {A : Type 0} where
  length-take-le : (n : ℕ) (xs : List A) → length (take n xs) ≤ n
  length-take-le zero xs = omega arith
  length-take-le (suc n) [] = omega arith
  length-take-le (suc n) (x ∷ xs) = omega (arith, length-take-le n xs)

  pub In-take : (n : ℕ) (a : A) (xs : List A) → In a (take n xs) → In a xs
  In-take zero a xs h = absurd h
  In-take (suc n) a [] h = h
  In-take (suc n) a (x ∷ xs) (inl e) = inl e
  In-take (suc n) a (x ∷ xs) (inr h) = inr (In-take n a xs h)

  All-take : (P : A → Type 0) (n : ℕ) (xs : List A) → All P xs → All P (take n xs)
  All-take P zero xs h = tt
  All-take P (suc n) [] h = tt
  All-take P (suc n) (x ∷ xs) h = (h.0, All-take P n xs h.1)

  All-keep' : (P : A → Type 0) (p : A → Bool) (xs : List A) → All P xs → All P (keep p xs)
  All-keep' P p [] h = tt
  All-keep' P p (x ∷ xs) h =
      if_intro (All P) (p x) _ _ (λ _. (h.0, All-keep' P p xs h.1)) (λ _. All-keep' P p xs h.1)

  module _ (before : A → A → Bool) where
    IsSorted-take : (n : ℕ) (xs : List A) → IsSorted before xs → IsSorted before (take n xs)
    IsSorted-take zero xs h = tt
    IsSorted-take (suc n) [] h = tt
    IsSorted-take (suc n) (x ∷ xs) h =
        (All-take (λ y. before y x ≡ false) n xs h.0, IsSorted-take n xs h.1)

    IsSorted-keep : (p : A → Bool) (xs : List A) → IsSorted before xs → IsSorted before (keep p xs)
    IsSorted-keep p [] h = tt
    IsSorted-keep p (x ∷ xs) h =
        if_intro (IsSorted before) (p x) _ _
          (λ _. (All-keep' (λ y. before y x ≡ false) p xs h.0, IsSorted-keep p xs h.1))
          (λ _. IsSorted-keep p xs h.1)

clamp_bounds : (F : Floats) (k : ℕ) → (1 ≤ clamp_top_k F k) × (clamp_top_k F k ≤ 30)
clamp_bounds F k = ground arith

module _ (F : Floats) where
  open F use {Float, zero_float, lt, le, bigm_keep, far}

  length-hit_of :
      (c : ℕ) (v : Float) (o : Option Meta) (rest : List (SearchHit F))
      → length (hit_of F c v o rest) ≤ suc (length rest)
  length-hit_of c v none rest = omega arith
  length-hit_of c v (some m) rest = omega arith

  length-hits_of :
      (meta : ℕ → Option Meta) (top : Scores F) → length (hits_of F meta top) ≤ length top
  unfolding hits_of
  length-hits_of meta [] = omega arith
  length-hits_of meta ((c, v) ∷ top) =
      omega (arith, length-hit_of c v (meta c) (hits_of F meta top), length-hits_of meta top)

  -- A search for a positive `top_k` returns at most `top_k` hits, and never more than 30.
  pub length-search :
      (links : List Link) (nearest : ℕ → Option ℕ) (meta : ℕ → Option Meta) (vec big : List (Row F))
      (max_dist : Float) (gate : Bool) (top_k : ℕ)
      → 1 ≤ top_k
      → let n = length (search F links nearest meta vec big max_dist gate top_k) in
        (n ≤ 30) × (n ≤ top_k)
  unfolding search
  length-search links nearest meta vec big max_dist gate top_k h =
      if_intro (λ (hits : List (SearchHit F)). (length hits ≤ 30) × (length hits ≤ top_k))
        (is_nil vec && is_nil big) _ _ (λ _. (omega arith, omega arith))
        (λ _.
          let top = ranked F (scored F links nearest vec big) vec big max_dist gate in
          let k = clamp_top_k F top_k in
          let a = length-hits_of meta (take k top) in
          let b = length-take-le k top in
          (omega (arith, a, b, (clamp_bounds F top_k).1), bound top_k k h (clamp_le top_k h) a b))
    where
      clamp_le : (top_k : ℕ) → 1 ≤ top_k → clamp_top_k F top_k ≤ top_k
      clamp_le top_k h = ground arith

      bound : (top_k k : ℕ) {n m : ℕ} → 1 ≤ top_k → k ≤ top_k → n ≤ m → m ≤ k → n ≤ top_k
      bound top_k k h c a b = omega arith

  -- A property of the scored chunks, as one of the hits.
  abbrev pub HitHas : (ℕ × Float → Type 0) → SearchHit F → Type 0
  HitHas P h = P (h.chunk_id, h.score)

  pub All-hits_of :
      (P : ℕ × Float → Type 0) (meta : ℕ → Option Meta) (top : Scores F)
      → All P top
      → All (HitHas P) (hits_of F meta top)
  unfolding hits_of
  All-hits_of P meta [] h = tt
  All-hits_of P meta ((c, v) ∷ top) h =
      go (meta c) (hits_of F meta top) (All-hits_of P meta top h.1)
    where
      go :
          (o : Option Meta) (rest : List (SearchHit F))
          → All (HitHas P) rest
          → All (HitHas P) (hit_of F c v o rest)
      go none rest k = k
      go (some m) rest k = (h.0, k)

  -- The later hit of two has no higher score.
  abbrev pub higher_hit : SearchHit F → SearchHit F → Bool
  higher_hit a b = lt b.score a.score

  hits_of-IsSorted :
      (meta : ℕ → Option Meta) (top : Scores F)
      → IsSorted (higher F) top
      → IsSorted higher_hit (hits_of F meta top)
  unfolding hits_of
  hits_of-IsSorted meta [] h = tt
  hits_of-IsSorted meta ((c, v) ∷ top) h =
      go (meta c) (All-hits_of (λ p. lt v p.1 ≡ false) meta top h.0) (hits_of-IsSorted meta top h.1)
    where
      go :
          (o : Option Meta)
          → All (λ (x : SearchHit F). lt v x.score ≡ false) (hits_of F meta top)
          → IsSorted higher_hit (hits_of F meta top)
          → IsSorted higher_hit (hit_of F c v o (hits_of F meta top))
      go none a k = k
      go (some m) a k = (a, k)

  -- If `<` on the scores is a strict order, the hits stand in the order of their scores, the
  -- highest first, with the gate and without it.
  pub search-IsSorted :
      (order : IsStrictOrder (higher F)) (links : List Link) (nearest : ℕ → Option ℕ)
      (meta : ℕ → Option Meta) (vec big : List (Row F)) (max_dist : Float) (gate : Bool) (top_k : ℕ)
      → IsSorted higher_hit (search F links nearest meta vec big max_dist gate top_k)
  unfolding search ranked
  search-IsSorted order links nearest meta vec big max_dist gate top_k =
      if_intro (IsSorted higher_hit) (is_nil vec && is_nil big) _ _ (λ _. tt)
        (λ _. hits_of-IsSorted meta _ (
          IsSorted-take (higher F) (clamp_top_k F top_k) _ (
            if_intro (IsSorted (higher F)) gate _ _
              (λ _. IsSorted-keep (higher F) _ _ (sorted-IsSorted (higher F) order _))
              (λ _. sorted-IsSorted (higher F) order _))))

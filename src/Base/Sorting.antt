-- ===== src/Base/Sorting.antt =====
-- `sorted(xs, key=..., reverse=True)`: a stable sort. `before y x` says that `y`, which stands
-- behind `x`, has to come first; ties keep their order.
use Prim.Native.Nat.{suc}
use mathlib.Core.Path.{◌≡◌, refl, ap, ◌∙◌}
use mathlib.Core.Logic.{◌⊎◌, inl, inr}
use mathlib.Core.Bool.{Bool, true, false}
use mathlib.Core.List.{List, [], ◌∷◌}
use vegapunk_web.Base.Tests.{if◌then◌else◌, Bool-cases}
use vegapunk_web.Base.Lists.{In, All, length}

module _ {ℓ} {A : Type ℓ} (before : A → A → Bool) where
  -- `x` came before all of the sorted list in the source order.
  unfoldable pub insert_sorted : A → List A → List A
  insert_sorted x [] = x ∷ []
  insert_sorted x (y ∷ ys) = if before y x then y ∷ insert_sorted x ys else x ∷ y ∷ ys

  unfoldable pub sorted : List A → List A
  unfolding insert_sorted
  sorted [] = []
  sorted (x ∷ xs) = insert_sorted x (sorted xs)

  -- No element has to come before an earlier one.
  abbrev pub IsSorted : List A → Type 0
  IsSorted [] = Unit
  IsSorted (x ∷ xs) = All (λ y. before y x ≡ false) xs × IsSorted xs

  length-insert_sorted : (x : A) (ys : List A) → length (insert_sorted x ys) ≡ suc (length ys)
  unfolding insert_sorted
  length-insert_sorted x [] = refl
  length-insert_sorted x (y ∷ ys) = elim (Bool-cases (before y x)) [
    | inl e ↦ rw e (ap suc (length-insert_sorted x ys))
    | inr e ↦ rw e
  ]

  pub length-sorted : (xs : List A) → length (sorted xs) ≡ length xs
  unfolding sorted
  length-sorted [] = refl
  length-sorted (x ∷ xs) = length-insert_sorted x (sorted xs) ∙ ap suc (length-sorted xs)

  pub All-insert_sorted {κ} :
      (P : A → Type κ) (x : A) (ys : List A) → P x → All P ys → All P (insert_sorted x ys)
  unfolding insert_sorted
  All-insert_sorted P x [] p h = (p, tt)
  All-insert_sorted P x (y ∷ ys) p h = elim (Bool-cases (before y x)) [
    | inl e ↦ rw e (h.0, All-insert_sorted P x ys p h.1)
    | inr e ↦ rw e (p, h)
  ]

  pub All-sorted {κ} : (P : A → Type κ) (xs : List A) → All P xs → All P (sorted xs)
  unfolding sorted
  All-sorted P [] h = tt
  All-sorted P (x ∷ xs) h = All-insert_sorted P x (sorted xs) h.0 (All-sorted P xs h.1)

  -- `before` is a strict weak order, as the order of the keys is.
  pub record IsStrictOrder : Type ℓ where
    pub asym : (x y : A) → before x y ≡ true → before y x ≡ false
    pub cotrans : (x y z : A) → before x y ≡ false → before y z ≡ false → before x z ≡ false

  module _ (order : IsStrictOrder) where
    All-below :
        (x y : A) (zs : List A)
        → before y x ≡ false
        → All (λ z. before z y ≡ false) zs
        → All (λ z. before z x ≡ false) zs
    All-below x y [] e h = tt
    All-below x y (z ∷ zs) e h = (order.cotrans z y x h.0 e, All-below x y zs e h.1)

    insert_sorted-IsSorted : (x : A) (ys : List A) → IsSorted ys → IsSorted (insert_sorted x ys)
    unfolding insert_sorted
    insert_sorted-IsSorted x [] s = (tt, tt)
    insert_sorted-IsSorted x (y ∷ ys) s = elim (Bool-cases (before y x)) [
      | inl e ↦ rw e (
        All-insert_sorted (λ z. before z y ≡ false) x ys (order.asym y x e) s.0,
        insert_sorted-IsSorted x ys s.1,
      )
      | inr e ↦ rw e ((e, All-below x y ys e s.0), s)
    ]

    pub sorted-IsSorted : (xs : List A) → IsSorted (sorted xs)
    unfolding sorted
    sorted-IsSorted [] = tt
    sorted-IsSorted (x ∷ xs) = insert_sorted-IsSorted x (sorted xs) (sorted-IsSorted xs)

module _ {A : Type 0} (before : A → A → Bool) where
  In-insert_sorted : (a x : A) (ys : List A) → (a ≡ x) ⊎ In a ys → In a (insert_sorted before x ys)
  unfolding insert_sorted
  In-insert_sorted a x [] h = h
  In-insert_sorted a x (y ∷ ys) h = elim (Bool-cases (before y x)) [
    | inl e ↦ rw e (elim h [
      | inl q ↦ inr (In-insert_sorted a x ys (inl q))
      | inr i ↦ elim i [ inl q ↦ inl q | inr r ↦ inr (In-insert_sorted a x ys (inr r)) ]
    ])
    | inr e ↦ rw e h
  ]

  pub In-sorted : (a : A) (xs : List A) → In a xs → In a (sorted before xs)
  unfolding sorted
  In-sorted a [] h = h
  In-sorted a (x ∷ xs) (inl q) = In-insert_sorted a x (sorted before xs) (inl q)
  In-sorted a (x ∷ xs) (inr h) = In-insert_sorted a x (sorted before xs) (inr (In-sorted a xs h))

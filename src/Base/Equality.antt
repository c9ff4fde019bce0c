-- ===== src/Base/Equality.antt =====
-- Python's `==` and `in`, for every type with a Boolean equality.
use Prim.Native.Nat.{ℕ}
use mathlib.Core.Path.{◌≡◌, refl}
use mathlib.Core.Logic.{◌≢◌, ◌↔◌, inl, inr}
use mathlib.Core.Bool.{Bool, true, false, ◌&&◌, ◌||◌}
use mathlib.Core.List.{List, [], ◌∷◌}
use native.Mathlib.Omega.{arith}
use vegapunk_web.Base.Tests.{eqb, eqb_iff, Bool-cases}
use vegapunk_web.Base.Lists.{In}

unfoldable pub list_beq {ℓ} : {A : Type ℓ} → (A → A → Bool) → List A → List A → Bool
list_beq e [] [] = true
list_beq e [] (y ∷ ys) = false
list_beq e (x ∷ xs) [] = false
list_beq e (x ∷ xs) (y ∷ ys) = e x y && list_beq e xs ys

pub list_beq_iff {ℓ} :
    {A : Type ℓ} (e : A → A → Bool)
    → ((a b : A) → (e a b ≡ true) ↔ (a ≡ b))
    → (xs ys : List A) → (list_beq e xs ys ≡ true) ↔ (xs ≡ ys)
unfolding list_beq
list_beq_iff e law [] [] = (λ _. refl, λ _. refl)
list_beq_iff e law [] (y ∷ ys) = (λ h. cc, λ h. cc)
list_beq_iff e law (x ∷ xs) [] = (λ h. cc, λ h. cc)
list_beq_iff e law (x ∷ xs) (y ∷ ys) = ground (arith, law x y, list_beq_iff e law xs ys)

-- The `__eq__` of a type.
pub record Equals {ℓ} (A : Type ℓ) : Type ℓ where
  pub same : A → A → Bool
  pub same_iff : (x y : A) → (same x y ≡ true) ↔ (x ≡ y)

instance abbrev pub nat_eq : Equals ℕ
nat_eq = record { same = eqb; same_iff = eqb_iff }

infix 50 ◌==◌
abbrev pub ◌==◌ {ℓ} : {A : Type ℓ} ⦃equals : Equals A⦄ → A → A → Bool
◌==◌ ⦃equals⦄ x y = equals.same x y

module _ {ℓ} {A : Type ℓ} ⦃e : Equals A⦄ where
  pub ==-refl : (a : A) → (a == a) ≡ true
  ==-refl a = (e.same_iff a a).1 refl

  pub ==-ne : (a b : A) → a ≢ b → (a == b) ≡ false
  ==-ne a b h = elim (Bool-cases (a == b)) [ inl t ↦ absurd (h ((e.same_iff a b).0 t)) | inr f ↦ f ]

  abbrev pub contains : List A → A → Bool
  contains [] a = false
  contains (x ∷ xs) a = a == x || contains xs a

module _ {A : Type 0} ⦃e : Equals A⦄ where
  pub contains→In : (xs : List A) (a : A) → contains xs a ≡ true → In a xs
  contains→In [] a h = cc
  contains→In (x ∷ xs) a h = elim (Bool-cases (a == x)) [
    | inl t ↦ inl ((e.same_iff a x).0 t)
    | inr f ↦ inr (contains→In xs a (rw f at h))
  ]

  pub In→contains : (xs : List A) (a : A) → In a xs → contains xs a ≡ true
  In→contains [] a h = absurd h
  In→contains (x ∷ xs) a (inl q) = rw ((e.same_iff a x).1 q)
  In→contains (x ∷ xs) a (inr h) = ground (arith, In→contains xs a h)

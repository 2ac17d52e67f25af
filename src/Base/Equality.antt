-- ===== src/Base/Equality.antt =====
-- Go's constraint `comparable`: a type with a Boolean `==` that agrees with equality.
use Prim.Native.Nat.{ℕ}
use mathlib.Core.Path.{◌≡◌, refl}
use mathlib.Core.Logic.{◌↔◌}
use mathlib.Core.Bool.{Bool, true, false, ◌&&◌}
use mathlib.Core.List.{List, [], ◌∷◌}
use native.Mathlib.Omega.{arith}
use compage_go.Base.Tests.{nat_beq, nat_beq_iff}

pub record Comparable {ℓ} (K : Type ℓ) : Type ℓ where
  pub same : K → K → Bool
  pub same_iff : (x y : K) → (same x y ≡ true) ↔ (x ≡ y)

instance abbrev pub nat_comparable : Comparable ℕ
nat_comparable = record { same = nat_beq; same_iff = nat_beq_iff }

module _ {ℓ} {K : Type ℓ} ⦃c : Comparable K⦄ where
  infix 50 ◌==◌
  abbrev pub ◌==◌ : K → K → Bool
  x == y = c.same x y

module _ {ℓ} {K : Type ℓ} ⦃c : Comparable K⦄ where
  abbrev pub list_same : List K → List K → Bool
  list_same [] [] = true
  list_same (x ∷ xs) (y ∷ ys) = x == y && list_same xs ys
  list_same _ _ = false

  pub list_same_iff : (xs ys : List K) → (list_same xs ys ≡ true) ↔ (xs ≡ ys)
  list_same_iff [] [] = ground arith
  list_same_iff [] (y ∷ ys) = ground arith
  list_same_iff (x ∷ xs) [] = ground arith
  list_same_iff (x ∷ xs) (y ∷ ys) = ground (arith, c.same_iff x y, list_same_iff xs ys)

  instance abbrev pub list_comparable : Comparable (List K)
  list_comparable = record { same = list_same; same_iff = list_same_iff }

  pub same_refl : (x : K) → (x == x) ≡ true
  same_refl x = (c.same_iff x x).1 refl

-- ===== src/Base/Members.antt =====
-- Membership by a Boolean test, and lists without repetition grown at the end.
use mathlib.Core.Path.{◌≡◌, refl}
use mathlib.Core.Logic.{inl, inr}
use mathlib.Core.Bool.{Bool, false, ◌||◌}
use mathlib.Core.List.{List, [], ◌∷◌, ◌++◌}
use native.Mathlib.Omega.{arith}
use compage_go.Base.Tests.{if◌then◌else◌, Bool-cases}
use compage_go.Base.Equality.{Comparable, ◌==◌}

module _ {ℓ} {A : Type ℓ} ⦃c : Comparable A⦄ where
  abbrev pub contains : List A → A → Bool
  contains [] a = false
  contains (x ∷ xs) a = x == a || contains xs a

  -- `append(xs, a)`, unless `a` is there already
  abbrev pub add_unique : List A → A → List A
  add_unique xs a = if contains xs a then xs else xs ++ a ∷ []

  -- no entry occurs twice
  abbrev pub IsUnique : List A → Type 0
  IsUnique [] = Unit
  IsUnique (x ∷ xs) = (contains xs x ≡ false) × IsUnique xs

module _ {ℓ} {A : Type ℓ} ⦃c : Comparable A⦄ where
  pub contains-append :
      (xs ys : List A) (a : A) → contains (xs ++ ys) a ≡ (contains xs a || contains ys a)
  contains-append [] ys a = refl
  contains-append (x ∷ xs) ys a = ground (arith, contains-append xs ys a)

  pub contains-add_unique :
      (xs : List A) (a b : A) → contains (add_unique xs a) b ≡ (contains xs b || a == b)
  contains-add_unique xs a b =
      ground (arith, contains-append xs (a ∷ []) b, c.same_iff a b, contains-eq xs a b)
    where
      contains-eq : (xs : List A) (a b : A) → a ≡ b → contains xs a ≡ contains xs b
      contains-eq xs a b p = λ i. contains xs (p i)

  IsUnique-concat :
      (xs : List A) (a : A) → IsUnique xs → contains xs a ≡ false → IsUnique (xs ++ a ∷ [])
  IsUnique-concat [] a u h = (refl, tt)
  IsUnique-concat (x ∷ xs) a u h = ground (
    arith,
    contains-append xs (a ∷ []) x,
    c.same_iff a x,
    c.same_iff x a,
    IsUnique-concat xs a u.1,
  )

  pub IsUnique-add_unique : (xs : List A) (a : A) → IsUnique xs → IsUnique (add_unique xs a)
  IsUnique-add_unique xs a u = elim (Bool-cases (contains xs a)) [
    | inl old ↦ ground arith
    | inr new ↦ ground (arith, IsUnique-concat xs a u new)
  ]

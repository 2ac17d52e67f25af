-- ===== src/Go/Map.antt =====
-- Go's maps as lists of keys with their values. The order of the list is the order of iteration, for
-- which Go promises none.
use compage_go.Base.{
  ◌≡◌, ◌≢◌, ◌⊎◌, refl, Option, none, some, List, [], ◌∷◌, Comparable, ◌==◌, if◌then◌else◌, arith,
  inl, inr, Bool-cases,
}

abbrev pub Map {ℓ κ} : Type ℓ → Type κ → Type (ℓ ⊔ κ)
Map K V = List (K × V)

module _ {ℓ κ} {K : Type ℓ} {V : Type κ} ⦃c : Comparable K⦄ where
  unfoldable pub lookup : K → Map K V → Option V
  lookup k [] = none
  lookup k ((j, v) ∷ m) = if j == k then some v else lookup k m

  unfoldable pub put : K → V → Map K V → Map K V
  put k v [] = (k, v) ∷ []
  put k v ((j, w) ∷ m) = if j == k then (k, v) ∷ m else (j, w) ∷ put k v m

  unfoldable pub delete : K → Map K V → Map K V
  delete k [] = []
  delete k ((j, w) ∷ m) = if j == k then delete k m else (j, w) ∷ delete k m

  pub lookup-put :
      (k j : K) (v : V) (m : Map K V)
      → lookup j (put k v m) ≡ (if k == j then some v else lookup j m)
  unfolding lookup put
  lookup-put k j v [] = refl
  lookup-put k j v ((i, w) ∷ m) =
      ground (arith, c.same_iff k j, c.same_iff i k, c.same_iff i j, lookup-put k j v m)

  pub lookup-delete :
      (k j : K) (m : Map K V) → lookup j (delete k m) ≡ (if k == j then none else lookup j m)
  unfolding lookup delete
  lookup-delete k j [] = ground arith
  lookup-delete k j ((i, w) ∷ m) =
      ground (arith, c.same_iff k j, c.same_iff i k, c.same_iff i j, lookup-delete k j m)

  -- no key occurs twice, as in a map
  abbrev pub UniqueKeys : Map K V → Type κ
  UniqueKeys [] = Unit
  UniqueKeys ((k, v) ∷ m) = (lookup k m ≡ none) × UniqueKeys m

  pub UniqueKeys-put : (k : K) (v : V) (m : Map K V) → UniqueKeys m → UniqueKeys (put k v m)
  unfolding put
  UniqueKeys-put k v [] u = (unfold lookup in refl, tt)
  UniqueKeys-put k v ((j, w) ∷ m) u = elim (Bool-cases (j == k)) [
    | inl e ↦ rw e (ground (arith, c.same_iff j k))
    | inr e ↦ rw e (
      ground (arith, c.same_iff j k, c.same_iff k j, lookup-put k j v m),
      UniqueKeys-put k v m u.1,
    )
  ]

  pub lookup-put_self : (k : K) (v : V) (m : Map K V) → lookup k (put k v m) ≡ some v
  lookup-put_self k v m = ground (arith, lookup-put k k v m, c.same_iff k k)

  pub lookup-put_other : (k j : K) (v : V) (m : Map K V) → k ≢ j → lookup j (put k v m) ≡ lookup j m
  lookup-put_other k j v m ne = ground (arith, lookup-put k j v m, c.same_iff k j)

  pub lookup-delete_self : (k : K) (m : Map K V) → lookup k (delete k m) ≡ none
  lookup-delete_self k m = ground (arith, lookup-delete k k m, c.same_iff k k)

  pub lookup-delete_other : (k j : K) (m : Map K V) → k ≢ j → lookup j (delete k m) ≡ lookup j m
  lookup-delete_other k j m ne = ground (arith, lookup-delete k j m, c.same_iff k j)

-- Equal keys, or different ones.
module _ {ℓ} {K : Type ℓ} ⦃c : Comparable K⦄ where
  pub key-cases : (k j : K) → (k ≡ j) ⊎ (k ≢ j)
  key-cases k j = elim (Bool-cases (k == j)) [
    | inl e ↦ inl ((c.same_iff k j).0 e)
    | inr e ↦ inr (λ p. ground (arith, c.same_iff k j))
  ]

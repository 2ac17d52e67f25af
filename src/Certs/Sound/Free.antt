-- ===== src/Certs/Sound/Free.antt =====
-- The search of `prepareRoot` for a generation that no root has.
use compage_go.Base.{
  ℕ, zero, suc, ◌+◌, ◌≤◌, ◌<◌, ◌≡◌, refl, none, some, [], ◌∷◌, nat_comparable, nat_beq_iff, arith,
  inl, inr, Option-cases, if◌then◌else◌, length, leb,
}
use compage_go.Go.Map.{Map, lookup}
use compage_go.Certs.Crypto.{Crypto}
use compage_go.Certs.State.{RootRecord}
use compage_go.Certs.Authority.{free_generation}

-- how many entries are of generation `g` or a later one
above : ℕ → Map ℕ RootRecord → ℕ
above g [] = 0
above g ((k, r) ∷ m) = (if leb g k then 1 else 0) + above g m

above-le : (g : ℕ) (m : Map ℕ RootRecord) → above g m ≤ length m
unfolding above
above-le g [] = omega arith
above-le g ((k, r) ∷ m) = ground (arith, above-le g m)

above-next_le : (g : ℕ) (m : Map ℕ RootRecord) → above (g + 1) m ≤ above g m
unfolding above
above-next_le g [] = omega arith
above-next_le g ((k, r) ∷ m) = ground (arith, above-next_le g m)

above-next_lt :
    (g : ℕ) (m : Map ℕ RootRecord) (r : RootRecord)
    → lookup g m ≡ some r
    → above (g + 1) m < above g m
unfolding above lookup
above-next_lt g [] r h = absurd (ground arith)
above-next_lt g ((k, q) ∷ m) r h =
    ground (arith, nat_beq_iff k g, above-next_lt g m r, above-next_le g m)

above-zero : (g : ℕ) (m : Map ℕ RootRecord) → above g m ≡ 0 → lookup g m ≡ none
unfolding above lookup
above-zero g [] h = refl
above-zero g ((k, q) ∷ m) h = ground (arith, nat_beq_iff k g, above-zero g m)

module _ (x : Crypto) where
  -- With as much fuel as there are roots from `g` on, the search ends at a free generation.
  free_generation_free :
      (fuel g : ℕ) (m : Map ℕ RootRecord)
      → above g m ≤ fuel
      → (lookup (free_generation x fuel g m) m ≡ none) × (g ≤ free_generation x fuel g m)
  unfolding free_generation
  free_generation_free zero g m h = (above-zero g m (omega arith), omega arith)
  free_generation_free (suc fuel) g m h = elim (Option-cases (lookup g m)) [
    | inl e ↦ (rw e e, rw e (omega arith))
    | inr (r, e) ↦
        let ih = free_generation_free fuel (g + 1) m (omega (arith, above-next_lt g m r e)) in
        (rw e ih.0, rw e (omega (arith, ih.1)))
  ]

  -- The generation that prepareRoot takes is of no root, and later than the active one.
  pub free_generation_new :
      (active : ℕ) (m : Map ℕ RootRecord)
      → (lookup (free_generation x (length m) (active + 1) m) m ≡ none)
        × (active < free_generation x (length m) (active + 1) m)
  free_generation_new active m =
      let p = free_generation_free (length m) (active + 1) m (above-le (active + 1) m) in
      (p.0, omega (arith, p.1))

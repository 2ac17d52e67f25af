-- ===== src/Go/Strings/Split.antt =====
-- Splitting and joining at a separator byte.
use compage_go.Base.{
  ℕ, ◌≡◌, ◌≢◌, refl, List, [], ◌∷◌, ◌++◌, nat_comparable, Bytes, arith, All, List-cases, inl, inr,
  ap, ◌∙◌,
}
use compage_go.Go.Strings.{split, join}

abbrev pub Lacks : ℕ → Bytes → Type 0
Lacks b = All (λ c. c ≢ b)

module _ (sep : ℕ) where
  pub split-ne-nil : (s : Bytes) → split sep s ≢ []
  unfolding split
  split-ne-nil [] = cc
  split-ne-nil (c ∷ s) = ground arith

  pub split-cons_sep : (s : Bytes) → split sep (sep ∷ s) ≡ [] ∷ split sep s
  unfolding split
  split-cons_sep s = ground (arith, split-ne-nil s)

  -- a byte that is no separator goes before the first part
  pub split-cons :
      (c : ℕ) (s part : Bytes) (parts : List Bytes)
      → c ≢ sep
      → split sep s ≡ part ∷ parts
      → split sep (c ∷ s) ≡ (c ∷ part) ∷ parts
  unfolding split
  split-cons c s part parts h e = ground arith

  pub split-append :
      (p s : Bytes) → All (λ c. c ≢ sep) p → split sep (p ++ sep ∷ s) ≡ p ∷ split sep s
  split-append [] s h = split-cons_sep s
  split-append (c ∷ p) s h = split-cons c _ p (split sep s) h.0 (split-append p s h.1)

  pub split-Lacks : (p : Bytes) → All (λ c. c ≢ sep) p → split sep p ≡ p ∷ []
  split-Lacks [] h = unfold split in refl
  split-Lacks (c ∷ p) h = split-cons c p p [] h.0 (split-Lacks p h.1)

  pub All-split : (s : Bytes) → All (Lacks sep) (split sep s)
  unfolding split
  All-split [] = (tt, tt)
  All-split (c ∷ s) = elim (List-cases (split sep s)) [
    | inl e ↦ absurd (split-ne-nil s e)
    | inr (part, parts, e) ↦ ground (arith, All-split s)
  ]

  pub split-join :
      (p : Bytes) (ps : List Bytes)
      → All (Lacks sep) (p ∷ ps)
      → split sep (join (p ∷ ps) (sep ∷ [])) ≡ p ∷ ps
  unfolding join
  split-join p [] h = split-Lacks p h.0
  split-join p (q ∷ ps) h =
      split-append p (join (q ∷ ps) (sep ∷ [])) h.0 ∙ ap (λ r. p ∷ r) (split-join q ps h.1)

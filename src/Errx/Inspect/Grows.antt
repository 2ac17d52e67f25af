-- ===== src/Errx/Inspect/Grows.antt =====
-- How the walk of `KindsOf` changes the seen objects and the listed kinds.
use compage_go.Base.{
  ℕ, zero, suc, ◌≡◌, true, Option, some, arith, inl, inr, nat_comparable, Bool-cases, >>=-eq-some,
  subst,
}
use compage_go.Errx.Tree.{
  Err, nil, typed_nil, pointer, value, Node, node, Links, no_unwrap, wrapped, joined, Errs, end,
  more, Heap, deref, is_seen, mark, is_seen-mark, is_seen-mark_self, is_seen_of_mark,
}
use compage_go.Errx.Inspect.{
  Walked, classify, note, kinds_err, kinds_node, kinds_links, kinds_errs, kinds_at,
}
use compage_go.Errx.Inspect.Closed.{
  Covered, CoveredNode, CoveredLinks, CoveredErrs, Covered-mono, Grows, Grows-refl, Grows-trans,
  Grows-note, Noted-note,
}

module _ (heap : Heap) (visit : ℕ → Walked → Option Walked)
    (grow : (p : ℕ) (w w' : Walked)
      → visit p w ≡ some w'
      → Grows heap w w' × (is_seen w'.0 p ≡ true)) where
  mutual
    unfolding kinds_err kinds_node kinds_links kinds_errs

    pub kinds_err-Grows :
        (e : Err) (w w' : Walked) → kinds_err visit e w ≡ some w' → Grows heap w w' × Covered w' e
    kinds_err-Grows nil w w' h = (subst (Grows heap w) (ground arith) (Grows-refl heap w), tt)
    kinds_err-Grows typed_nil w w' h = (subst (Grows heap w) (ground arith) (Grows-refl heap w), tt)
    kinds_err-Grows (pointer p) w w' h = grow p w w' h
    kinds_err-Grows (value n) w w' h = kinds_node-Grows n w w' h

    kinds_node-Grows :
        (n : Node) (w w' : Walked)
        → kinds_node visit n w ≡ some w'
        → Grows heap w w' × CoveredNode w' n
    kinds_node-Grows (node c l) w w' h =
        let noted = Grows-note heap w (classify c) in
        let (g, under) = kinds_links-Grows l (w.0, note w.1 (classify c)) w' h in
        (
          Grows-trans heap w (w.0, note w.1 (classify c)) w' noted g,
          (λ k e. g.extends.listed k (Noted-note heap w.1 (classify c) k e), under),
        )

    kinds_links-Grows :
        (l : Links) (w w' : Walked)
        → kinds_links visit l w ≡ some w'
        → Grows heap w w' × CoveredLinks w' l
    kinds_links-Grows no_unwrap w w' h =
        (subst (Grows heap w) (ground arith) (Grows-refl heap w), tt)
    kinds_links-Grows (wrapped e) w w' h = kinds_err-Grows e w w' h
    kinds_links-Grows (joined es) w w' h = kinds_errs-Grows es w w' h

    kinds_errs-Grows :
        (es : Errs) (w w' : Walked)
        → kinds_errs visit es w ≡ some w'
        → Grows heap w w' × CoveredErrs w' es
    kinds_errs-Grows end w w' h = (subst (Grows heap w) (ground arith) (Grows-refl heap w), tt)
    kinds_errs-Grows (more e es) w w' h =
        let (v, found, rest) = >>=-eq-some (kinds_err visit e w) _ h in
        let (g, c) = kinds_err-Grows e w v found in
        let (g', c') = kinds_errs-Grows es v w' rest in
        (Grows-trans heap w v w' g g', (Covered-mono v w' e g'.extends c, c'))

module _ (heap : Heap) where
  -- marking `p`, and then a walk that covers what stands behind it
  pub Grows-mark :
      (p : ℕ) (w w' : Walked)
      → Grows heap (mark w.0 p, w.1) w'
      → CoveredNode w' (deref heap p)
      → Grows heap w w'
  Grows-mark p w w' g c = record {
    extends = record {
      seen = λ q h. g.extends.seen q (is_seen-mark w.0 p q h);
      listed = g.extends.listed;
    };
    closed = λ q h k. elim (Bool-cases (is_seen (mark w.0 p) q)) [
      | inl marked ↦ subst (λ r. CoveredNode w' (deref heap r)) (is_seen_of_mark w.0 p q marked k) c
      | inr open_ ↦ g.closed q h open_
    ];
    unique = g.unique;
  }

  pub kinds_at-Grows :
      (fuel p : ℕ) (w w' : Walked)
      → kinds_at heap fuel p w ≡ some w'
      → Grows heap w w' × (is_seen w'.0 p ≡ true)
  unfolding kinds_at
  kinds_at-Grows zero p w w' h = cc
  kinds_at-Grows (suc fuel) p w w' h = elim (Bool-cases (is_seen w.0 p)) [
    | inl old ↦ (subst (Grows heap w) (ground arith) (Grows-refl heap w), ground arith)
    | inr new ↦
        let (g, c) =
          kinds_node-Grows heap (kinds_at heap fuel) (kinds_at-Grows fuel) (deref heap p)
            (mark w.0 p, w.1) w' (rw new at h) in
        (Grows-mark p w w' g c, g.extends.seen p (is_seen-mark_self w.0 p))
  ]

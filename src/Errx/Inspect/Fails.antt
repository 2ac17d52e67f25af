-- ===== src/Errx/Inspect/Fails.antt =====
-- When `KindOf` of errx/inspect.go finds no kind.
use compage_go.Base.{
  ℕ, zero, suc, ◌≡◌, ◌≢◌, ◌⊎◌, inl, inr, sym, ◌∙◌, true, Option, none, some, [], arith, Bool-cases,
  Option-cases, >>=-eq-some, subst, nat_comparable, nat_beq_iff,
}
use compage_go.Errx.Kind.{Kind}
use compage_go.Errx.Tree.{
  Err, nil, typed_nil, pointer, value, Node, node, Links, no_unwrap, wrapped, joined, Errs, end,
  more, Heap, deref, Seen, is_seen, mark, is_seen-mark_self,
}
use compage_go.Errx.Inspect.{
  Found, classify, merge, enough, unmarked, kind_err, kind_node, kind_links, kind_join, kind_at,
  kind_of, kind_node-none, kind_node-some,
}
use compage_go.Errx.Inspect.Occurs.{
  Occurs, OccursNode, OccursLinks, OccursErrs, by_pointer, by_value, below, by_wrapped, by_joined,
  first, later,
}
use compage_go.Errx.Inspect.Sound.{kind_err_sound, kind_at_sound}
use compage_go.Errx.Inspect.Closed.{
  Covered, CoveredNode, CoveredLinks, CoveredErrs, Covered-mono, Grows, Grows-refl, Grows-trans,
}
use compage_go.Errx.Inspect.Grows.{Grows-mark}
use compage_go.Errx.Inspect.Exact.{contains-Covered, covered_outside}

-- Two different kinds for which `P` holds.
abbrev pub Clash : (Kind → Type 0) → Type 0
Clash P = (k : Kind) × (j : Kind) × (k ≢ j) × P k × P j

Clash-map : {P Q : Kind → Type 0} → ((k : Kind) → P k → Q k) → Clash P → Clash Q
Clash-map f (k, j, d, p, q) = (k, j, d, f k p, f j q)

-- Nothing classified was met: what became seen is closed, with an empty list of kinds.
abbrev Quiet : Heap → Seen → Seen → Type 0
Quiet heap s t = Grows heap (s, []) (t, [])

module _ (heap : Heap) (visit : ℕ → Seen → Option Found)
    (sound : (k : Kind) (p : ℕ) (s t : Seen)
      → visit p s ≡ some (some k, t)
      → Occurs heap k (pointer p))
    (quiet : (p : ℕ) (s t : Seen)
      → visit p s ≡ some (none, t)
      → (Quiet heap s t × (is_seen t p ≡ true)) ⊎ Clash (λ k. Occurs heap k (pointer p))) where
  -- a loop that has found `k` fails only at another kind
  kind_join_clash :
      (es : Errs) (k : Kind) (s t : Seen)
      → kind_join visit es (some k) s ≡ some (none, t)
      → (j : Kind) × (k ≢ j) × OccursErrs heap j es
  unfolding kind_join merge
  kind_join_clash end k s t h = absurd (ground arith)
  kind_join_clash (more e es) k s t h =
      let ((r, s'), found, rest) = >>=-eq-some (kind_err visit e s) _ h in
      let again = λ (g : kind_join visit es (some k) s' ≡ some (none, t)).
        let (j, d, o) = kind_join_clash es k s' t g in
        let whole : (j : Kind) × (k ≢ j) × OccursErrs heap j (more e es) = (j, d, later e es o) in
        whole in
      elim (Option-cases r) [
        | inl n ↦ again (ground arith)
        | inr (j, q) ↦ elim (Bool-cases (nat_comparable.same j k)) [
          | inl same ↦ again (ground arith)
          | inr other ↦ (
            j,
            λ x. ground (arith, nat_beq_iff j k),
            first e es (kind_err_sound heap j visit (sound j) e s s' (ground arith)),
          )
        ]
      ]

  mutual
    unfolding kind_err kind_links kind_join merge

    kind_err_fails :
        (e : Err) (s t : Seen)
        → kind_err visit e s ≡ some (none, t)
        → (Quiet heap s t × Covered (t, []) e) ⊎ Clash (λ k. Occurs heap k e)
    kind_err_fails nil s t h =
        inl (subst (λ x. Quiet heap s x) (ground arith) (Grows-refl heap (s, [])), tt)
    kind_err_fails typed_nil s t h =
        inl (subst (λ x. Quiet heap s x) (ground arith) (Grows-refl heap (s, [])), tt)
    kind_err_fails (pointer p) s t h = quiet p s t h
    kind_err_fails (value n) s t h = elim (kind_node_fails n s t h) [
      | inl q ↦ inl q
      | inr c ↦ inr (Clash-map (λ k o. by_value n o) c)
    ]

    kind_node_fails :
        (n : Node) (s t : Seen)
        → kind_node visit n s ≡ some (none, t)
        → (Quiet heap s t × CoveredNode (t, []) n) ⊎ Clash (λ k. OccursNode heap k n)
    kind_node_fails (node c l) s t h = elim (Option-cases (classify c)) [
      | inr (k, e) ↦ cc (kind_node-some visit c l s e, h)
      | inl e ↦ elim (kind_links_fails l s t (sym (kind_node-none visit c l s e) ∙ h)) [
        | inl (q, under) ↦ inl (q, (λ k x. cc, under))
        | inr clash ↦ inr (Clash-map (λ k o. below c l o) clash)
      ]
    ]

    kind_links_fails :
        (l : Links) (s t : Seen)
        → kind_links visit l s ≡ some (none, t)
        → (Quiet heap s t × CoveredLinks (t, []) l) ⊎ Clash (λ k. OccursLinks heap k l)
    kind_links_fails no_unwrap s t h =
        inl (subst (λ x. Quiet heap s x) (ground arith) (Grows-refl heap (s, [])), tt)
    kind_links_fails (wrapped e) s t h = elim (kind_err_fails e s t h) [
      | inl q ↦ inl q
      | inr c ↦ inr (Clash-map (λ k o. by_wrapped e o) c)
    ]
    kind_links_fails (joined es) s t h = elim (kind_join_fails es s t h) [
      | inl q ↦ inl q
      | inr c ↦ inr (Clash-map (λ k o. by_joined es o) c)
    ]

    kind_join_fails :
        (es : Errs) (s t : Seen)
        → kind_join visit es none s ≡ some (none, t)
        → (Quiet heap s t × CoveredErrs (t, []) es) ⊎ Clash (λ k. OccursErrs heap k es)
    kind_join_fails end s t h =
        inl (subst (λ x. Quiet heap s x) (ground arith) (Grows-refl heap (s, [])), tt)
    kind_join_fails (more e es) s t h =
        let ((r, s'), found, rest) = >>=-eq-some (kind_err visit e s) _ h in
        elim (Option-cases r) [
          | inr (k, q) ↦
              let (j, d, o) = kind_join_clash es k s' t (ground arith) in
              inr (
                k,
                j,
                d,
                first e es (kind_err_sound heap k visit (sound k) e s s' (ground arith)),
                later e es o,
              )
          | inl q ↦ elim (kind_err_fails e s s' (ground arith)) [
            | inr c ↦ inr (Clash-map (λ k o. first e es o) c)
            | inl (g, c) ↦ elim (kind_join_fails es s' t (ground arith)) [
              | inr c' ↦ inr (Clash-map (λ k o. later e es o) c')
              | inl (g', c') ↦ inl (
                Grows-trans heap (s, []) (s', []) (t, []) g g',
                (Covered-mono (s', []) (t, []) e g'.extends c, c'),
              )
            ]
          ]
        ]

module _ (heap : Heap) where
  kind_at_fails :
      (fuel p : ℕ) (s t : Seen)
      → kind_at heap fuel p s ≡ some (none, t)
      → (Quiet heap s t × (is_seen t p ≡ true)) ⊎ Clash (λ k. Occurs heap k (pointer p))
  unfolding kind_at
  kind_at_fails zero p s t h = cc
  kind_at_fails (suc fuel) p s t h = elim (Bool-cases (is_seen s p)) [
    | inl old ↦
        let same : s ≡ t = ground arith in
        inl (subst (λ x. Quiet heap s x) same (Grows-refl heap (s, [])), ground arith)
    | inr new ↦
        elim (kind_node_fails heap (kind_at heap fuel) (λ k. kind_at_sound heap k fuel)
          (kind_at_fails fuel) (deref heap p) (mark s p) t (rw new at h)) [
            | inr c ↦ inr (Clash-map (λ k o. by_pointer p o) c)
            | inl (g, c) ↦
                inl
                  (Grows-mark heap p (s, []) (t, []) g c, g.extends.seen p (is_seen-mark_self s p))
          ]
  ]

  -- `KindOf` finds no kind only if no valid kind other than `Unknown` occurs in the unwrap tree, or
  -- if two different ones do.
  pub kind_of_fails :
      (e : Err)
      → kind_of heap e ≡ some none
      → ((k : Kind) → ¬ Occurs heap k e) ⊎ Clash (λ k. Occurs heap k e)
  unfolding kind_of
  kind_of_fails e h =
      let ((r, t), found, same) = >>=-eq-some (kind_err (kind_at heap (enough heap)) e _) _ h in
      elim (kind_err_fails heap (kind_at heap (enough heap))
        (λ k. kind_at_sound heap k (enough heap)) (kind_at_fails (enough heap)) e (unmarked heap) t
        (ground arith)) [
          | inr c ↦ inr c
          | inl (g, c) ↦ inl λ k o. cc (contains-Covered heap (t, []) (closed t g) k e o c)
        ]
    where
      closed :
          (t : Seen)
          → Quiet heap (unmarked heap) t
          → (p : ℕ) → is_seen t p ≡ true
          → CoveredNode (t, []) (deref heap p)
      closed t g p h = elim (Bool-cases (is_seen (unmarked heap) p)) [
        | inl outside ↦ covered_outside heap (t, []) p outside
        | inr fresh ↦ g.closed p h fresh
      ]

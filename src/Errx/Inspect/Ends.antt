-- ===== src/Errx/Inspect/Ends.antt =====
-- The fuel of the walks: a pointer is followed only to an object that is not seen yet.
use compage_go.Base.{
  ℕ, zero, suc, ◌≤◌, ◌<◌, ◌≡◌, refl, false, Option, none, some, [], List, length, replicate, arith,
  Bool-cases, Option-cases, ap, inl, inr,
}
use compage_go.Errx.Kind.{Kind}
use compage_go.Errx.Tree.{
  Err, nil, typed_nil, pointer, value, Node, node, Links, no_unwrap, wrapped, joined, Errs, end,
  more, Heap, deref, Seen, is_seen, mark, unseen, unseen-mark,
}
use compage_go.Errx.Inspect.{
  Found, Walked, classify, merge, kind_err, kind_node, kind_links, kind_join, kind_at, enough,
  unmarked, kind_of, kind_node-none, kind_node-some, note, kinds_err, kinds_node, kinds_links,
  kinds_errs, kinds_at, kinds_of,
}

-- the walk returns, and unmarks nothing
abbrev KindEnds : Option Found → Seen → Type 0
KindEnds o s = (r : Found) × (o ≡ some r) × (unseen r.1 ≤ unseen s)

abbrev WalkEnds : Option Walked → Seen → Type 0
WalkEnds o s = (w : Walked) × (o ≡ some w) × (unseen w.0 ≤ unseen s)

module _ (m : ℕ) (visit : ℕ → Seen → Option Found)
    (ends : (p : ℕ) (s : Seen) → unseen s ≤ m → KindEnds (visit p s) s) where
  mutual
    unfolding kind_err kind_node kind_links kind_join

    kind_err_ends : (e : Err) (s : Seen) → unseen s ≤ m → KindEnds (kind_err visit e s) s
    kind_err_ends nil s h = ((none, s), refl, omega arith)
    kind_err_ends typed_nil s h = ((none, s), refl, omega arith)
    kind_err_ends (pointer p) s h = ends p s h
    kind_err_ends (value n) s h = kind_node_ends n s h

    kind_node_ends : (n : Node) (s : Seen) → unseen s ≤ m → KindEnds (kind_node visit n s) s
    kind_node_ends (node own links) s h = elim (Option-cases (classify own)) [
      | inl e ↦ rw (kind_node-none visit own links s e) (kind_links_ends links s h)
      | inr (k, e) ↦ ((some k, s), kind_node-some visit own links s e, omega arith)
    ]

    kind_links_ends : (l : Links) (s : Seen) → unseen s ≤ m → KindEnds (kind_links visit l s) s
    kind_links_ends no_unwrap s h = ((none, s), refl, omega arith)
    kind_links_ends (wrapped e) s h = kind_err_ends e s h
    kind_links_ends (joined es) s h = kind_join_ends es none s h

    kind_join_ends :
        (es : Errs) (acc : Option Kind) (s : Seen)
        → unseen s ≤ m
        → KindEnds (kind_join visit es acc s) s
    kind_join_ends end acc s h = ((acc, s), refl, omega arith)
    kind_join_ends (more e es) acc s h =
        let (r, found, less) = kind_err_ends e s h in
        elim (Option-cases (merge acc r.0)) [
          | inl c ↦ ((none, r.1), ground arith, less)
          | inr (next, c) ↦
              let (r', found', less') = kind_join_ends es next r.1 (omega arith) in
              (r', ground arith, omega arith)
        ]

-- With more fuel than objects that are left, the walk behind a pointer returns.
kind_at_ends :
    (heap : Heap) (fuel p : ℕ) (s : Seen) → unseen s < fuel → KindEnds (kind_at heap fuel p s) s
unfolding kind_at
kind_at_ends heap zero p s h = absurd (omega arith)
kind_at_ends heap (suc fuel) p s h = elim (Bool-cases (is_seen s p)) [
  | inl old ↦ ((none, s), rw old, omega arith)
  | inr new ↦
      let less = unseen-mark s p new in
      let (r, found, fewer) =
        kind_node_ends (unseen (mark s p)) (kind_at heap fuel)
          (λ q t below. kind_at_ends heap fuel q t (omega arith)) (deref heap p) (mark s p)
          (omega arith) in
      (r, rw new found, omega arith)
]

unseen-replicate : (n : ℕ) → unseen (replicate n false) ≡ n
unseen-replicate zero = refl
unseen-replicate (suc n) = ap suc (unseen-replicate n)

module _ (heap : Heap) (e : Err) where
  -- `KindOf` returns on every error whose cycles all lead through pointers, as those of an error do that
  -- carries what it unwraps to itself where it is no pointer: the fuel of one unit for each object and
  -- one more is enough.
  pub kind_of_returns : (r : Option Kind) × (kind_of heap e ≡ some r)
  unfolding kind_of
  kind_of_returns =
      let room = unseen-replicate (length heap) in
      let (r, found, _) =
        kind_err_ends (length heap) (kind_at heap (enough heap))
          (λ p s h. kind_at_ends heap (enough heap) p s (omega arith)) e (unmarked heap)
          (omega arith) in
      (r.0, rw found)

module _ (m : ℕ) (visit : ℕ → Walked → Option Walked)
    (ends : (p : ℕ) (w : Walked) → unseen w.0 ≤ m → WalkEnds (visit p w) w.0) where
  mutual
    unfolding kinds_err kinds_node kinds_links kinds_errs

    kinds_err_ends : (e : Err) (w : Walked) → unseen w.0 ≤ m → WalkEnds (kinds_err visit e w) w.0
    kinds_err_ends nil w h = (w, refl, omega arith)
    kinds_err_ends typed_nil w h = (w, refl, omega arith)
    kinds_err_ends (pointer p) w h = ends p w h
    kinds_err_ends (value n) w h = kinds_node_ends n w h

    kinds_node_ends : (n : Node) (w : Walked) → unseen w.0 ≤ m → WalkEnds (kinds_node visit n w) w.0
    kinds_node_ends (node own links) w h = kinds_links_ends links (w.0, note w.1 (classify own)) h

    kinds_links_ends :
        (l : Links) (w : Walked) → unseen w.0 ≤ m → WalkEnds (kinds_links visit l w) w.0
    kinds_links_ends no_unwrap w h = (w, refl, omega arith)
    kinds_links_ends (wrapped e) w h = kinds_err_ends e w h
    kinds_links_ends (joined es) w h = kinds_errs_ends es w h

    kinds_errs_ends :
        (es : Errs) (w : Walked) → unseen w.0 ≤ m → WalkEnds (kinds_errs visit es w) w.0
    kinds_errs_ends end w h = (w, refl, omega arith)
    kinds_errs_ends (more e es) w h =
        let (w', found, less) = kinds_err_ends e w h in
        let (w'', found', less') = kinds_errs_ends es w' (omega arith) in
        (w'', rw (found, kinds_errs) found', omega arith)

kinds_at_ends :
    (heap : Heap) (fuel p : ℕ) (w : Walked)
    → unseen w.0 < fuel
    → WalkEnds (kinds_at heap fuel p w) w.0
unfolding kinds_at
kinds_at_ends heap zero p w h = absurd (omega arith)
kinds_at_ends heap (suc fuel) p w h = elim (Bool-cases (is_seen w.0 p)) [
  | inl old ↦ (w, rw old, omega arith)
  | inr new ↦
      let less = unseen-mark w.0 p new in
      let (w', found, fewer) =
        kinds_node_ends (unseen (mark w.0 p)) (kinds_at heap fuel)
          (λ q v below. kinds_at_ends heap fuel q v (omega arith)) (deref heap p) (mark w.0 p, w.1)
          (omega arith) in
      (w', rw new found, omega arith)
]

module _ (heap : Heap) (e : Err) where
  -- `KindsOf` returns on every error whose cycles all lead through pointers, with the same fuel.
  pub kinds_of_returns : (ks : List Kind) × (kinds_of heap e ≡ some ks)
  unfolding kinds_of
  kinds_of_returns =
      let room = unseen-replicate (length heap) in
      let (w, found, _) =
        kinds_err_ends (length heap) (kinds_at heap (enough heap))
          (λ p v h. kinds_at_ends heap (enough heap) p v (omega arith)) e (unmarked heap, [])
          (omega arith) in
      (w.1, rw found)

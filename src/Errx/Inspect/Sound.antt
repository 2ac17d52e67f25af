-- ===== src/Errx/Inspect/Sound.antt =====
-- The kinds that the walks report, and the error's unwrap tree.
use compage_go.Base.{
  ℕ, zero, suc, ◌≡◌, ◌⊎◌, inl, inr, true, Option, none, some, [], List, nat_comparable, nat_beq_iff,
  arith, Bool-cases, Option-cases, sym, ◌∙◌, >>=-eq-some, subst,
}
use compage_go.Base.Members.{contains, contains-add_unique}
use compage_go.Errx.Kind.{Kind}
use compage_go.Errx.Tree.{
  Err, nil, typed_nil, pointer, value, Node, node, Links, no_unwrap, wrapped, joined, Errs, end,
  more, Heap, deref, Seen, is_seen, mark,
}
use compage_go.Errx.Inspect.{
  Found, Walked, classify, merge, kind_err, kind_node, kind_links, kind_join, kind_at, enough,
  unmarked, kind_of, kind_node-none, kind_node-some, note, kinds_err, kinds_node, kinds_links,
  kinds_errs, kinds_at, kinds_of,
}
use compage_go.Errx.Inspect.Occurs.{
  Occurs, OccursNode, OccursLinks, OccursErrs, by_pointer, by_value, own, below, by_wrapped,
  by_joined, first, later,
}

merge_sound :
    (acc r next : Option Kind) (k : Kind)
    → merge acc r ≡ some next
    → next ≡ some k
    → (acc ≡ some k) ⊎ (r ≡ some k)
unfolding merge
merge_sound acc r next k h e = ground (arith)

module _ (heap : Heap) (k : Kind) (visit : ℕ → Seen → Option Found)
    (sound : (p : ℕ) (s t : Seen) → visit p s ≡ some (some k, t) → Occurs heap k (pointer p)) where
  mutual
    unfolding kind_err kind_node kind_links kind_join

    pub kind_err_sound :
        (e : Err) (s t : Seen) → kind_err visit e s ≡ some (some k, t) → Occurs heap k e
    kind_err_sound nil s t h = cc
    kind_err_sound typed_nil s t h = cc
    kind_err_sound (pointer p) s t h = sound p s t h
    kind_err_sound (value n) s t h = by_value n (kind_node_sound n s t h)

    kind_node_sound :
        (n : Node) (s t : Seen) → kind_node visit n s ≡ some (some k, t) → OccursNode heap k n
    kind_node_sound (node c links) s t h = elim (Option-cases (classify c)) [
      | inl e ↦
          below c links (kind_links_sound links s t (sym (kind_node-none visit c links s e) ∙ h))
      | inr (j, e) ↦ own c links (cc (e, kind_node-some visit c links s e, h))
    ]

    kind_links_sound :
        (l : Links) (s t : Seen) → kind_links visit l s ≡ some (some k, t) → OccursLinks heap k l
    kind_links_sound no_unwrap s t h = cc
    kind_links_sound (wrapped e) s t h = by_wrapped e (kind_err_sound e s t h)
    kind_links_sound (joined es) s t h = elim (kind_join_sound es none s t h) [
      | inl e ↦ cc
      | inr o ↦ by_joined es o
    ]

    kind_join_sound :
        (es : Errs) (acc : Option Kind) (s t : Seen)
        → kind_join visit es acc s ≡ some (some k, t)
        → (acc ≡ some k) ⊎ OccursErrs heap k es
    kind_join_sound end acc s t h = inl (ground arith)
    kind_join_sound (more e es) acc s t h =
        let ((r, s'), found, rest) = >>=-eq-some (kind_err visit e s) _ h in
        elim (Option-cases (merge acc r)) [
          | inl c ↦ absurd (ground arith)
          | inr (next, c) ↦ elim (kind_join_sound es next s' t (rw c at rest)) [
            | inr o ↦ inr (later e es o)
            | inl q ↦ elim (merge_sound acc r next k c q) [
              | inl a ↦ inl a
              | inr b ↦ inr (
                  first e es (
                    kind_err_sound e s s' (subst (λ x. kind_err visit e s ≡ some (x, s')) b found)))
            ]
          ]
        ]

pub kind_at_sound :
    (heap : Heap) (k : Kind) (fuel p : ℕ) (s t : Seen)
    → kind_at heap fuel p s ≡ some (some k, t)
    → Occurs heap k (pointer p)
unfolding kind_at
kind_at_sound heap k zero p s t h = cc
kind_at_sound heap k (suc fuel) p s t h = elim (Bool-cases (is_seen s p)) [
  | inl old ↦ cc (rw old at h)
  | inr new ↦ by_pointer p (
      kind_node_sound heap k (kind_at heap fuel) (kind_at_sound heap k fuel) (deref heap p)
        (mark s p) t (rw new at h))
]

-- The kind that `KindOf` reports stands in the error's unwrap tree.
pub kind_of-Occurs :
    (heap : Heap) (e : Err) (k : Kind) → kind_of heap e ≡ some (some k) → Occurs heap k e
unfolding kind_of
kind_of-Occurs heap e k h =
    let ((r, t), found, same) = >>=-eq-some (kind_err (kind_at heap (enough heap)) e _) _ h in
    kind_err_sound heap k (kind_at heap (enough heap)) (kind_at_sound heap k (enough heap)) e
      (unmarked heap) t (ground arith)

-- What a walk of `KindsOf` adds to the kinds found before it.
abbrev Adds : Type 0 → Kind → Walked → Walked → Type 0
Adds P k w w' = contains w'.1 k ≡ true → (contains w.1 k ≡ true) ⊎ P

note_adds :
    (kinds : List Kind) (c : Option Kind) (k : Kind)
    → contains (note kinds c) k ≡ true
    → (contains kinds k ≡ true) ⊎ (c ≡ some k)
note_adds kinds none k h = inl h
note_adds kinds (some j) k h = ground (arith, contains-add_unique kinds j k, nat_beq_iff j k)

module _ (heap : Heap) (k : Kind) (visit : ℕ → Walked → Option Walked)
    (sound : (p : ℕ) (w w' : Walked)
      → visit p w ≡ some w'
      → Adds (Occurs heap k (pointer p)) k w w') where
  mutual
    unfolding kinds_err kinds_node kinds_links kinds_errs

    kinds_err_sound :
        (e : Err) (w w' : Walked) → kinds_err visit e w ≡ some w' → Adds (Occurs heap k e) k w w'
    kinds_err_sound nil w w' h c = inl (ground arith)
    kinds_err_sound typed_nil w w' h c = inl (ground arith)
    kinds_err_sound (pointer p) w w' h c = sound p w w' h c
    kinds_err_sound (value n) w w' h c = elim (kinds_node_sound n w w' h c) [
      | inl old ↦ inl old
      | inr o ↦ inr (by_value n o)
    ]

    kinds_node_sound :
        (n : Node) (w w' : Walked)
        → kinds_node visit n w ≡ some w'
        → Adds (OccursNode heap k n) k w w'
    kinds_node_sound (node c l) w w' h m =
        elim (kinds_links_sound l (w.0, note w.1 (classify c)) w' h m) [
          | inr o ↦ inr (below c l o)
          | inl noted ↦ elim (note_adds w.1 (classify c) k noted) [
            | inl old ↦ inl old
            | inr e ↦ inr (own c l e)
          ]
        ]

    kinds_links_sound :
        (l : Links) (w w' : Walked)
        → kinds_links visit l w ≡ some w'
        → Adds (OccursLinks heap k l) k w w'
    kinds_links_sound no_unwrap w w' h c = inl (ground arith)
    kinds_links_sound (wrapped e) w w' h c = elim (kinds_err_sound e w w' h c) [
      | inl old ↦ inl old
      | inr o ↦ inr (by_wrapped e o)
    ]
    kinds_links_sound (joined es) w w' h c = elim (kinds_errs_sound es w w' h c) [
      | inl old ↦ inl old
      | inr o ↦ inr (by_joined es o)
    ]

    kinds_errs_sound :
        (es : Errs) (w w' : Walked)
        → kinds_errs visit es w ≡ some w'
        → Adds (OccursErrs heap k es) k w w'
    kinds_errs_sound end w w' h c = inl (ground arith)
    kinds_errs_sound (more e es) w w' h c =
        let (v, found, rest) = >>=-eq-some (kinds_err visit e w) _ h in
        elim (kinds_errs_sound es v w' rest c) [
          | inr o ↦ inr (later e es o)
          | inl m ↦ elim (kinds_err_sound e w v found m) [
            | inl old ↦ inl old
            | inr o ↦ inr (first e es o)
          ]
        ]

kinds_at_sound :
    (heap : Heap) (k : Kind) (fuel p : ℕ) (w w' : Walked)
    → kinds_at heap fuel p w ≡ some w'
    → Adds (Occurs heap k (pointer p)) k w w'
unfolding kinds_at
kinds_at_sound heap k zero p w w' h c = cc
kinds_at_sound heap k (suc fuel) p w w' h c = elim (Bool-cases (is_seen w.0 p)) [
  | inl old ↦ inl (ground arith)
  | inr new ↦
      elim (kinds_node_sound heap k (kinds_at heap fuel) (kinds_at_sound heap k fuel) (deref heap p)
        (mark w.0 p, w.1) w' (rw new at h) c) [ inl m ↦ inl m | inr o ↦ inr (by_pointer p o) ]
]

-- Every kind that `KindsOf` lists stands in the error's unwrap tree.
pub kinds_of-Occurs :
    (heap : Heap) (e : Err) (ks : List Kind) (k : Kind)
    → kinds_of heap e ≡ some ks
    → contains ks k ≡ true
    → Occurs heap k e
unfolding kinds_of
kinds_of-Occurs heap e ks k h c =
    let (w, found, same) = >>=-eq-some (kinds_err (kinds_at heap (enough heap)) e _) _ h in
    elim (kinds_err_sound heap k (kinds_at heap (enough heap)) (kinds_at_sound heap k (enough heap))
      e (unmarked heap, []) w found (ground arith)) [ inl m ↦ cc | inr o ↦ o ]

-- ===== src/Errx/Inspect/Exact.antt =====
-- The list of `KindsOf`, and the unwrap tree.
use compage_go.Base.{
  ℕ, zero, suc, ◌≡◌, ◌↔◌, true, some, [], ◌∷◌, List, arith, inl, inr, nat_comparable, Bool-cases,
  >>=-eq-some, subst,
}
use compage_go.Base.Members.{contains, IsUnique}
use compage_go.Errx.Kind.{Kind}
use compage_go.Errx.Tree.{Err, Node, Links, Errs, Heap, deref, is_seen}
use compage_go.Errx.Inspect.{Walked, classify, enough, unmarked, kinds_err, kinds_at, kinds_of}
use compage_go.Errx.Inspect.Occurs.{
  Occurs, OccursNode, OccursLinks, OccursErrs, by_pointer, by_value, own, below, by_wrapped,
  by_joined, first, later,
}
use compage_go.Errx.Inspect.Sound.{kinds_of-Occurs}
use compage_go.Errx.Inspect.Closed.{Covered, CoveredNode, CoveredLinks, CoveredErrs}
use compage_go.Errx.Inspect.Grows.{kinds_err-Grows, kinds_at-Grows}

module _ (heap : Heap) (w : Walked)
    (closed : (p : ℕ) → is_seen w.0 p ≡ true → CoveredNode w (deref heap p)) (k : Kind) where
  -- In a closed set whatever occurs under a covered error is listed.
  mutual
    pub contains-Covered : (e : Err) → Occurs heap k e → Covered w e → contains w.1 k ≡ true
    contains-Covered e (by_pointer p o) c = contains-CoveredNode (deref heap p) o (closed p c)
    contains-Covered e (by_value n o) c = contains-CoveredNode n o c

    contains-CoveredNode :
        (n : Node) → OccursNode heap k n → CoveredNode w n → contains w.1 k ≡ true
    contains-CoveredNode n (own d l e) c = c.0 k e
    contains-CoveredNode n (below d l o) c = contains-CoveredLinks l o c.1

    contains-CoveredLinks :
        (l : Links) → OccursLinks heap k l → CoveredLinks w l → contains w.1 k ≡ true
    contains-CoveredLinks l (by_wrapped e o) c = contains-Covered e o c
    contains-CoveredLinks l (by_joined es o) c = contains-CoveredErrs es o c

    contains-CoveredErrs :
        (es : Errs) → OccursErrs heap k es → CoveredErrs w es → contains w.1 k ≡ true
    contains-CoveredErrs es (first e r o) c = contains-Covered e o c.0
    contains-CoveredErrs es (later e r o) c = contains-CoveredErrs r o c.1

-- A flag that no walk has set is read only behind the end of the heap, where nothing hangs.
pub covered_outside :
    (heap : Heap) (w : Walked) (p : ℕ)
    → is_seen (unmarked heap) p ≡ true
    → CoveredNode w (deref heap p)
unfolding classify
covered_outside [] w p h = (λ k e. cc, tt)
covered_outside (n ∷ heap) w zero h = cc
covered_outside (n ∷ heap) w (suc p) h = covered_outside heap w p h

module _ (heap : Heap) (e : Err) (ks : List Kind) (listed : kinds_of heap e ≡ some ks) where
  kinds_of_complete : IsUnique ks × ((k : Kind) → Occurs heap k e → contains ks k ≡ true)
  unfolding kinds_of
  kinds_of_complete =
      let start : Walked = (unmarked heap, []) in
      let (w, found, same) =
        >>=-eq-some (kinds_err (kinds_at heap (enough heap)) e start) _ listed in
      let (g, c) =
        kinds_err-Grows heap (kinds_at heap (enough heap)) (kinds_at-Grows heap (enough heap)) e
          start w found in
      let closed = λ (p : ℕ) (h : is_seen w.0 p ≡ true).
        let r : CoveredNode w (deref heap p) = elim (Bool-cases (is_seen (unmarked heap) p)) [
          | inl outside ↦ covered_outside heap w p outside
          | inr fresh ↦ g.closed p h fresh
        ] in
        r in
      let last : w.1 ≡ ks = ground arith in
      (
        subst IsUnique last (g.unique tt),
        λ k o. subst (λ xs. contains xs k ≡ true) last (contains-Covered heap w closed k e o c),
      )

  -- `KindsOf` lists no kind twice, and lists exactly the valid kinds other than `Unknown` that
  -- unwrapping leads to, through cycles and joined errors too.
  pub kinds_of_exact : IsUnique ks × ((k : Kind) → (contains ks k ≡ true) ↔ Occurs heap k e)
  kinds_of_exact =
      let (once, all) = kinds_of_complete in
      (once, λ k. (kinds_of-Occurs heap e ks k listed, all k))

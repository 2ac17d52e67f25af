-- ===== src/Errx/Inspect/Occurs.antt =====
-- The kinds in an error's unwrap tree, as a relation: what `KindsOf` promises to list.
use compage_go.Base.{ℕ, ◌≡◌, Option, some}
use compage_go.Errx.Kind.{Kind}
use compage_go.Errx.Tree.{
  Err, pointer, value, Node, node, Links, wrapped, joined, Errs, more, Heap, deref,
}
use compage_go.Errx.Inspect.{classify}

-- `Occurs heap e k`: some error that unwrapping leads to from `e` has the valid kind `k`.
mutual
  pub data Occurs (heap : Heap) (k : Kind) : Err → Type 0 where
    by_pointer : (p : ℕ) → OccursNode heap k (deref heap p) → Occurs heap k (pointer p)
    by_value : (n : Node) → OccursNode heap k n → Occurs heap k (value n)

  pub data OccursNode (heap : Heap) (k : Kind) : Node → Type 0 where
    own : (c : Option Kind) (l : Links) → classify c ≡ some k → OccursNode heap k (node c l)
    below : (c : Option Kind) (l : Links) → OccursLinks heap k l → OccursNode heap k (node c l)

  pub data OccursLinks (heap : Heap) (k : Kind) : Links → Type 0 where
    by_wrapped : (e : Err) → Occurs heap k e → OccursLinks heap k (wrapped e)
    by_joined : (es : Errs) → OccursErrs heap k es → OccursLinks heap k (joined es)

  pub data OccursErrs (heap : Heap) (k : Kind) : Errs → Type 0 where
    first : (e : Err) (es : Errs) → Occurs heap k e → OccursErrs heap k (more e es)
    later : (e : Err) (es : Errs) → OccursErrs heap k es → OccursErrs heap k (more e es)

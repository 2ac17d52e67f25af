-- ===== src/Errx/Tests.antt =====
-- Runs of the definitions on the inputs of errx/errx_test.go, and the theorems at some of them.
use compage_go.Base.{
  inl, inr, arith, ◌≡◌, ◌⊎◌, ◌↔◌, refl, true, false, Option, none, some, List, [], ◌∷◌, lit,
  nat_comparable,
}
use compage_go.Base.Members.{contains, IsUnique}
use compage_go.Errx.Kind.{
  Kind, unknown, not_found, validation, unavailable, internal, valid, kind_string,
}
use compage_go.Errx.Tree.{deref, nil, pointer, node, wrapped, joined, end, more, no_unwrap, Heap}
use compage_go.Errx.Inspect.{
  classify, kind_of, kinds_of, kind_at, kinds_at, kind_err, kinds_err, merge, is_kind,
}
use compage_go.Errx.Inspect.Occurs.{Occurs}
use compage_go.Errx.Inspect.Exact.{kinds_of_exact}
use compage_go.Errx.Inspect.Fails.{Clash, kind_of_fails}
use compage_go.Errx.Inspect.Ends.{kind_of_returns, kinds_of_returns}
use compage_go.Errx.Wrap.{Cause, Error, with_kind, with_cause, without_unwrap, new, as_node}
use compage_go.Errx.Wrap.Hidden.{kind_of-hidden}

-- An unavailable error around three joined ones; the last object is a cycle.
abbrev heap : Heap
heap =
    node (some unavailable) (wrapped (pointer 1))
    ∷ node none (joined (more (pointer 2) (more (pointer 3) (more (pointer 2) end))))
    ∷ node (some not_found) no_unwrap
    ∷ node (some validation) no_unwrap
    ∷ node (some unknown) (wrapped (pointer 4))
    ∷ []

kinds_in_order : kinds_of heap (pointer 0) ≡ some (unavailable ∷ not_found ∷ validation ∷ [])
unfolding kinds_of kinds_err kinds_at classify
kinds_in_order = refl

outer_wins : kind_of heap (pointer 0) ≡ some (some unavailable)
unfolding kind_of kind_err kind_at classify
outer_wins = refl

conflict_hides : kind_of heap (pointer 1) ≡ some none
unfolding kind_of kind_err kind_at classify merge
conflict_hides = refl

cycle_ends : (kind_of heap (pointer 4) ≡ some none) × (kinds_of heap (pointer 4) ≡ some [])
unfolding kind_of kind_err kind_at kinds_of kinds_err kinds_at classify
cycle_ends = (refl, refl)

is_kind_outer :
    (is_kind heap (pointer 0) unavailable ≡ some true)
    × (is_kind heap (pointer 0) not_found ≡ some false)
unfolding is_kind kind_of kind_err kind_at classify
is_kind_outer = (refl, refl)

names : (kind_string not_found ≡ lit "not_found") × (kind_string 99 ≡ lit "unknown")
unfolding kind_string
names = (refl, refl)

kinds_of_exact_example :
    IsUnique (unavailable ∷ not_found ∷ validation ∷ [])
    × ((k : Kind)
        → (contains (unavailable ∷ not_found ∷ validation ∷ []) k ≡ true)
          ↔ Occurs heap k (pointer 0))
kinds_of_exact_example = kinds_of_exact heap (pointer 0) _ kinds_in_order

kind_of_returns_example : (r : Option Kind) × (kind_of heap (pointer 4) ≡ some r)
kind_of_returns_example = kind_of_returns heap (pointer 4)

kinds_of_returns_example : (ks : List Kind) × (kinds_of heap (pointer 4) ≡ some ks)
kinds_of_returns_example = kinds_of_returns heap (pointer 4)

abbrev database : Cause
database = record { err = pointer 2; text = lit "database unavailable" }

abbrev failed : Error
failed = record { message = b'x' ∷ []; kind = internal; cause = some database; unwrap = false }

new_hidden :
    new (b'x' ∷ []) (with_kind internal ∷ with_cause database ∷ without_unwrap ∷ []) ≡ some failed
unfolding new valid
new_hidden = refl

new_panics : (new [] [] ≡ none) × (new (b'x' ∷ []) (with_kind 99 ∷ []) ≡ none)
unfolding new valid
new_panics = (refl, refl)

-- the error that hides its cause, behind the pointer 0 of a heap
abbrev hiding : Heap
hiding = node (some internal) (wrapped nil) ∷ heap

hiding_here : deref hiding 0 ≡ as_node failed
unfolding as_node
hiding_here = refl

kind_of-hidden_example :
    (kind_of hiding (pointer 0) ≡ some (some internal))
    × (kinds_of hiding (pointer 0) ≡ some (internal ∷ []))
kind_of-hidden_example =
    kind_of-hidden (b'x' ∷ []) (with_kind internal ∷ with_cause database ∷ without_unwrap ∷ [])
      failed hiding 0 (inr (inr (inl refl))) new_hidden (omega arith) hiding_here

kind_of_fails_example :
    ((k : Kind) → ¬ Occurs heap k (pointer 1)) ⊎ Clash (λ k. Occurs heap k (pointer 1))
kind_of_fails_example = kind_of_fails heap (pointer 1) conflict_hides

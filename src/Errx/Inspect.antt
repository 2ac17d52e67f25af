-- ===== src/Errx/Inspect.antt =====
-- errx/inspect.go. `(kind, ok)` is an `Option`; a walk threads the map `seen`, and takes fuel
-- for the pointers that it follows: `none` means that the fuel ran out.
pub mod Occurs
pub mod Ends
pub mod Sound
pub mod Closed
pub mod Grows
pub mod Exact
pub mod Fails
use compage_go.Base.{
  ℕ, zero, suc, ◌≡◌, arith, Bool, true, false, Option, none, some, List, [], ◌∷◌, length, replicate,
  ◌==◌, nat_comparable, if◌then◌else◌, ◌>>=◌,
}
use compage_go.Base.Members.{add_unique}
use compage_go.Errx.Kind.{Kind, classifies}
use compage_go.Errx.Tree.{
  Err, nil, typed_nil, pointer, value, Node, node, Links, no_unwrap, wrapped, joined, Errs, end,
  more, Heap, deref, Seen, is_seen, mark,
}

-- The kind that an error's own `Kind` method gives, if it is valid and not `Unknown`.
unfoldable pub classify : Option Kind → Option Kind
unfolding classifies
classify none = none
classify (some k) = if classifies k then some k else none

-- One round of the loop of `kindOf` over joined errors: the kind so far, or `none` for a conflict.
unfoldable pub merge : Option Kind → Option Kind → Option (Option Kind)
merge acc none = some acc
merge none (some k) = some (some k)
merge (some first) (some k) = if k == first then some (some first) else none

abbrev pub Found : Type 0
Found = Option Kind × Seen

module _ (visit : ℕ → Seen → Option Found) where
  unfoldable mutual
    -- `kindOf`
    pub kind_err : Err → Seen → Option Found
    kind_err nil s = some (none, s)
    kind_err typed_nil s = some (none, s)
    kind_err (pointer p) s = visit p s
    kind_err (value n) s = kind_node n s

    pub kind_node : Node → Seen → Option Found
    kind_node (node own links) s = elim (classify own) [
      | some k ↦ some (some k, s)
      | none ↦ kind_links links s
    ]

    pub kind_links : Links → Seen → Option Found
    kind_links no_unwrap s = some (none, s)
    kind_links (wrapped e) s = kind_err e s
    kind_links (joined es) s = kind_join es none s

    pub kind_join : Errs → Option Kind → Seen → Option Found
    kind_join end acc s = some (acc, s)
    kind_join (more e es) acc s = kind_err e s >>= λ r. elim (merge acc r.0) [
      | some next ↦ kind_join es next r.1
      | none ↦ some (none, r.1)
    ]

module _ (visit : ℕ → Seen → Option Found) (c : Option Kind) (links : Links) (s : Seen) where
  -- The two ways of a node: its own kind, or on to what it wraps.
  pub kind_node-none :
      classify c ≡ none → kind_node visit (node c links) s ≡ kind_links visit links s
  unfolding kind_node
  kind_node-none e = ground arith

  pub kind_node-some :
      {k : Kind} → classify c ≡ some k → kind_node visit (node c links) s ≡ some (some k, s)
  unfolding kind_node
  kind_node-some e = ground arith

-- `markSeen`, then the object behind the pointer
unfoldable pub kind_at : Heap → ℕ → ℕ → Seen → Option Found
kind_at heap zero p s = none
kind_at heap (suc fuel) p s =
    let rest = kind_node (kind_at heap fuel) (deref heap p) (mark s p) in
    if is_seen s p then some (none, s) else rest

-- One unit of fuel for each object, and one more.
abbrev pub enough : Heap → ℕ
enough heap = suc (length heap)

abbrev pub unmarked : Heap → Seen
unmarked heap = replicate (length heap) false

-- `KindOf`
unfoldable pub kind_of : Heap → Err → Option (Option Kind)
kind_of heap e = kind_err (kind_at heap (enough heap)) e (unmarked heap) >>= λ r. some r.0

abbrev pub Walked : Type 0
Walked = Seen × List Kind

abbrev pub note : List Kind → Option Kind → List Kind
note kinds none = kinds
note kinds (some k) = add_unique kinds k

module _ (visit : ℕ → Walked → Option Walked) where
  unfoldable mutual
    -- the closure `walk` of `KindsOf`
    pub kinds_err : Err → Walked → Option Walked
    kinds_err nil w = some w
    kinds_err typed_nil w = some w
    kinds_err (pointer p) w = visit p w
    kinds_err (value n) w = kinds_node n w

    pub kinds_node : Node → Walked → Option Walked
    kinds_node (node own links) w = kinds_links links (w.0, note w.1 (classify own))

    pub kinds_links : Links → Walked → Option Walked
    kinds_links no_unwrap w = some w
    kinds_links (wrapped e) w = kinds_err e w
    kinds_links (joined es) w = kinds_errs es w

    pub kinds_errs : Errs → Walked → Option Walked
    kinds_errs end w = some w
    kinds_errs (more e es) w = kinds_err e w >>= kinds_errs es

unfoldable pub kinds_at : Heap → ℕ → ℕ → Walked → Option Walked
kinds_at heap zero p w = none
kinds_at heap (suc fuel) p w =
    let rest = kinds_node (kinds_at heap fuel) (deref heap p) (mark w.0 p, w.1) in
    if is_seen w.0 p then some w else rest

-- `KindsOf`
unfoldable pub kinds_of : Heap → Err → Option (List Kind)
kinds_of heap e = kinds_err (kinds_at heap (enough heap)) e (unmarked heap, []) >>= λ w. some w.1

-- `IsKind`
unfoldable pub is_kind : Heap → Err → Kind → Option Bool
is_kind heap e want = kind_of heap e >>= λ r. some (elim r [ none ↦ false | some k ↦ k == want ])

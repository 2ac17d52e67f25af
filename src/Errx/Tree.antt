-- ===== src/Errx/Tree.antt =====
-- Error values. Objects behind pointers stand in a heap, and a pointer is its index there, which
-- plays the part of the pair of type and address of `visit` in errx/inspect.go. An error that is
-- no pointer carries its fields itself, so that it never leads back to itself but through a pointer:
-- slices and maps that are errors and unwrap to themselves, which `markSeen` does not mark, are left
-- out.
use compage_go.Base.{
  ℕ, suc, ◌≡◌, refl, Bool, true, false, Option, none, List, [], ◌∷◌, get_or, set, arith,
}
use compage_go.Errx.Kind.{Kind}

mutual
  pub data Err : Type 0 where
    nil : Err
    typed_nil : Err
    pointer : ℕ → Err
    value : Node → Err

  -- The methods that inspection looks for: `Kind() Kind`, if there is one, and one of the two
  -- methods named `Unwrap`, if there is one.
  pub data Node : Type 0 where
    node : Option Kind → Links → Node

  pub data Links : Type 0 where
    no_unwrap : Links
    wrapped : Err → Links
    joined : Errs → Links

  pub data Errs : Type 0 where
    end : Errs
    more : Err → Errs → Errs

abbrev pub Heap : Type 0
Heap = List Node

abbrev blank : Node
blank = node none no_unwrap

abbrev pub deref : Heap → ℕ → Node
deref heap p = get_or heap p blank

-- `seen`: one flag for each object. A Go pointer that is not nil leads to an object, so what is
-- read behind the end of the heap does not matter.
abbrev pub Seen : Type 0
Seen = List Bool

abbrev pub is_seen : Seen → ℕ → Bool
is_seen s p = get_or s p true

abbrev pub mark : Seen → ℕ → Seen
mark s p = set s p true

-- How many objects are not seen yet.
abbrev pub unseen : Seen → ℕ
unseen [] = 0
unseen (true ∷ s) = unseen s
unseen (false ∷ s) = suc (unseen s)

pub unseen-mark : (s : Seen) (p : ℕ) → is_seen s p ≡ false → unseen s ≡ suc (unseen (mark s p))
unseen-mark [] p h = cc
unseen-mark (b ∷ s) ℕ.zero h = ground arith
unseen-mark (true ∷ s) (suc p) h = unseen-mark s p h
unseen-mark (false ∷ s) (suc p) h = omega (arith, unseen-mark s p h)

pub is_seen-mark : (s : Seen) (p q : ℕ) → is_seen s q ≡ true → is_seen (mark s p) q ≡ true
is_seen-mark [] p q h = refl
is_seen-mark (b ∷ s) ℕ.zero ℕ.zero h = refl
is_seen-mark (b ∷ s) ℕ.zero (suc q) h = h
is_seen-mark (b ∷ s) (suc p) ℕ.zero h = h
is_seen-mark (b ∷ s) (suc p) (suc q) h = is_seen-mark s p q h

pub is_seen-mark_self : (s : Seen) (p : ℕ) → is_seen (mark s p) p ≡ true
is_seen-mark_self [] p = refl
is_seen-mark_self (b ∷ s) ℕ.zero = refl
is_seen-mark_self (b ∷ s) (suc p) = is_seen-mark_self s p

-- Marking `p` sets no other flag.
pub is_seen_of_mark :
    (s : Seen) (p q : ℕ) → is_seen (mark s p) q ≡ true → is_seen s q ≡ false → p ≡ q
is_seen_of_mark [] p q h k = cc
is_seen_of_mark (b ∷ s) ℕ.zero ℕ.zero h k = refl
is_seen_of_mark (b ∷ s) ℕ.zero (suc q) h k = cc
is_seen_of_mark (b ∷ s) (suc p) ℕ.zero h k = cc
is_seen_of_mark (b ∷ s) (suc p) (suc q) h k = omega (arith, is_seen_of_mark s p q h k)

-- ===== src/Errx/Inspect/Closed.antt =====
-- Closed sets of seen objects: what hangs under a newly seen object is seen, and its kinds are
-- listed.
use compage_go.Base.{
  ℕ, ◌≡◌, inl, inr, true, false, Option, none, some, List, nat_comparable, nat_beq_iff, arith,
  Bool-cases,
}
use compage_go.Base.Members.{contains, contains-add_unique, IsUnique, IsUnique-add_unique}
use compage_go.Errx.Kind.{Kind}
use compage_go.Errx.Tree.{
  Err, nil, typed_nil, pointer, value, Node, node, Links, no_unwrap, wrapped, joined, Errs, end,
  more, Heap, deref, is_seen,
}
use compage_go.Errx.Inspect.{Walked, classify, note}

abbrev pub Noted : Option Kind → List Kind → Type 0
Noted c kinds = (k : Kind) → c ≡ some k → contains kinds k ≡ true

-- Pointers are seen, and the kinds of what stands before the next pointer are listed.
abbrev mutual
  pub Covered : Walked → Err → Type 0
  Covered w nil = Unit
  Covered w typed_nil = Unit
  Covered w (pointer p) = is_seen w.0 p ≡ true
  Covered w (value n) = CoveredNode w n

  pub CoveredNode : Walked → Node → Type 0
  CoveredNode w (node c l) = Noted (classify c) w.1 × CoveredLinks w l

  pub CoveredLinks : Walked → Links → Type 0
  CoveredLinks w no_unwrap = Unit
  CoveredLinks w (wrapped e) = Covered w e
  CoveredLinks w (joined es) = CoveredErrs w es

  pub CoveredErrs : Walked → Errs → Type 0
  CoveredErrs w end = Unit
  CoveredErrs w (more e es) = Covered w e × CoveredErrs w es

-- Nothing is forgotten.
pub record Extends (w w' : Walked) : Type 0 where
  pub seen : (p : ℕ) → is_seen w.0 p ≡ true → is_seen w'.0 p ≡ true
  pub listed : (k : Kind) → contains w.1 k ≡ true → contains w'.1 k ≡ true

pub Extends-refl : (w : Walked) → Extends w w
Extends-refl w = record { seen = λ p h. h; listed = λ k h. h }

pub Extends-trans : {u v w : Walked} → Extends u v → Extends v w → Extends u w
Extends-trans a b = record {
  seen = λ p h. b.seen p (a.seen p h);
  listed = λ k h. b.listed k (a.listed k h);
}

mutual
  pub Covered-mono : (w w' : Walked) (e : Err) → Extends w w' → Covered w e → Covered w' e
  Covered-mono w w' nil x c = tt
  Covered-mono w w' typed_nil x c = tt
  Covered-mono w w' (pointer p) x c = x.seen p c
  Covered-mono w w' (value n) x c = CoveredNode-mono w w' n x c

  pub CoveredNode-mono :
      (w w' : Walked) (n : Node) → Extends w w' → CoveredNode w n → CoveredNode w' n
  CoveredNode-mono w w' (node c l) x (own, below) =
      (λ k e. x.listed k (own k e), CoveredLinks-mono w w' l x below)

  pub CoveredLinks-mono :
      (w w' : Walked) (l : Links) → Extends w w' → CoveredLinks w l → CoveredLinks w' l
  CoveredLinks-mono w w' no_unwrap x c = tt
  CoveredLinks-mono w w' (wrapped e) x c = Covered-mono w w' e x c
  CoveredLinks-mono w w' (joined es) x c = CoveredErrs-mono w w' es x c

  pub CoveredErrs-mono :
      (w w' : Walked) (es : Errs) → Extends w w' → CoveredErrs w es → CoveredErrs w' es
  CoveredErrs-mono w w' end x c = tt
  CoveredErrs-mono w w' (more e es) x (a, b) =
      (Covered-mono w w' e x a, CoveredErrs-mono w w' es x b)

module _ (heap : Heap) where
  -- a walk from `w` to `w'`: nothing is forgotten, what became seen is closed, no kind is listed twice
  pub record Grows (w w' : Walked) : Type 0 where
    pub extends : Extends w w'
    pub closed :
        (p : ℕ) → is_seen w'.0 p ≡ true → is_seen w.0 p ≡ false → CoveredNode w' (deref heap p)
    pub unique : IsUnique w.1 → IsUnique w'.1

  pub Grows-refl : (w : Walked) → Grows w w
  Grows-refl w = record { extends = Extends-refl w; closed = λ p h k. cc; unique = λ u. u }

  pub Grows-trans : (u v w : Walked) → Grows u v → Grows v w → Grows u w
  Grows-trans u v w a b = record {
    extends = Extends-trans a.extends b.extends;
    closed = λ p h k. elim (Bool-cases (is_seen v.0 p)) [
      | inl old ↦ CoveredNode-mono v w (deref heap p) b.extends (a.closed p old k)
      | inr new ↦ b.closed p h new
    ];
    unique = λ x. b.unique (a.unique x);
  }

  contains-note :
      (kinds : List Kind) (c : Option Kind) (k : Kind)
      → contains kinds k ≡ true
      → contains (note kinds c) k ≡ true
  contains-note kinds none k h = h
  contains-note kinds (some j) k h = ground (arith, contains-add_unique kinds j k)

  pub Noted-note : (kinds : List Kind) (c : Option Kind) → Noted c (note kinds c)
  Noted-note kinds none k e = cc
  Noted-note kinds (some j) k e = ground (arith, contains-add_unique kinds j k, nat_beq_iff j k)

  IsUnique-note : (kinds : List Kind) (c : Option Kind) → IsUnique kinds → IsUnique (note kinds c)
  IsUnique-note kinds none u = u
  IsUnique-note kinds (some j) u = IsUnique-add_unique kinds j u

  pub Grows-note : (w : Walked) (c : Option Kind) → Grows w (w.0, note w.1 c)
  Grows-note w c = record {
    extends = record { seen = λ p h. h; listed = contains-note w.1 c };
    closed = λ p h k. cc;
    unique = IsUnique-note w.1 c;
  }

-- ===== src/Text/Affixes.antt =====
-- `StripPrefix`, `EnsurePrefix` and `EnsureSuffix` of text/text.go.
use compage_go.Base.{
  ◌≡◌, ◌≢◌, refl, nat_beq_iff, arith, Bool, true, false, ◌||◌, none, some, [], ◌∷◌, ◌++◌, ◌==◌,
  nat_comparable, list_comparable, same_refl, if◌then◌else◌, Bytes, ℕ,
}
use compage_go.Go.Strings.{has_prefix, has_suffix, cut_prefix}

-- the common separators `_`, `-` and `.`
unfoldable pub is_separator : ℕ → Bool
is_separator c = c == b'_' || c == b'-' || c == b'.'

unfoldable pub drop_separator : Bytes → Bytes
unfolding is_separator
drop_separator [] = []
drop_separator (c ∷ s) = if is_separator c then s else c ∷ s

-- The test `HasPrefix` and `TrimPrefix` are the two cases of `cut_prefix`.
unfoldable pub strip_prefix : Bytes → Bytes → Bytes
strip_prefix input prefix = elim (cut_prefix input prefix) [
  | none ↦ input
  | some s ↦ drop_separator s
]

unfoldable pub ensure_prefix : Bytes → Bytes → Bytes
ensure_prefix s prefix = if has_prefix s prefix then s else prefix ++ s

unfoldable pub ensure_suffix : Bytes → Bytes → Bytes
ensure_suffix s suffix = if has_suffix s suffix then s else s ++ suffix

cut_prefix-append : (p s : Bytes) → cut_prefix (p ++ s) p ≡ some s
unfolding cut_prefix
cut_prefix-append [] s = refl
cut_prefix-append (c ∷ p) s = rw (same_refl c) (cut_prefix-append p s)

drop_separator_other :
    (s : Bytes)
    → ((c : ℕ) (t : Bytes) → s ≡ c ∷ t → (c ≢ b'_') × (c ≢ b'-') × (c ≢ b'.'))
    → drop_separator s ≡ s
unfolding drop_separator is_separator
drop_separator_other [] other = refl
drop_separator_other (c ∷ t) other =
    let (a, b, d) = other c t refl in
    ground (arith, nat_beq_iff c b'_', nat_beq_iff c b'-', nat_beq_iff c b'.')

-- Stripping the prefix that `EnsurePrefix` has put before a text with no such prefix gives the text
-- back, if the text does not start with `_`, `-` or `.`.
pub strip_prefix-ensure_prefix :
    (s prefix : Bytes)
    → has_prefix s prefix ≡ false
    → ((c : ℕ) (t : Bytes) → s ≡ c ∷ t → (c ≢ b'_') × (c ≢ b'-') × (c ≢ b'.'))
    → strip_prefix (ensure_prefix s prefix) prefix ≡ s
unfolding strip_prefix ensure_prefix
strip_prefix-ensure_prefix s prefix h other =
    rw (h, strip_prefix, cut_prefix-append prefix s) (drop_separator_other s other)

has_prefix-append : (p s : Bytes) → has_prefix (p ++ s) p ≡ true
unfolding has_prefix
has_prefix-append [] [] = refl
has_prefix-append [] (c ∷ s) = refl
has_prefix-append (c ∷ p) s = rw (same_refl c) (has_prefix-append p s)

has_suffix-append : (s p : Bytes) → has_suffix (s ++ p) p ≡ true
unfolding has_suffix
has_suffix-append [] [] = refl
has_suffix-append [] (c ∷ p) = rw (same_refl (c ∷ p)) refl
has_suffix-append (c ∷ s) p = rw (has_suffix-append s p) (or_true _)
  where
    or_true : (b : Bool) → (b || true) ≡ true
    or_true true = refl
    or_true false = refl

-- What EnsurePrefix returns has the prefix, what EnsureSuffix returns has the suffix, and a second
-- call changes neither.
pub ensure_twice :
    (s affix : Bytes)
    → (has_prefix (ensure_prefix s affix) affix ≡ true)
      × (has_suffix (ensure_suffix s affix) affix ≡ true)
      × (ensure_prefix (ensure_prefix s affix) affix ≡ ensure_prefix s affix)
      × (ensure_suffix (ensure_suffix s affix) affix ≡ ensure_suffix s affix)
unfolding ensure_prefix ensure_suffix
ensure_twice s affix =
    let p : has_prefix (ensure_prefix s affix) affix ≡ true = prefixed (has_prefix s affix) refl in
    let q : has_suffix (ensure_suffix s affix) affix ≡ true = suffixed (has_suffix s affix) refl in
    (p, q, rw p refl, rw q refl)
  where
    prefixed :
        (b : Bool) → has_prefix s affix ≡ b → has_prefix (if b then s else affix ++ s) affix ≡ true
    prefixed true h = h
    prefixed false h = has_prefix-append affix s

    suffixed :
        (b : Bool) → has_suffix s affix ≡ b → has_suffix (if b then s else s ++ affix) affix ≡ true
    suffixed true h = h
    suffixed false h = has_suffix-append s affix

-- ===== src/Text/Cut.antt =====
-- `Truncate` of text/text.go, over runes. `none` is the panic of a slice out of range.
use compage_go.Base.{
  ℕ, zero, suc, ◌-◌, ◌≤◌, ◌<◌, ◌≡◌, refl, sym, ap, [], ◌∷◌, drop, take-append-drop, inl, inr,
  Option, none, some, ◌++◌, if◌then◌else◌, Bytes, leb, leb→le, arith, length, take, length-append,
  length-take, Bool-cases,
}
use compage_go.Go.Strconv.{ℤ, pos, negsuc}

within : Bytes → ℕ → Bytes → Option Bytes
within s max tail =
    if leb (length s) max
    then some s
    else if leb max (length tail)
    then some (take max tail)
    else some (take (max - length tail) s ++ tail)

-- A negative `max` is below both lengths, and `[]rune(tail)[:max]` panics.
unfoldable pub truncate : Bytes → ℤ → Bytes → Option Bytes
unfolding within
truncate s (pos max) tail = within s max tail
truncate s (negsuc n) tail = none

take_whole : (n : ℕ) (s : Bytes) → n ≡ length s → take n s ≡ s
take_whole zero [] h = refl
take_whole zero (c ∷ s) h = absurd (omega arith)
take_whole (suc n) [] h = refl
take_whole (suc n) (c ∷ s) h = ap (λ r. c ∷ r) (take_whole n s (omega arith))

-- What Truncate returns for a text, a maximum and a tail.
pub record IsTruncated (s : Bytes) (max : ℕ) (tail r : Bytes) : Type 0 where
  pub bound : length r ≤ max
  pub short : length s ≤ max → r ≡ s
  pub long : max < length s → length r ≡ max
  pub parts :
      max < length s
      → length tail ≤ max
      → (kept : Bytes) × (rest : Bytes) × (s ≡ kept ++ rest) × (r ≡ kept ++ tail)

-- Truncate returns for every max that is not negative. The result has at most max runes: it is the
-- text itself if that has no more than max, and has exactly max otherwise; then it is a beginning of
-- the text with the tail behind it, if the tail has no more than max.
pub truncate_bounds :
    (s : Bytes) (max : ℕ) (tail : Bytes)
    → (r : Bytes) × (truncate s (pos max) tail ≡ some r) × IsTruncated s max tail r
unfolding truncate
truncate_bounds s max tail = elim (Bool-cases (leb (length s) max)) [
  | inl short ↦ (
    s,
    rw short,
    record {
      bound = leb→le _ _ short;
      short = λ h. refl;
      long = λ h. ground arith;
      parts = λ h t. absurd (ground arith);
    },
  )
  | inr long ↦
      let over : max < length s = ground arith in
      elim (Bool-cases (leb max (length tail))) [
        | inl tight ↦
            let le : max ≤ length tail = leb→le _ _ tight in
            let e = length-take max tail le in
            (
              take max tail,
              rw (long, tight),
              record {
                bound = omega (arith, e);
                short = λ h. absurd (omega arith);
                long = λ h. e;
                parts = λ h t. ([], s, refl, take_whole max tail (omega arith));
              },
            )
        | inr room ↦
            let a : length tail ≤ max = ground arith in
            let b : max - length tail ≤ length s = omega arith in
            let kept = take (max - length tail) s in
            let e : length (kept ++ tail) ≡ max =
              omega (arith, length-append kept tail, length-take (max - length tail) s b) in
            (
              kept ++ tail,
              rw (long, room),
              record {
                bound = omega (arith, e);
                short = λ h. absurd (omega arith);
                long = λ h. e;
                parts = λ h t. (
                  kept,
                  drop (max - length tail) s,
                  sym (take-append-drop (max - length tail) s),
                  refl,
                );
              },
            )
      ]
]

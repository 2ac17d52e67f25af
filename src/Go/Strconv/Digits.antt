-- ===== src/Go/Strconv/Digits.antt =====
-- `strconv.Itoa` read back by `strconv.Atoi`.
use compage_go.Base.{
  ℕ, zero, suc, ◌+◌, ◌-◌, ◌*◌, ◌/◌, ◌%◌, ◌^◌, ◌<◌, ◌++◌, ◌≡◌, refl, ap, ◌∙◌, false, some, [], ◌∷◌,
  ltb, ◌==◌, nat_comparable, list_comparable, Bytes, arith, inl, inr, Bool-cases,
}
use compage_go.Go.Strconv.{pos, read_digits, read_unsigned, atoi_value, show_digits, itoa, limit}

-- one more digit at the end
read_digits-append :
    (acc n d : ℕ) (s : Bytes)
    → read_digits acc s ≡ some n
    → d < 10
    → read_digits acc (s ++ (48 + d) ∷ []) ≡ some (n * 10 + d)
unfolding read_digits
read_digits-append acc n d [] h small = ground arith
read_digits-append acc n d (c ∷ s) h small =
    let rest = read_digits-append (acc * 10 + (c - 48)) n d s in ground arith

read_digits-show_digits : (fuel n : ℕ) → n < 10 ^ fuel → read_digits 0 (show_digits fuel n) ≡ some n
unfolding show_digits read_digits
read_digits-show_digits zero n small = ap some (omega arith)
read_digits-show_digits (suc fuel) n small = elim (Bool-cases (ltb n 10)) [
  | inl e ↦ rw e (ground arith)
  | inr e ↦ rw e (
      read_digits-append 0 (n / 10) (n % 10) (show_digits fuel (n / 10))
        (read_digits-show_digits fuel (n / 10) (omega arith)) (omega arith)
      ∙ ap some (omega arith))
]

append-nonempty : (s : Bytes) (c : ℕ) → ((s ++ c ∷ []) == []) ≡ false
append-nonempty [] c = refl
append-nonempty (b ∷ s) c = refl

pub itoa_nonempty : (n : ℕ) → (itoa (pos n) == []) ≡ false
unfolding itoa show_digits
itoa_nonempty n =
    let shown = append-nonempty (show_digits 19 (n / 10)) (48 + n % 10) in ground arith

-- What is all digits is read as that number.
atoi_value-read_digits :
    (b : Bytes) (n : ℕ)
    → (b == []) ≡ false
    → read_digits 0 b ≡ some n
    → n < limit
    → atoi_value b ≡ pos n
unfolding atoi_value read_unsigned read_digits
atoi_value-read_digits [] n full h small = absurd (ground arith)
atoi_value-read_digits (c ∷ s) n full h small = ground arith

-- A number of 63 bits that is written by `strconv.Itoa` is read back.
pub atoi_value-itoa : (n : ℕ) → n < limit → atoi_value (itoa (pos n)) ≡ pos n
atoi_value-itoa n small =
    atoi_value-read_digits (itoa (pos n)) n (itoa_nonempty n)
      (unfold itoa in read_digits-show_digits 20 n (omega arith)) small

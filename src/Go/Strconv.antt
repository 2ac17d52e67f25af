-- ===== src/Go/Strconv.antt =====
-- The package strconv: Go's `int` (64 bits) and `Atoi`.
pub mod Digits
use compage_go.Base.{
  ℕ, suc, ◌+◌, ◌-◌, ◌*◌, ◌/◌, ◌%◌, ◌^◌, ◌++◌, lit, ◌≡◌, ◌↔◌, Bool, true, false, ◌&&◌, Option, none,
  some, [], ◌∷◌, leb, ltb, ◌==◌, nat_comparable, nat_beq_iff, Comparable, if◌then◌else◌, Bytes,
  arith, ◌>>=◌,
}

-- `negsuc n` is -(n + 1).
pub data ℤ : Type 0 where
  pos : ℕ → ℤ
  negsuc : ℕ → ℤ

abbrev pub int_same : ℤ → ℤ → Bool
int_same (pos n) (pos m) = n == m
int_same (negsuc n) (negsuc m) = n == m
int_same _ _ = false

pub int_same_iff : (a b : ℤ) → (int_same a b ≡ true) ↔ (a ≡ b)
int_same_iff (pos n) (pos m) = ground (arith, nat_beq_iff n m)
int_same_iff (pos n) (negsuc m) = ground arith
int_same_iff (negsuc n) (pos m) = ground arith
int_same_iff (negsuc n) (negsuc m) = ground (arith, nat_beq_iff n m)

instance abbrev pub int_comparable : Comparable ℤ
int_comparable = record { same = int_same; same_iff = int_same_iff }

-- The number that decimal digits spell behind `n`.
unfoldable pub read_digits : ℕ → Bytes → Option ℕ
read_digits n [] = some n
read_digits n (c ∷ s) =
    let rest = read_digits (n * 10 + (c - b'0')) s in
    if leb b'0' c && leb c b'9' then rest else none

abbrev pub limit : ℕ
limit = 2 ^ 63

unfoldable pub read_unsigned : Bytes → Option ℕ
unfolding read_digits
read_unsigned [] = none
read_unsigned (c ∷ s) = read_digits 0 (c ∷ s)

abbrev pub negate : ℕ → ℤ
negate ℕ.zero = pos 0
negate (suc n) = negsuc n

-- `strconv.Atoi`; `none` is an error.
unfoldable pub atoi : Bytes → Option ℤ
unfolding read_unsigned
atoi [] = none
atoi (c ∷ s) =
    if c == b'-'
    then (read_unsigned s >>= λ n. if leb n limit then some (negate n) else none)
    else if c == b'+'
    then (read_unsigned s >>= λ n. if ltb n limit then some (pos n) else none)
    else (read_unsigned (c ∷ s) >>= λ n. if ltb n limit then some (pos n) else none)

-- The number that `strconv.Atoi` returns beside its error, if any: 0 for what is no number, and the
-- nearest number for one that does not fit.
unfoldable pub atoi_value : Bytes → ℤ
atoi_value [] = pos 0
atoi_value (c ∷ s) =
    if c == b'-'
    then below (read_unsigned s)
    else if c == b'+'
    then above (read_unsigned s)
    else above (read_unsigned (c ∷ s))
  where
    above : Option ℕ → ℤ
    above none = pos 0
    above (some n) = if ltb n limit then pos n else pos (limit - 1)

    below : Option ℕ → ℤ
    below none = pos 0
    below (some n) = if leb n limit then negate n else negate limit

-- Decimal digits of a number below ten to the power of the fuel.
unfoldable pub show_digits : ℕ → ℕ → Bytes
show_digits ℕ.zero n = []
show_digits (suc fuel) n =
    let before = show_digits fuel (n / 10) in
    if ltb n 10 then (b'0' + n) ∷ [] else before ++ (b'0' + n % 10) ∷ []

-- `strconv.Itoa`: 20 digits are enough for 64 bits.
unfoldable pub itoa : ℤ → Bytes
unfolding show_digits
itoa (pos n) = show_digits 20 n
itoa (negsuc n) = b'-' ∷ show_digits 20 (suc n)

-- `strconv.FormatBool`
unfoldable pub format_bool : Bool → Bytes
format_bool true = lit "true"
format_bool false = lit "false"

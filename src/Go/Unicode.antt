-- ===== src/Go/Unicode.antt =====
-- Spaces and letter case in UTF-8, as far as the packages strings and unicode are called. A rune
-- behind ASCII is read by its bytes, which no other position of a text can hold.
use compage_go.Base.{
  ℕ, zero, suc, ◌+◌, ◌-◌, Bool, true, false, ◌&&◌, ◌||◌, List, [], ◌∷◌, ◌++◌, ◌==◌, nat_comparable,
  if◌then◌else◌, Bytes, ltb, leb,
}
use compage_go.Go.Strings.{has_prefix}

-- ASCII

unfoldable pub is_lower : ℕ → Bool
is_lower c = leb b'a' c && leb c b'z'

unfoldable pub is_upper : ℕ → Bool
is_upper c = leb b'A' c && leb c b'Z'

unfoldable pub is_digit : ℕ → Bool
is_digit c = leb b'0' c && leb c b'9'

-- `[a-zA-Z0-9]`
unfoldable pub is_alnum : ℕ → Bool
is_alnum c = is_lower c || is_upper c || is_digit c

unfoldable pub lower : ℕ → ℕ
lower c = if is_upper c then c + 32 else c

unfoldable pub upper : ℕ → ℕ
upper c = if is_lower c then c - 32 else c

-- `unicode.IsSpace` of ASCII
unfoldable pub is_ascii_space : ℕ → Bool
is_ascii_space c = c == 32 || (leb 9 c && leb c 13)

-- The number of bytes of the space that a text starts with, 0 if it starts with none.
unfoldable pub wide_space : Bytes → ℕ
wide_space s =
    if has_prefix s (0xC2 ∷ 0x85 ∷ []) || has_prefix s (0xC2 ∷ 0xA0 ∷ [])
    then 2
    else if has_prefix s (0xE1 ∷ 0x9A ∷ 0x80 ∷ []) || has_prefix s (0xE3 ∷ 0x80 ∷ 0x80 ∷ [])
    then 3
    else if has_prefix s (0xE2 ∷ 0x80 ∷ 0xA8 ∷ []) || has_prefix s (0xE2 ∷ 0x80 ∷ 0xA9 ∷ [])
    then 3
    else if has_prefix s (0xE2 ∷ 0x80 ∷ 0xAF ∷ []) || has_prefix s (0xE2 ∷ 0x81 ∷ 0x9F ∷ [])
    then 3
    else quad s
  where
    quad : Bytes → ℕ
    quad (a ∷ b ∷ c ∷ _) = if a == 0xE2 && (b == 0x80 && (leb 0x80 c && leb c 0x8A)) then 3 else 0
    quad _ = 0

unfoldable pub space_width : Bytes → ℕ
unfolding is_ascii_space
space_width [] = 0
space_width (c ∷ s) = if is_ascii_space c then 1 else if ltb c 128 then 0 else wide_space (c ∷ s)

-- Is there nothing but spaces, once `skip` bytes are passed over?
unfoldable pub only_spaces : ℕ → Bytes → Bool
only_spaces zero [] = true
only_spaces (suc k) [] = false
only_spaces zero (c ∷ s) =
    let w = space_width (c ∷ s) in
    let rest = only_spaces (w - 1) s in if w == 0 then false else rest
only_spaces (suc k) (c ∷ s) = only_spaces k s

unfoldable pub trim_left : ℕ → Bytes → Bytes
trim_left k [] = []
trim_left zero (c ∷ s) =
    let w = space_width (c ∷ s) in let rest = trim_left (w - 1) s in if w == 0 then c ∷ s else rest
trim_left (suc k) (c ∷ s) = trim_left k s

unfoldable pub trim_right : Bytes → Bytes
trim_right [] = []
trim_right (c ∷ s) = let rest = trim_right s in if only_spaces 0 (c ∷ s) then [] else c ∷ rest

-- `strings.TrimSpace`
unfoldable pub trim_space : Bytes → Bytes
trim_space s = trim_right (trim_left 0 s)

-- `strings.Fields`: `word` is what is read of the present word.
unfoldable pub flush : Bytes → List Bytes → List Bytes
flush [] words = words
flush (c ∷ w) words = (c ∷ w) ∷ words

unfoldable pub fields_from : ℕ → Bytes → Bytes → List Bytes
fields_from k word [] = flush word []
fields_from (suc k) word (c ∷ s) = fields_from k word s
fields_from zero word (c ∷ s) =
    let w = space_width (c ∷ s) in
    let on = fields_from 0 (word ++ c ∷ []) s in
    let next = flush word (fields_from (w - 1) [] s) in if w == 0 then on else next

unfoldable pub fields : Bytes → List Bytes
fields s = fields_from 0 [] s

-- `strings.ToLower` and `strings.ToUpper`: ASCII letters, and the runes behind ASCII that have an
-- ASCII letter as their other case (the Kelvin sign, the dotted I; the dotless i, the long s).
unfoldable pub to_lower_from : ℕ → Bytes → Bytes
to_lower_from k [] = []
to_lower_from (suc k) (c ∷ s) = to_lower_from k s
to_lower_from zero (c ∷ s) =
    let kelvin = b'k' ∷ to_lower_from 2 s in
    let dotted = b'i' ∷ to_lower_from 1 s in
    let plain = lower c ∷ to_lower_from 0 s in
    if ltb c 128
    then plain
    else if has_prefix (c ∷ s) (0xE2 ∷ 0x84 ∷ 0xAA ∷ [])
    then kelvin
    else if has_prefix (c ∷ s) (0xC4 ∷ 0xB0 ∷ [])
    then dotted
    else plain

unfoldable pub to_lower : Bytes → Bytes
to_lower s = to_lower_from 0 s

unfoldable pub to_upper_from : ℕ → Bytes → Bytes
to_upper_from k [] = []
to_upper_from (suc k) (c ∷ s) = to_upper_from k s
to_upper_from zero (c ∷ s) =
    let dotless = b'I' ∷ to_upper_from 1 s in
    let long = b'S' ∷ to_upper_from 1 s in
    let plain = upper c ∷ to_upper_from 0 s in
    if ltb c 128
    then plain
    else if has_prefix (c ∷ s) (0xC4 ∷ 0xB1 ∷ [])
    then dotless
    else if has_prefix (c ∷ s) (0xC5 ∷ 0xBF ∷ [])
    then long
    else plain

unfoldable pub to_upper : Bytes → Bytes
to_upper s = to_upper_from 0 s

-- `strings.Trim`: the set is given by a text of ASCII characters.
unfoldable pub trim_set_left : (ℕ → Bool) → Bytes → Bytes
trim_set_left inside [] = []
trim_set_left inside (c ∷ s) = let rest = trim_set_left inside s in if inside c then rest else c ∷ s

unfoldable pub all_inside : (ℕ → Bool) → Bytes → Bool
all_inside inside [] = true
all_inside inside (c ∷ s) = inside c && all_inside inside s

unfoldable pub trim_set_right : (ℕ → Bool) → Bytes → Bytes
trim_set_right inside [] = []
trim_set_right inside (c ∷ s) =
    let rest = trim_set_right inside s in if all_inside inside (c ∷ s) then [] else c ∷ rest

unfoldable pub trim_set : (ℕ → Bool) → Bytes → Bytes
trim_set inside s = trim_set_right inside (trim_set_left inside s)

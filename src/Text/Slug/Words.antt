-- ===== src/Text/Slug/Words.antt =====
-- Lower case, as `Slugify` applies it, on words of letters and digits with one space between
-- them.
use compage_go.Base.{
  ℕ, ◌≡◌, refl, sym, ap, ◌∙◌, true, List, [], ◌∷◌, ◌++◌, nat_comparable, Bytes, arith, ltb, All,
  map, append-nil,
}
use compage_go.Go.Strings.{join}
use compage_go.Go.Unicode.{is_alnum, is_lower, is_upper, is_digit, lower, to_lower_from}

abbrev pub IsAlnum : ℕ → Type 0
IsAlnum c = is_alnum c ≡ true

-- not empty, and of letters and digits only
abbrev pub IsWord : Bytes → Type 0
IsWord [] = ⊥
IsWord (c ∷ w) = IsAlnum c × All IsAlnum w

pub IsAlnum-lower : (c : ℕ) → IsAlnum c → IsAlnum (lower c)
unfolding is_alnum is_lower is_upper is_digit lower
IsAlnum-lower c h = ground arith

pub alnum_is_ascii : (c : ℕ) → IsAlnum c → ltb c 128 ≡ true
unfolding is_alnum is_lower is_upper is_digit
alnum_is_ascii c h = ground arith

pub lower_word : Bytes → Bytes
lower_word w = map lower w

All-lower : (w : Bytes) → All IsAlnum w → All IsAlnum (lower_word w)
unfolding lower_word
All-lower [] h = tt
All-lower (c ∷ w) (a, h) = (IsAlnum-lower c a, All-lower w h)

IsWord-lower : (w : Bytes) → IsWord w → IsWord (lower_word w)
unfolding lower_word
IsWord-lower [] h = h
IsWord-lower (c ∷ w) (a, h) = (IsAlnum-lower c a, All-lower w h)

pub lower_words : List Bytes → List Bytes
lower_words ws = map lower_word ws

pub IsWord-lower_words : (ws : List Bytes) → All IsWord ws → All IsWord (lower_words ws)
unfolding lower_words
IsWord-lower_words [] h = tt
IsWord-lower_words (w ∷ ws) (a, h) = (IsWord-lower w a, IsWord-lower_words ws h)

pub IsWord-IsAlnum : (w : Bytes) → IsWord w → All IsAlnum w
IsWord-IsAlnum [] h = tt
IsWord-IsAlnum (c ∷ w) h = h

-- lower case

pub to_lower-ascii :
    (c : ℕ) (s : Bytes) → ltb c 128 ≡ true → to_lower_from 0 (c ∷ s) ≡ lower c ∷ to_lower_from 0 s
unfolding to_lower_from
to_lower-ascii c s h = rw h refl

pub to_lower-word :
    (w s : Bytes) → All IsAlnum w → to_lower_from 0 (w ++ s) ≡ lower_word w ++ to_lower_from 0 s
unfolding lower_word
to_lower-word [] s h = refl
to_lower-word (c ∷ w) s (a, h) =
    to_lower-ascii c (w ++ s) (alnum_is_ascii c a) ∙ ap (λ r. lower c ∷ r) (to_lower-word w s h)

-- One byte between the words that lower case leaves as it is.
pub to_lower-join :
    (sep : ℕ) (ws : List Bytes)
    → ltb sep 128 ≡ true
    → lower sep ≡ sep
    → All IsWord ws
    → to_lower_from 0 (join ws (sep ∷ [])) ≡ join (lower_words ws) (sep ∷ [])
unfolding join lower_words to_lower_from
to_lower-join sep [] low same h = refl
to_lower-join sep (w ∷ []) low same (a, h) =
    ap (to_lower_from 0) (sym (append-nil w))
    ∙ (to_lower-word w [] (IsWord-IsAlnum w a) ∙ append-nil (lower_word w))
to_lower-join sep (w ∷ v ∷ ws) low same (a, h) =
    to_lower-word w _ (IsWord-IsAlnum w a)
    ∙ ap (λ r. lower_word w ++ r)
        (to_lower-ascii sep (join (v ∷ ws) (sep ∷ [])) low
          ∙ (ap (λ b. b ∷ to_lower_from 0 (join (v ∷ ws) (sep ∷ []))) same
              ∙ ap (λ r. sep ∷ r) (to_lower-join sep (v ∷ ws) low same h)))

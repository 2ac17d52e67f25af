-- ===== src/Certs/Names/Words.antt =====
-- What `strings.Fields` finds in a display name, and in words with one space between them.
use compage_go.Base.{
  ℕ, zero, suc, ◌-◌, ◌≡◌, ◌≢◌, refl, sym, ap, ◌∙◌, inl, inr, true, false, List, [], ◌∷◌, ◌++◌, ◌==◌,
  nat_comparable, Bytes, arith, All, All-append, append_assoc, append-nil, Bool-cases,
}
use compage_go.Go.Strings.{join}
use compage_go.Go.Unicode.{
  is_alnum, is_lower, is_upper, is_digit, is_ascii_space, space_width, flush, fields_from, fields,
}
use compage_go.Text.Slug.Words.{IsAlnum, IsWord}
use compage_go.Certs.Names.{is_plain, has_control_space}

-- not empty, and without a space of ASCII
abbrev IsSolid : Bytes → Type 0
IsSolid w = (w ≢ []) × All (λ c. c ≢ 32) w

no_blank : (c : ℕ) (s : Bytes) → space_width (c ∷ s) ≡ 0 → c ≢ 32
unfolding space_width is_ascii_space
no_blank c s h = ground arith

ne-nil-snoc : (w : Bytes) (c : ℕ) → w ++ c ∷ [] ≢ []
ne-nil-snoc [] c = cc
ne-nil-snoc (d ∷ w) c = cc

IsSolid-flush :
    (w : Bytes) (ws : List Bytes) → All (λ c. c ≢ 32) w → All IsSolid ws → All IsSolid (flush w ws)
unfolding flush
IsSolid-flush [] ws h k = k
IsSolid-flush (c ∷ w) ws h k = (((cc), h), k)

IsSolid-fields_from : (k : ℕ) (w s : Bytes) → All (λ c. c ≢ 32) w → All IsSolid (fields_from k w s)
unfolding fields_from
IsSolid-fields_from zero w [] h = IsSolid-flush w [] h tt
IsSolid-fields_from (suc k) w [] h = IsSolid-flush w [] h tt
IsSolid-fields_from (suc k) w (c ∷ s) h = IsSolid-fields_from k w s h
IsSolid-fields_from zero w (c ∷ s) h =
    let on : space_width (c ∷ s) ≡ 0 → All IsSolid (fields_from 0 (w ++ c ∷ []) s) = λ e.
      IsSolid-fields_from 0 (w ++ c ∷ []) s
        (All-append (λ b. b ≢ 32) w (c ∷ []) h (no_blank c s e, tt)) in
    let next : All IsSolid (flush w (fields_from (space_width (c ∷ s) - 1) [] s)) =
      IsSolid-flush w _ h (IsSolid-fields_from (space_width (c ∷ s) - 1) [] s tt) in
    elim (Bool-cases (space_width (c ∷ s) == 0)) [
      | inl e ↦ rw e (on (ground arith))
      | inr e ↦ rw e next
    ]

-- The words of a text of letters, digits and spaces are of letters and digits.

is_plain-append_left : (s t : Bytes) → is_plain (s ++ t) ≡ true → is_plain s ≡ true
unfolding is_plain
is_plain-append_left [] t h = refl
is_plain-append_left (c ∷ s) t h = ground (arith, is_plain-append_left s t)

is_plain-append_right : (s t : Bytes) → is_plain (s ++ t) ≡ true → is_plain t ≡ true
unfolding is_plain
is_plain-append_right [] t h = h
is_plain-append_right (c ∷ s) t h = ground (arith, is_plain-append_right s t)

IsAlnum-is_plain : (w : Bytes) → All (λ c. c ≢ 32) w → is_plain w ≡ true → All IsAlnum w
unfolding is_plain
IsAlnum-is_plain [] h p = tt
IsAlnum-is_plain (c ∷ w) h p = (ground arith, IsAlnum-is_plain w h.1 (ground arith))

IsWord-is_plain : (w : Bytes) → IsSolid w → is_plain w ≡ true → IsWord w
IsWord-is_plain [] h p = absurd (h.0 refl)
IsWord-is_plain (c ∷ w) h p = IsAlnum-is_plain (c ∷ w) h.1 p

words_of_plain :
    (ws : List Bytes) → All IsSolid ws → is_plain (join ws (32 ∷ [])) ≡ true → All IsWord ws
unfolding join
words_of_plain [] h p = tt
words_of_plain (w ∷ []) h p = (IsWord-is_plain w h.0 p, tt)
words_of_plain (w ∷ v ∷ ws) h p =
    let rest = 32 ∷ join (v ∷ ws) (32 ∷ []) in
    (
      IsWord-is_plain w h.0 (is_plain-append_left w rest p),
      words_of_plain (v ∷ ws) h.1
          (is_plain-append_right (32 ∷ []) _ (is_plain-append_right w rest p)),
    )

pub IsWord-fields :
    (s : Bytes) → is_plain (join (fields s) (32 ∷ [])) ≡ true → All IsWord (fields s)
unfolding fields
IsWord-fields s p = words_of_plain (fields_from 0 [] s) (IsSolid-fields_from 0 [] s tt) p

-- Words with one space between them are found again.

alnum_width : (c : ℕ) (s : Bytes) → IsAlnum c → space_width (c ∷ s) ≡ 0
unfolding space_width is_ascii_space is_alnum is_lower is_upper is_digit
alnum_width c s h = ground arith

fields-alnum :
    (w : Bytes) (c : ℕ) (s : Bytes)
    → IsAlnum c
    → fields_from 0 w (c ∷ s) ≡ fields_from 0 (w ++ c ∷ []) s
unfolding fields_from
fields-alnum w c s h = rw (alnum_width c s h) refl

fields-append :
    (acc w s : Bytes) → All IsAlnum w → fields_from 0 acc (w ++ s) ≡ fields_from 0 (acc ++ w) s
fields-append acc [] s h = ap (λ a. fields_from 0 a s) (sym (append-nil acc))
fields-append acc (c ∷ w) s (a, h) =
    fields-alnum acc c (w ++ s) a
    ∙ (fields-append (acc ++ c ∷ []) w s h
        ∙ ap (λ r. fields_from 0 r s) (append_assoc acc (c ∷ []) w))

fields-space : (c : ℕ) (w s : Bytes) → fields_from 0 (c ∷ w) (32 ∷ s) ≡ (c ∷ w) ∷ fields_from 0 [] s
unfolding fields_from space_width is_ascii_space flush
fields-space c w s = refl

pub fields-join : (ws : List Bytes) → All IsWord ws → fields (join ws (32 ∷ [])) ≡ ws
unfolding fields join fields_from flush
fields-join [] h = refl
fields-join ([] ∷ ws) h = absurd h.0
fields-join ((c ∷ w) ∷ []) h =
    ap (fields_from 0 []) (sym (append-nil (c ∷ w))) ∙ fields-append [] (c ∷ w) [] h.0
fields-join ((c ∷ w) ∷ v ∷ ws) h =
    fields-append [] (c ∷ w) _ h.0
    ∙ (fields-space c w (join (v ∷ ws) (32 ∷ []))
        ∙ ap (λ r. (c ∷ w) ∷ r) (fields-join (v ∷ ws) h.1))

pub has_control_space-plain : (s : Bytes) → is_plain s ≡ true → has_control_space s ≡ false
unfolding is_plain has_control_space is_alnum is_lower is_upper is_digit
has_control_space-plain [] h = refl
has_control_space-plain (c ∷ s) h = ground (arith, has_control_space-plain s)

-- ===== src/Text/Slug/Runs.antt =====
-- `Slugify` with a dash, and the functions that it calls, on words of letters and digits with one
-- space between them.
use compage_go.Base.{
  ℕ, ◌≡◌, refl, sym, ap, ◌∙◌, Bool, true, false, ◌&&◌, List, [], ◌∷◌, ◌++◌, nat_comparable, Bytes,
  arith, All, append-nil,
}
use compage_go.Base.Members.{contains}
use compage_go.Go.Strings.{join}
use compage_go.Go.Unicode.{
  is_alnum, is_lower, is_upper, is_digit, lower, to_lower, trim_set, trim_set_left, trim_set_right,
  all_inside,
}
use compage_go.Text.Slug.{lower_case, replace_runs, slugify}
use compage_go.Text.Slug.Words.{
  IsAlnum, IsWord, IsWord-IsAlnum, IsWord-lower_words, lower_words, to_lower-join,
}

abbrev dash : Bytes
dash = b'-' ∷ []

-- runs

replace-alnum :
    (inside : Bool) (c : ℕ) (s : Bytes)
    → IsAlnum c
    → replace_runs inside dash (c ∷ s) ≡ c ∷ replace_runs false dash s
unfolding replace_runs
replace-alnum inside c s h = rw h refl

replace-word :
    (w s : Bytes)
    → All IsAlnum w
    → replace_runs false dash (w ++ s) ≡ w ++ replace_runs false dash s
replace-word [] s h = refl
replace-word (c ∷ w) s (a, h) =
    replace-alnum false c (w ++ s) a ∙ ap (λ r. c ∷ r) (replace-word w s h)

space_is_no_alnum : is_alnum 32 ≡ false
unfolding is_alnum is_lower is_upper is_digit
space_is_no_alnum = refl

replace-space : (s : Bytes) → replace_runs false dash (32 ∷ s) ≡ b'-' ∷ replace_runs true dash s
unfolding replace_runs
replace-space s = rw space_is_no_alnum refl

-- behind the dash the next word starts
replace-inside :
    (w : Bytes) (s : Bytes)
    → IsWord w
    → replace_runs true dash (w ++ s) ≡ replace_runs false dash (w ++ s)
replace-inside [] s h = absurd h
replace-inside (c ∷ w) s (a, h) =
    replace-alnum true c (w ++ s) a ∙ sym (replace-alnum false c (w ++ s) a)

replace-inside_join :
    (w : Bytes) (ws : List Bytes)
    → IsWord w
    → replace_runs true dash (join (w ∷ ws) (32 ∷ []))
      ≡ replace_runs false dash (join (w ∷ ws) (32 ∷ []))
unfolding join
replace-inside_join w [] h =
    ap (replace_runs true dash) (sym (append-nil w))
    ∙ (replace-inside w [] h ∙ ap (replace_runs false dash) (append-nil w))
replace-inside_join w (v ∷ ws) h = replace-inside w _ h

replace-join :
    (ws : List Bytes) → All IsWord ws → replace_runs false dash (join ws (32 ∷ [])) ≡ join ws dash
unfolding join replace_runs
replace-join [] h = refl
replace-join (w ∷ []) (a, h) =
    ap (replace_runs false dash) (sym (append-nil w))
    ∙ (replace-word w [] (IsWord-IsAlnum w a) ∙ append-nil w)
replace-join (w ∷ v ∷ ws) (a, h) =
    replace-word w _ (IsWord-IsAlnum w a)
    ∙ ap (λ r. w ++ r)
        (replace-space (join (v ∷ ws) (32 ∷ []))
          ∙ ap (λ r. b'-' ∷ r) (replace-inside_join v ws h.0 ∙ replace-join (v ∷ ws) h))

-- trimming

no_dash : (c : ℕ) → IsAlnum c → contains dash c ≡ false
unfolding is_alnum is_lower is_upper is_digit
no_dash c h = ground arith

-- the last byte is a letter or a digit
abbrev Ends : Bytes → Type 0
Ends [] = ⊥
Ends (c ∷ []) = IsAlnum c
Ends (c ∷ d ∷ s) = Ends (d ∷ s)

Ends-append : (s t : Bytes) → Ends t → Ends (s ++ t)
Ends-append [] t h = h
Ends-append (c ∷ []) [] h = absurd h
Ends-append (c ∷ []) (d ∷ t) h = h
Ends-append (c ∷ d ∷ s) t h = Ends-append (d ∷ s) t h

Ends-word : (c : ℕ) (w : Bytes) → IsWord (c ∷ w) → Ends (c ∷ w)
Ends-word c [] h = h.0
Ends-word c (d ∷ w) h = Ends-word d w h.1

Ends-join : (w : Bytes) (ws : List Bytes) → All IsWord (w ∷ ws) → Ends (join (w ∷ ws) dash)
unfolding join
Ends-join [] ws h = absurd h.0
Ends-join (c ∷ w) [] h = Ends-word c w h.0
Ends-join (c ∷ w) (v ∷ ws) h =
    Ends-append (c ∷ w) _ (Ends-append dash (join (v ∷ ws) dash) (Ends-join v ws h.1))

Ends-all_inside : (c : ℕ) (s : Bytes) → Ends (c ∷ s) → all_inside (contains dash) (c ∷ s) ≡ false
unfolding all_inside
Ends-all_inside c [] h = rw (no_dash c h) refl
Ends-all_inside c (d ∷ s) h = rw (Ends-all_inside d s h) (and_false (contains dash c))
  where
    and_false : (b : Bool) → (b && false) ≡ false
    and_false true = refl
    and_false false = refl

Ends-trim : (s : Bytes) → Ends s → trim_set_right (contains dash) s ≡ s
unfolding trim_set_right
Ends-trim [] h = absurd h
Ends-trim (c ∷ []) h = rw (Ends-all_inside c [] h) refl
Ends-trim (c ∷ d ∷ s) h = rw (Ends-all_inside c (d ∷ s) h) (ap (λ r. c ∷ r) (Ends-trim (d ∷ s) h))

trim_left-word :
    (w : Bytes) (s : Bytes) → IsWord w → trim_set_left (contains dash) (w ++ s) ≡ w ++ s
unfolding trim_set_left
trim_left-word [] s h = absurd h
trim_left-word (c ∷ w) s h = rw (no_dash c h.0) refl

trim_left-join :
    (w : Bytes) (ws : List Bytes)
    → IsWord w
    → trim_set_left (contains dash) (join (w ∷ ws) dash) ≡ join (w ∷ ws) dash
unfolding join
trim_left-join w [] h =
    ap (trim_set_left (contains dash)) (sym (append-nil w)) ∙ (trim_left-word w [] h ∙ append-nil w)
trim_left-join w (v ∷ ws) h = trim_left-word w _ h

trim-join :
    (ws : List Bytes) → All IsWord ws → trim_set (contains dash) (join ws dash) ≡ join ws dash
unfolding trim_set
trim-join [] h = unfold join trim_set_left trim_set_right in refl
trim-join (w ∷ ws) h =
    ap (trim_set_right (contains dash)) (trim_left-join w ws h.0) ∙ Ends-trim _ (Ends-join w ws h)

-- Of words with a space between them, `Slugify` makes the words in lower case with a dash between
-- them.
pub slugify-join :
    (ws : List Bytes)
    → All IsWord ws
    → slugify (join ws (32 ∷ [])) (b'-' ∷ []) (lower_case ∷ []) ≡ join (lower_words ws) (b'-' ∷ [])
unfolding slugify to_lower lower is_upper
slugify-join ws h =
    ap (λ s. trim_set (contains dash) (replace_runs false dash s)) (to_lower-join 32 ws refl refl h)
    ∙ (ap (trim_set (contains dash)) (replace-join (lower_words ws) (IsWord-lower_words ws h))
        ∙ trim-join (lower_words ws) (IsWord-lower_words ws h))

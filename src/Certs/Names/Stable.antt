-- ===== src/Certs/Names/Stable.antt =====
-- Names that `normalizeDisplayName` returns.
use compage_go.Base.{
  ◌≡◌, refl, sym, ap, ◌∙◌, true, false, List, [], ◌∷◌, ◌==◌, nat_comparable, list_comparable, Bytes,
  lit, arith, All, if◌then◌else◌, ◌++◌,
}
use compage_go.Go.Strings.{join}
use compage_go.Go.Unicode.{
  fields, to_lower, to_lower_from, lower, is_alnum, is_lower, is_upper, is_digit,
}
use compage_go.Text.Slug.{slugify, lower_case}
use compage_go.Text.Slug.Words.{IsWord, IsAlnum, to_lower-join}
use compage_go.Text.Slug.Runs.{slugify-join}
use compage_go.Certs.Errors.{ok, refuse-eq-ok}
use compage_go.Certs.Names.{is_plain, normalize_display_name, dashes, slug}
use compage_go.Certs.Names.Words.{IsWord-fields, fields-join, has_control_space-plain}

-- What a normalized name is: the words of the given one with a space between them.
normalize_display_name-parts :
    (given name : Bytes)
    → normalize_display_name given ≡ ok name
    → (name ≡ join (fields given) (32 ∷ []))
      × All IsWord (fields given)
      × (is_plain name ≡ true)
      × ((name == []) ≡ false)
      × ((slugify name (lit "-") (lower_case ∷ []) == []) ≡ false)
unfolding normalize_display_name lit
normalize_display_name-parts given name h =
    let s0 = refuse-eq-ok _ _ _ h in
    let s1 = refuse-eq-ok _ _ _ s0.1 in
    let s2 = refuse-eq-ok _ _ _ s1.1 in
    let s3 = refuse-eq-ok _ _ _ s2.1 in
    let e : join (fields given) (32 ∷ []) ≡ name = ground arith in
    let plain : is_plain (join (fields given) (32 ∷ [])) ≡ true = ground arith in
    (sym e, IsWord-fields given plain, rw (← e) plain, rw (← e) s1.0, rw (← e) s3.0)

-- A name that normalizeDisplayName returns is normal: a second call returns it as it is.
pub normalize_display_name_twice :
    (given name : Bytes)
    → normalize_display_name given ≡ ok name
    → normalize_display_name name ≡ ok name
unfolding normalize_display_name lit
normalize_display_name_twice given name h =
    let p = normalize_display_name-parts given name h in
    let e : join (fields name) (32 ∷ []) ≡ name =
      ap (λ n. join (fields n) (32 ∷ [])) p.0
      ∙ (ap (λ ws. join ws (32 ∷ [])) (fields-join (fields given) p.1) ∙ sym p.0) in
    rw (has_control_space-plain name p.2, e, p.3, p.2, p.4) refl

dashes-append : (s t : Bytes) → dashes (s ++ t) ≡ dashes s ++ dashes t
unfolding dashes
dashes-append [] t = refl
dashes-append (c ∷ s) t = ap (λ r. (if c == 32 then b'-' else c) ∷ r) (dashes-append s t)

dashes-word : (w : Bytes) → All IsAlnum w → dashes w ≡ w
unfolding dashes is_alnum is_lower is_upper is_digit
dashes-word [] h = refl
dashes-word (c ∷ w) h = ground (arith, dashes-word w h.1)

dashes-join : (ws : List Bytes) → All IsWord ws → dashes (join ws (32 ∷ [])) ≡ join ws (b'-' ∷ [])
unfolding dashes join
dashes-join [] h = refl
dashes-join ([] ∷ ws) h = absurd h.0
dashes-join ((c ∷ w) ∷ []) h = dashes-word (c ∷ w) h.0
dashes-join ((c ∷ w) ∷ v ∷ ws) h =
    dashes-append (c ∷ w) (32 ∷ join (v ∷ ws) (32 ∷ []))
    ∙ (ap (λ r. r ++ (b'-' ∷ dashes (join (v ∷ ws) (32 ∷ [])))) (dashes-word (c ∷ w) h.0)
        ∙ ap (λ r. (c ∷ w) ++ (b'-' ∷ r)) (dashes-join (v ∷ ws) h.1))

-- For a name that normalizeDisplayName returns, the storage identifier that slug makes is the one
-- that Slugify makes with a dash in lower case.
pub slug-slugify :
    (given name : Bytes)
    → normalize_display_name given ≡ ok name
    → slug name ≡ slugify name (lit "-") (lower_case ∷ [])
unfolding slug to_lower lit lower is_upper
slug-slugify given name h =
    let p = normalize_display_name-parts given name h in
    ap (λ n. to_lower_from 0 (dashes n)) p.0
    ∙ (ap (to_lower_from 0) (dashes-join (fields given) p.1)
        ∙ (to_lower-join b'-' (fields given) refl refl p.1
            ∙ (sym (slugify-join (fields given) p.1)
                ∙ ap (λ n. slugify n (b'-' ∷ []) (lower_case ∷ [])) (sym p.0))))

-- ===== src/Service/Directories/Parts.antt =====
-- `splitAbsolute` of a clean absolute path: the renderings of the beginnings of its components.
use compage_go.Base.{
  ◌≡◌, ◌≢◌, refl, sym, ap, ◌∙◌, true, false, List, [], ◌∷◌, ◌++◌, append_assoc, append-nil, ◌==◌,
  nat_comparable, list_comparable, list_same_iff, Bytes, arith, All, All-append, subst,
}
use compage_go.Go.Strings.{split, join}
use compage_go.Go.Strings.Split.{Lacks, split-join, split-cons_sep, split-Lacks}
use compage_go.Go.Path.{slash, is_abs, clean, join_two, show_path}
use compage_go.Go.Path.Absolute.{IsProper, render, join_two-render, clean-render, clean-IsProper}
use compage_go.Service.Directories.{is_nil, prefixes, split_absolute}
use compage_go.Service.Directories.Others.{NotLast}

-- The paths that `cs` leads through, behind the components `done`.
abbrev pub through : List Bytes → List Bytes → List Bytes
through done [] = []
through done (c ∷ cs) = render (done ++ c ∷ []) ∷ through (done ++ c ∷ []) cs

join_two-IsProper :
    (done : List Bytes) (c : Bytes)
    → All IsProper done
    → IsProper c
    → join_two (render done) c ≡ render (done ++ c ∷ [])
join_two-IsProper done c h p =
    let e = split-Lacks slash c p.0 in
    join_two-render done h c p.1 (subst (All IsProper) (sym e) (p, tt))
    ∙ ap (λ t. render (done ++ t)) e

prefixes-IsProper :
    (done cs : List Bytes)
    → All IsProper done
    → All IsProper cs
    → prefixes (render done) cs ≡ through done cs
unfolding prefixes
prefixes-IsProper done [] h k = refl
prefixes-IsProper done (c ∷ cs) h (p, k) =
    let step = join_two-IsProper done c h p in
    let rest =
      prefixes-IsProper (done ++ c ∷ []) cs (All-append IsProper done (c ∷ []) h (p, tt)) k in
    let kept : (c == []) ≡ false = not_same c p.1 in
    rw (kept, step) (ap (λ r. render (done ++ c ∷ []) ∷ r) rest)
  where
    not_same : (c : Bytes) → c ≢ [] → (c == []) ≡ false
    not_same c h = ground (arith, list_same_iff c [])

All-Lacks : (cs : List Bytes) → All IsProper cs → All (Lacks slash) cs
All-Lacks [] h = tt
All-Lacks (c ∷ cs) (p, h) = (p.0, All-Lacks cs h)

prefixes-skip :
    (current : Bytes) (parts : List Bytes) → prefixes current ([] ∷ parts) ≡ prefixes current parts
unfolding prefixes
prefixes-skip current parts = refl

prefixes-split :
    (cs : List Bytes)
    → All IsProper cs
    → prefixes (slash ∷ []) (split slash (render cs)) ≡ through [] cs
unfolding show_path join
prefixes-split [] h = unfold prefixes split in refl
prefixes-split (c ∷ cs) h =
    let s =
      split-cons_sep slash (join (c ∷ cs) (slash ∷ []))
      ∙ ap (λ r. [] ∷ r) (split-join slash c cs (All-Lacks (c ∷ cs) h)) in
    ap (prefixes (slash ∷ [])) s
    ∙ prefixes-skip (slash ∷ []) (c ∷ cs)
    ∙ prefixes-IsProper [] (c ∷ cs) tt h

split_absolute-render :
    (cs : List Bytes) → All IsProper cs → split_absolute (render cs) ≡ through [] cs
unfolding split_absolute
split_absolute-render cs h = rw (clean-render cs h) (prefixes-split cs h)

through-NotLast :
    (q : Bytes) (done cs : List Bytes)
    → (render (done ++ cs) == q) ≡ false
    → NotLast q (through done cs)
through-NotLast q done [] h = tt
through-NotLast q done (c ∷ cs) h =
    let again : (render ((done ++ c ∷ []) ++ cs) == q) ≡ false =
      rw (append_assoc done (c ∷ []) cs) h in
    (end cs again, through-NotLast q (done ++ c ∷ []) cs again)
  where
    end :
        (cs : List Bytes)
        → (render ((done ++ c ∷ []) ++ cs) == q) ≡ false
        → is_nil (through (done ++ c ∷ []) cs) ≡ true
        → (render (done ++ c ∷ []) == q) ≡ false
    end [] h e = subst (λ t. (render t == q) ≡ false) (append-nil (done ++ c ∷ [])) h
    end (d ∷ cs) h e = cc

through-last :
    (P : Bytes → Type 0) (done cs : List Bytes)
    → cs ≢ []
    → All P (through done cs)
    → P (render (done ++ cs))
through-last P done [] ne h = absurd (ne refl)
through-last P done (c ∷ []) ne h = h.0
through-last P done (c ∷ d ∷ cs) ne h =
    subst (λ t. P (render t)) (append_assoc done (c ∷ []) (d ∷ cs))
      (through-last P (done ++ c ∷ []) (d ∷ cs) (λ x. cc) h.1)

module _ (path : Bytes) (rooted : is_abs path ≡ true) (tidy : clean path ≡ path) where
  -- No other path is the last of the components of a clean absolute path.
  pub NotLast-split_absolute : (q : Bytes) → (path == q) ≡ false → NotLast q (split_absolute path)
  NotLast-split_absolute q h =
      let (cs, proper, shown) = clean-IsProper path rooted in
      let e : path ≡ render cs = sym tidy ∙ shown in
      rw (e, split_absolute-render cs proper)
        (through-NotLast q [] cs (subst (λ p. (p == q) ≡ false) e h))

  -- What holds of all components of a clean absolute path, the root aside, holds of the path.
  pub All-split_absolute :
      (P : Bytes → Type 0) → path ≢ slash ∷ [] → All P (split_absolute path) → P path
  unfolding show_path join
  All-split_absolute P ne h =
      let (cs, proper, shown) = clean-IsProper path rooted in
      let e : path ≡ render cs = sym tidy ∙ shown in
      let parts = ap split_absolute e ∙ split_absolute-render cs proper in
      subst P (sym e) (through-last P [] cs (λ z. ne (e ∙ ap render z)) (subst (All P) parts h))

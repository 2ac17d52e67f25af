-- ===== src/Go/Path/Absolute.antt =====
-- Clean absolute paths are those that `render` gives for proper components, and on them `Clean`,
-- `Join` and `Split` work on the components.
use compage_go.Base.{
  ℕ, ◌≡◌, ◌≢◌, refl, sym, ap, ◌∙◌, Bool, true, List, [], ◌∷◌, ◌++◌, append_assoc, append-nil, ◌==◌,
  nat_comparable, list_comparable, list_same_iff, Bytes, arith, All, All-append, subst, Bool-cases,
  inl, inr, ◌||◌,
}
use mathlib.Core.List.{reverse, reverse-cons, reverse_aux}
use compage_go.Go.Strings.{split, join}
use compage_go.Go.Strings.Split.{Lacks, split-join, split-append, split-cons_sep, All-split}
use compage_go.Go.Path.{
  slash, dot, dot_dot, is_abs, take_back, add_component, components, show_path, clean, join_two,
}

-- A component that `Clean` keeps.
abbrev pub IsProper : Bytes → Type 0
IsProper c = Lacks slash c × (c ≢ []) × (c ≢ dot) × (c ≢ dot_dot)

abbrev pub render : List Bytes → Bytes
render cs = show_path true cs

add_component-IsProper :
    (rooted : Bool) (done : List Bytes) (c : Bytes)
    → IsProper c
    → add_component rooted done c ≡ c ∷ done
unfolding add_component
add_component-IsProper rooted done c (h, e, d, dd) =
    ground (arith, list_same_iff c [], list_same_iff c dot, list_same_iff c dot_dot)

components-append :
    (rooted : Bool) (done cs ds : List Bytes)
    → components rooted done (cs ++ ds) ≡ components rooted (components rooted done cs) ds
unfolding components
components-append rooted done [] ds = refl
components-append rooted done (c ∷ cs) ds =
    components-append rooted (add_component rooted done c) cs ds

-- Proper components are all kept, in their order.
pub components-IsProper :
    (rooted : Bool) (done cs : List Bytes)
    → All IsProper cs
    → reverse (components rooted done cs) ≡ reverse done ++ cs
unfolding components
components-IsProper rooted done [] h = sym (append-nil _)
components-IsProper rooted done (c ∷ cs) (hc, hcs) =
    ap (λ d. reverse (components rooted d cs)) (add_component-IsProper rooted done c hc)
    ∙ components-IsProper rooted (c ∷ done) cs hcs
    ∙ rw (reverse-cons, append_assoc)

All-Lacks : (cs : List Bytes) → All IsProper cs → All (Lacks slash) cs
All-Lacks [] h = tt
All-Lacks (c ∷ cs) (hc, hcs) = (hc.0, All-Lacks cs hcs)

-- The components of a path that goes on behind proper ones.
split-join-append :
    (c : Bytes) (cs : List Bytes) (v : Bytes)
    → All (Lacks slash) (c ∷ cs)
    → split slash (join (c ∷ cs) (slash ∷ []) ++ slash ∷ v) ≡ (c ∷ cs) ++ split slash v
unfolding join
split-join-append c [] v h = split-append slash c v h.0
split-join-append c (d ∷ cs) v h =
    ap (λ t. split slash t) (append_assoc c _ _)
    ∙ split-append slash c _ h.0
    ∙ ap (λ r. c ∷ r) (split-join-append d cs v h.1)

clean_abs : (p : Bytes) → clean (slash ∷ p) ≡ render (reverse (components true [] (split slash p)))
unfolding clean
clean_abs p = rw split-cons_sep

components-join :
    (cs : List Bytes) (v : Bytes)
    → All (Lacks slash) cs
    → components true [] (split slash (join cs (slash ∷ []) ++ slash ∷ v))
      ≡ components true [] (cs ++ split slash v)
unfolding split components join
components-join [] v h = ap (components true []) (split-cons_sep slash v)
components-join (c ∷ cs) v h = ap (components true []) (split-join-append c cs v h)

join_two_abs :
    (cs : List Bytes) (d : ℕ) (v : Bytes)
    → join_two (render cs) (d ∷ v)
      ≡ render (reverse (components true [] (split slash (join cs (slash ∷ []) ++ slash ∷ d ∷ v))))
unfolding join_two show_path
join_two_abs cs d v = clean_abs (join cs (slash ∷ []) ++ slash ∷ d ∷ v)

module _ (cs : List Bytes) (proper : All IsProper cs) where
  -- `Join` of a clean absolute path and a relative one whose components are proper.
  pub join_two-render :
      (v : Bytes)
      → v ≢ []
      → All IsProper (split slash v)
      → join_two (render cs) v ≡ render (cs ++ split slash v)
  join_two-render [] ne h = absurd (ne refl)
  join_two-render (d ∷ v) ne h =
      join_two_abs cs d v
      ∙ ap (λ r. render (reverse r)) (components-join cs (d ∷ v) (All-Lacks cs proper))
      ∙ ap render (components-IsProper true [] _ (All-append IsProper cs _ proper h))

  -- `Clean` changes nothing of a clean absolute path.
  pub clean-render : clean (render cs) ≡ render cs
  clean-render =
      clean_show cs
      ∙ ap (λ r. render (reverse r)) (components-split cs (All-Lacks cs proper))
      ∙ ap render (components-IsProper true [] cs proper)
    where
      clean_show :
          (ds : List Bytes)
          → clean (render ds)
            ≡ render (reverse (components true [] (split slash (join ds (slash ∷ [])))))
      clean_show ds = unfold show_path in clean_abs _

      components-split :
          (ds : List Bytes)
          → All (Lacks slash) ds
          → components true [] (split slash (join ds (slash ∷ []))) ≡ components true [] ds
      components-split [] h = unfold components add_component split join in refl
      components-split (d ∷ ds) h = ap (components true []) (split-join slash d ds h)

take_back-All : (done : List Bytes) → All IsProper done → All IsProper (take_back true done)
unfolding take_back
take_back-All [] k = tt
take_back-All (t ∷ rest) (proper, k) =
    let e : take_back true (t ∷ rest) ≡ rest = ground (arith, list_same_iff t dot_dot) in
    subst (All IsProper) (sym e) k

add_component-All :
    (c : Bytes) (done : List Bytes)
    → Lacks slash c
    → All IsProper done
    → All IsProper (add_component true done c)
unfolding add_component
add_component-All c done h k = elim (Bool-cases (c == [] || c == dot)) [
  | inl skip ↦
      let e : add_component true done c ≡ done = ground arith in subst (All IsProper) (sym e) k
  | inr other ↦ elim (Bool-cases (c == dot_dot)) [
    | inl back ↦
        let e : add_component true done c ≡ take_back true done = ground arith in
        subst (All IsProper) (sym e) (take_back-All done k)
    | inr keep ↦
        let e : add_component true done c ≡ c ∷ done = ground arith in
        subst (All IsProper) (sym e) (
          (
            h,
            λ x. ground (arith, list_same_iff c []),
            λ x. ground (arith, list_same_iff c dot),
            λ x. ground (arith, list_same_iff c dot_dot),
          ),
          k,
        )
  ]
]

-- The components so far stay proper.
components-All :
    (cs done : List Bytes)
    → All (Lacks slash) cs
    → All IsProper done
    → All IsProper (components true done cs)
unfolding components
components-All [] done h k = k
components-All (c ∷ cs) done (hc, hcs) k =
    components-All cs (add_component true done c) hcs (add_component-All c done hc k)

All-reverse :
    (cs ds : List Bytes) → All IsProper cs → All IsProper ds → All IsProper (reverse_aux cs ds)
All-reverse [] ds h k = k
All-reverse (c ∷ cs) ds (hc, hcs) k = All-reverse cs (c ∷ ds) hcs (hc, k)

-- Every absolute path is cleaned to a rendering of proper components.
pub clean-IsProper :
    (p : Bytes) → is_abs p ≡ true → (cs : List Bytes) × All IsProper cs × (clean p ≡ render cs)
unfolding is_abs
clean-IsProper [] h = cc
clean-IsProper (c ∷ p) h =
    let kept = components true [] (split slash p) in
    let e : c ≡ slash = ground arith in
    (
      reverse kept,
      All-reverse kept [] (components-All (split slash p) [] (All-split slash p) tt) tt,
      subst (λ x. clean (x ∷ p) ≡ render (reverse kept)) (sym e) (clean_abs p),
    )

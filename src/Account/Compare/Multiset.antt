-- ===== src/Account/Compare/Multiset.antt =====
-- `sameStrings` of account/operation.go, and how often a name occurs.
use compage_go.Base.{
  ℕ, ◌+◌, ◌≡◌, ◌≢◌, inl, inr, refl, sym, ap, ◌∙◌, true, List, [], ◌∷◌, ◌==◌, nat_comparable,
  list_comparable, list_same_iff, Bytes, arith, All, Bool-cases, if◌then◌else◌,
}
use compage_go.Go.Strings.{split, join}
use compage_go.Go.Strings.Split.{Lacks, split-join}
use compage_go.Account.Compare.{bytes_leb, insert_string, sort_strings, same_strings}

-- 1 if the names are the same
abbrev pub hit : Bytes → Bytes → ℕ
hit x y = if x == y then 1 else 0

-- How often does a name occur in a list?
abbrev pub count : Bytes → List Bytes → ℕ
count x [] = 0
count x (y ∷ ys) = hit x y + count x ys

count-insert_string :
    (x y : Bytes) (ys : List Bytes) → count x (insert_string y ys) ≡ hit x y + count x ys
unfolding insert_string
count-insert_string x y [] = refl
count-insert_string x y (z ∷ zs) = elim (Bool-cases (bytes_leb y z)) [
  | inl e ↦ rw e refl
  | inr e ↦ rw e (ground (arith, count-insert_string x y zs))
]

count-sort_strings : (x : Bytes) (ys : List Bytes) → count x (sort_strings ys) ≡ count x ys
unfolding sort_strings
count-sort_strings x [] = refl
count-sort_strings x (y ∷ ys) =
    count-insert_string x y (sort_strings ys) ∙ ap (λ n. hit x y + n) (count-sort_strings x ys)

-- no name of the list has the byte that separates them
All-insert_string :
    (P : Bytes → Type 0) (y : Bytes) (ys : List Bytes) → P y → All P ys → All P (insert_string y ys)
unfolding insert_string
All-insert_string P y [] p h = (p, tt)
All-insert_string P y (z ∷ zs) p (q, h) = elim (Bool-cases (bytes_leb y z)) [
  | inl e ↦ rw e (p, (q, h))
  | inr e ↦ rw e (q, All-insert_string P y zs p h)
]

All-sort_strings : (P : Bytes → Type 0) (ys : List Bytes) → All P ys → All P (sort_strings ys)
unfolding sort_strings
All-sort_strings P [] h = tt
All-sort_strings P (y ∷ ys) (p, h) =
    All-insert_string P y (sort_strings ys) p (All-sort_strings P ys h)

-- Without the separator in them, lists that are not empty can be told from what `join` makes.
join-inj :
    (xs ys : List Bytes)
    → xs ≢ []
    → ys ≢ []
    → All (Lacks 0) xs
    → All (Lacks 0) ys
    → join xs (0 ∷ []) ≡ join ys (0 ∷ [])
    → xs ≡ ys
join-inj [] ys n m h k e = absurd (n refl)
join-inj (x ∷ xs) [] n m h k e = absurd (m refl)
join-inj (x ∷ xs) (y ∷ ys) n m h k e =
    sym (split-join 0 x xs h) ∙ ap (split 0) e ∙ split-join 0 y ys k

insert_string-ne-nil : (y : Bytes) (zs : List Bytes) → insert_string y zs ≢ []
unfolding insert_string
insert_string-ne-nil y [] h = cc
insert_string-ne-nil y (z ∷ zs) h = ground arith

sort_strings-ne-nil : (y : Bytes) (ys : List Bytes) → sort_strings (y ∷ ys) ≢ []
unfolding sort_strings
sort_strings-ne-nil y ys = insert_string-ne-nil y (sort_strings ys)

-- If `sameStrings` is true of two lists that are not empty, and no name has the NUL character in it,
-- then every name occurs equally often in both.
pub same_strings-count :
    (a : Bytes) (as_ : List Bytes) (b : Bytes) (bs : List Bytes)
    → All (Lacks 0) (a ∷ as_)
    → All (Lacks 0) (b ∷ bs)
    → same_strings (a ∷ as_) (b ∷ bs) ≡ true
    → (x : Bytes) → count x (a ∷ as_) ≡ count x (b ∷ bs)
unfolding same_strings
same_strings-count a as_ b bs h k e x =
    let xs = a ∷ as_ in
    let ys = b ∷ bs in
    let same =
      join-inj (sort_strings xs) (sort_strings ys) (sort_strings-ne-nil a as_)
        (sort_strings-ne-nil b bs) (All-sort_strings (Lacks 0) xs h)
        (All-sort_strings (Lacks 0) ys k)
        ((list_same_iff (join (sort_strings xs) (0 ∷ [])) (join (sort_strings ys) (0 ∷ []))).0 e) in
    sym (count-sort_strings x xs) ∙ ap (count x) same ∙ count-sort_strings x ys

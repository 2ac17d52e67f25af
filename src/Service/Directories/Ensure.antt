-- ===== src/Service/Directories/Ensure.antt =====
-- `ensureManagedDirectory` of service/directories.go, and real directories.
use compage_go.Base.{
  ℕ, ◌≡◌, inl, inr, ap, ◌∙◌, Bool, true, false, not, some, List, [], ◌∷◌, ◌==◌, nat_comparable,
  list_comparable, list_same_iff, Bytes, arith, All, Bool-cases,
}
use compage_go.Go.Strconv.{ℤ}
use compage_go.Service.Errors.{Failure, is_not_exist, Result, ok, err, Result-cases}
use compage_go.Service.Files.{Entry, Fs, directory, info_of, M, lift}
use compage_go.Service.Files.Rules.{bind_rule, wrap_bind_rule, wrap_rule, if_rule}
use compage_go.Service.Calls.{lstat, mkdir, chown, chmod}
use compage_go.Service.Calls.Frame.{
  IsRealDir, node-lstat, lstat-eq-ok, mkdir_keeps, mkdir-IsRealDir, KeepsDirs, KeepsDirs-refl,
  KeepsDirs-trans, KeepsDirs-node, chown-WritesDir, chmod-WritesDir, WritesDir-KeepsDirs,
  WritesDir-other,
}
use compage_go.Service.Directories.{
  create_part, own_part, ensure_part, is_nil, is_real_dir, ensure_parts, traversable_directory,
  split_absolute, ensure_managed_directory,
}

-- The entries of `fs` are those of `fs'` too, but for `p`.
abbrev pub KeepsOthers : Bytes → Fs → Fs → Type 0
KeepsOthers p fs fs' = (q : Bytes) → (p == q) ≡ false → fs'.node q ≡ fs.node q

module _ (part : Bytes) (uid gid : ℤ) (mode : ℕ) (fs : Fs) (d : IsRealDir fs part) where
  -- Owning a real directory touches only that directory, and leaves it one.
  pub record Owns (r : Result (Unit {0}) × Fs) : Type 0 where
    pub dirs : KeepsDirs fs r.1
    pub others : KeepsOthers part fs r.1

  pub own_part-Owns : Owns (own_part part uid gid mode fs)
  unfolding own_part
  own_part-Owns =
      let w = chown-WritesDir part fs d uid gid in
      let s = (chown part uid gid fs).1 in
      let dirs = WritesDir-KeepsDirs part fs _ (chown part uid gid fs) w d.2 in
      let others = WritesDir-other part fs _ (chown part uid gid fs) w in
      wrap_bind_rule Owns _ (chown part uid gid) _ fs
        (λ u done.
          let d' = dirs.at part d in
          let w' = chmod-WritesDir part s d' mode in
          let dirs' = WritesDir-KeepsDirs part s _ (chmod part mode s) w' d'.2 in
          let others' = WritesDir-other part s _ (chmod part mode s) w' in
          let both : Owns (ok tt, (chmod part mode s).1) = record {
            dirs = KeepsDirs-trans fs s (chmod part mode s).1 dirs dirs';
            others = λ q ne. others' q ne ∙ others q ne;
          } in
          wrap_rule Owns _ (chmod part mode) s
            (λ _ e. record { dirs = both.dirs; others = both.others })
            (λ f e. record { dirs = both.dirs; others = both.others }))
        (λ f e. record { dirs = dirs; others = others })

-- Creating a component keeps every entry that was there, and makes a real directory.
pub record Creates (part : Bytes) (fs : Fs) (r : Result (Unit {0}) × Fs) : Type 0 where
  pub kept : (q : Bytes) (e : Entry) → fs.node q ≡ some e → r.1.node q ≡ some e
  pub made : r.0 ≡ ok tt → IsRealDir r.1 part

pub create_part-Creates :
    (part : Bytes) (uid gid : ℤ) (mode : ℕ) (fs : Fs)
    → Creates part fs (create_part part uid gid mode fs)
unfolding create_part
create_part-Creates part uid gid mode fs =
    wrap_bind_rule (Creates part fs) _ (mkdir part mode) _ fs
      (λ u done.
        let s = (mkdir part mode fs).1 in
        let (real, fresh) = mkdir-IsRealDir part fs mode done in
        let owns = own_part-Owns part uid gid mode s real in
        record {
          kept = λ q e found.
              owns.others q (elim (Bool-cases (part == q)) [
                | inl same ↦ cc (fresh, found, ap fs.node ((list_same_iff part q).0 same))
                | inr apart ↦ apart
              ])
              ∙ mkdir_keeps part fs mode q e found;
          made = λ e. owns.dirs.at part real;
        })
      (λ f e. record { kept = λ q e found. mkdir_keeps part fs mode q e found; made = λ x. cc })

-- The loop from `fs`: real directories stay, and if it succeeds, every component is one.
record Ensures (parts : List Bytes) (fs : Fs) (r : Result Bool × Fs) : Type 0 where
  dirs : KeepsDirs fs r.1
  all : (b : Bool) → r.0 ≡ ok b → All (IsRealDir r.1) parts

-- Before the loop comes a state in which real directories stay, and the first component is one.
Ensures-cons :
    (part : Bytes) (rest : List Bytes) (fs s : Fs) (r : Result Bool × Fs)
    → KeepsDirs fs s
    → IsRealDir s part
    → Ensures rest s r
    → Ensures (part ∷ rest) fs r
Ensures-cons part rest fs s r k d e = record {
  dirs = KeepsDirs-trans fs s r.1 k e.dirs;
  all = λ b h. (e.dirs.at part d, e.all b h);
}

Ensures-err :
    (parts : List Bytes) (fs s : Fs) (f : Failure) → KeepsDirs fs s → Ensures parts fs (err f, s)
Ensures-err parts fs s f k = record { dirs = k; all = λ b h. cc }

Ensures-nil : (rest : List Bytes) (s : Fs) → is_nil rest ≡ true → Ensures rest s (ok true, s)
Ensures-nil [] s h = record { dirs = KeepsDirs-refl s; all = λ b e. tt }
Ensures-nil (x ∷ rest) s h = cc

Ensures-start :
    (parts : List Bytes) (fs s : Fs) (r : Result Bool × Fs)
    → KeepsDirs fs s
    → Ensures parts s r
    → Ensures parts fs r
Ensures-start parts fs s r k e = record { dirs = KeepsDirs-trans fs s r.1 k e.dirs; all = e.all }

-- What `isRealDir` accepts is a directory.
pub is_real_dir_lem :
    (e : Entry) → not (is_real_dir (some (info_of e))) ≡ false → e.type ≡ directory
is_real_dir_lem e h = ground arith

module _ (part : Bytes) (rest : List Bytes) (uid gid : ℤ) (mode : ℕ) (next : M Bool)
    (onward : (s : Fs) → Ensures rest s (next s)) (fs : Fs) where
  ensure_part-err :
      (f : Failure)
      → Ensures (part ∷ rest) fs (ensure_part part uid gid mode (is_nil rest) next (err f) fs)
  unfolding ensure_part
  ensure_part-err f =
      if_rule (Ensures (part ∷ rest) fs) (is_not_exist f) _ _ fs
        (λ _.
          let c = create_part-Creates part uid gid mode fs in
          let s = (create_part part uid gid mode fs).1 in
          let dirs : KeepsDirs fs s = record { at = λ q (e, found, d). (e, c.kept q e found, d) } in
          bind_rule (Ensures (part ∷ rest) fs) (create_part part uid gid mode) _ fs
            (λ u done.
              if_rule (Ensures (part ∷ rest) fs) (is_nil rest) _ _ s
                (λ last. Ensures-cons part rest fs s _ dirs (c.made done) (Ensures-nil rest s last))
                (λ more. Ensures-cons part rest fs s _ dirs (c.made done) (onward s)))
            (λ e stop. Ensures-err (part ∷ rest) fs s e dirs))
        (λ _. Ensures-err (part ∷ rest) fs fs _ (KeepsDirs-refl fs))

  ensure_part-ok :
      (e : Entry)
      → fs.node part ≡ some e
      → Ensures
          (part ∷ rest)
          fs
          (ensure_part part uid gid mode (is_nil rest) next (ok (some (info_of e))) fs)
  unfolding ensure_part
  ensure_part-ok e found =
      let same = KeepsDirs-refl fs in
      if_rule (Ensures (part ∷ rest) fs) (not (is_real_dir (some (info_of e)))) _ _ fs
        (λ _. Ensures-err (part ∷ rest) fs fs _ same)
        (λ real.
          let d : IsRealDir fs part = (e, found, is_real_dir_lem e real) in
          if_rule (Ensures (part ∷ rest) fs) (is_nil rest) _ _ fs
            (λ last.
              let o = own_part-Owns part uid gid mode fs d in
              let s = (own_part part uid gid mode fs).1 in
              bind_rule (Ensures (part ∷ rest) fs) (own_part part uid gid mode) _ fs
                (λ u done. Ensures-cons part rest fs s _ o.dirs (o.dirs.at part d) (onward s))
                (λ f stop. Ensures-err (part ∷ rest) fs s f o.dirs))
            (λ more.
              wrap_bind_rule (Ensures (part ∷ rest) fs) _
                (lift (traversable_directory (some (info_of e)) uid gid)) _ fs
                (λ u done. Ensures-cons part rest fs fs _ same d (onward fs))
                (λ f stop. Ensures-err (part ∷ rest) fs fs _ same)))

module _ (uid gid : ℤ) (mode : ℕ) where
  ensure_parts-Ensures :
      (parts : List Bytes) (fs : Fs) → Ensures parts fs (ensure_parts uid gid mode parts fs)
  unfolding ensure_parts
  ensure_parts-Ensures [] fs = record { dirs = KeepsDirs-refl fs; all = λ b e. tt }
  ensure_parts-Ensures (part ∷ rest) fs =
      let s = (lstat part fs).1 in
      let next = ensure_parts uid gid mode rest in
      let same = node-lstat part fs in
      let onward = ensure_parts-Ensures rest in
      let start = KeepsDirs-node fs s same in
      elim (Result-cases (lstat part fs).0) [
        | inr (f, e) ↦ rw e (
            Ensures-start (part ∷ rest) fs s _ start
              (ensure_part-err part rest uid gid mode next onward s f))
        | inl (i, e) ↦
            let (x, found, shown) = lstat-eq-ok part fs i e in
            rw (e, shown)
              (Ensures-start (part ∷ rest) fs s _ start (
                ensure_part-ok part rest uid gid mode next onward s x
                  (ap (λ n. n part) same ∙ found)))
      ]

module _ (path : Bytes) (uid gid : ℤ) (mode : ℕ) (fs : Fs) where
  -- After `ensureManagedDirectory` succeeds, every component of the path, the directory itself
  -- included, is a directory that is no symbolic link.
  pub ensure_managed_directory-IsRealDir :
      (b : Bool)
      → (ensure_managed_directory path uid gid mode fs).0 ≡ ok b
      → All (IsRealDir (ensure_managed_directory path uid gid mode fs).1) (split_absolute path)
  unfolding ensure_managed_directory
  ensure_managed_directory-IsRealDir =
      (ensure_parts-Ensures uid gid mode (split_absolute path) fs).all

  -- Whatever the outcome, no real directory stops being one.
  pub ensure_managed_directory-KeepsDirs :
      KeepsDirs fs (ensure_managed_directory path uid gid mode fs).1
  unfolding ensure_managed_directory
  ensure_managed_directory-KeepsDirs =
      (ensure_parts-Ensures uid gid mode (split_absolute path) fs).dirs

-- ===== src/Service/Logs/Kept.antt =====
-- `ensureManagedLog` of service/directories.go, and directories.
use compage_go.Base.{
  ℕ, ◌≡◌, inl, inr, refl, sym, ap, ◌∙◌, Bool, true, false, Option, none, some, [], ◌++◌, ◌==◌,
  nat_comparable, list_comparable, list_same_iff, same_refl, Bytes, lit, arith, Bool-cases,
  Option-cases, if◌then◌else◌,
}
use compage_go.Go.Path.{dir}
use compage_go.Go.Strconv.{ℤ}
use compage_go.Service.Errors.{
  IoError, io, not_exist, other, Failure, Result, ok, err, Result-cases,
}
use compage_go.Service.Files.{
  Entry, Fs, FileType, directory, regular, info_of, M, is_dir, lift, pure, refusable,
  refusable_rule, wrap, ◌>>◌,
}
use compage_go.Service.Files.Rules.{bind_rule, wrap_bind_rule, wrap_rule, if_rule}
use compage_go.Service.Calls.{
  lstat, resolve, at_target, chown, chmod, write, in_directory, replace, put, new_owner, max_links,
}
use compage_go.Service.Calls.Frame.{
  node-lstat, lstat-eq-ok, WritesDir, WritesDir-other, WritesDir-self,
}
use compage_go.Service.Logs.{log_found, ensure_managed_log}

at_target_rule :
    {A : Type 0} (P : Result A × Fs → Type 0) (p : Bytes) (act : Bytes → Entry → M A) (fs : Fs)
    → ((e : IoError) → P (err (io e), fs))
    → ((q : Bytes) (x : Entry) → fs.node q ≡ some x → P (act q x fs))
    → P (at_target p act fs)
unfolding at_target
at_target_rule P p act fs stops runs = elim (Option-cases (resolve max_links fs.node p)) [
  | inl e ↦ rw e (stops other)
  | inr (q, e) ↦ elim (Option-cases (fs.node q)) [
    | inl none_ ↦ rw (e, none_) (stops not_exist)
    | inr (x, there) ↦ rw (e, there) (runs q x there)
  ]
]

-- A regular file stands at `p`.
abbrev pub IsFile : Fs → Bytes → Type 0
IsFile fs p = (x : Entry) × (fs.node p ≡ some x) × (x.type ≡ regular)

module _ (p : Bytes) (fs : Fs) (f : IsFile fs p) where
  at_target-IsFile : {A : Type 0} (act : Bytes → Entry → M A) → at_target p act fs ≡ act p f.0 fs
  unfolding at_target
  at_target-IsFile act = let (x, found, r) = f in ground arith

module _ (p : Bytes) (fs : Fs) (f : IsFile fs p) where
  chown-WritesDir :
      (uid gid : ℤ)
      → WritesDir p fs
          (record f.0 { uid = new_owner uid f.0.uid; gid = new_owner gid f.0.gid })
          (chown p uid gid fs)
  unfolding chown
  chown-WritesDir uid gid =
      refusable_rule
        (λ r.
          WritesDir p fs (record f.0 { uid = new_owner uid f.0.uid; gid = new_owner gid f.0.gid })
            r)
        _ fs
        (λ rest.
          rw (at_target-IsFile p (record fs { refusals = rest }) f)
            (record { done = λ e. refl; failed = λ f e. cc }))
        (λ e rest. record { done = λ x. cc; failed = λ f x. refl })

  chmod-WritesDir : (mode : ℕ) → WritesDir p fs (record f.0 { mode = mode }) (chmod p mode fs)
  unfolding chmod
  chmod-WritesDir mode =
      refusable_rule (λ r. WritesDir p fs (record f.0 { mode = mode }) r) _ fs
        (λ rest.
          rw (at_target-IsFile p (record fs { refusals = rest }) f)
            (record { done = λ e. refl; failed = λ f e. cc }))
        (λ e rest. record { done = λ x. cc; failed = λ f x. refl })

-- A directory, and the state behind a call in which it stands as it was.
module _ (q : Bytes) (e : Entry) (real : e.type ≡ directory) where
  abbrev Keeps : {A : Type 0} → Result A × Fs → Type 0
  Keeps r = r.1.node q ≡ some e

  WritesDir-Keeps :
      (p : Bytes) (fs : Fs) (new : Entry) (r : Result (Unit {0}) × Fs)
      → WritesDir p fs new r
      → IsFile fs p
      → fs.node q ≡ some e
      → Keeps r
  WritesDir-Keeps p fs new r w (x, found, file) there =
      WritesDir-other p fs new r w q (elim (Bool-cases (p == q)) [
        | inl same ↦
            let at : fs.node p ≡ fs.node q = ap fs.node ((list_same_iff p q).0 same) in
            let types = ap (λ o. type_of o) (sym found ∙ at ∙ there) in cc (types, file, real)
        | inr apart ↦ apart
      ])
      ∙ there
    where
      type_of : Option Entry → FileType
      type_of none = directory
      type_of (some x) = x.type

  in_directory-same : (t : Bytes) (x : Entry) (fs : Fs) → (in_directory t x fs).1 ≡ fs
  in_directory-same t x fs = if_rule (λ r. r.1 ≡ fs) (is_dir x.type) _ _ fs (λ _. refl) (λ _. refl)

  -- the directory is as it was, and success leaves a regular file at `p`
  abbrev Leaves : Bytes → Result (Unit {0}) × Fs → Type 0
  Leaves p r = Keeps r × (r.0 ≡ ok tt → IsFile r.1 p)

  put-Leaves :
      (p : Bytes) (x : Entry) (fs : Fs)
      → x.type ≡ regular
      → (p == q) ≡ false
      → fs.node q ≡ some e
      → Leaves p (put p x fs)
  put-Leaves p x fs file apart there = (ground arith, λ h. (x, ground (arith, same_refl p), file))

  apart_from :
      (p : Bytes) (fs : Fs)
      → ((x : Entry) → fs.node p ≡ some x → is_dir x.type ≡ false)
      → fs.node q ≡ some e
      → (p == q) ≡ false
  apart_from p fs h there = elim (Bool-cases (p == q)) [
    | inr apart ↦ apart
    | inl same ↦
        let at : fs.node p ≡ some e = ap fs.node ((list_same_iff p q).0 same) ∙ there in
        cc (h e at, ap is_dir real)
  ]

  replace-Leaves :
      (p content : Bytes) (mode : ℕ) (fs : Fs)
      → fs.node q ≡ some e
      → Leaves p (replace p content mode fs)
  replace-Leaves p content mode fs there = elim (Option-cases (fs.node p)) [
    | inl none_ ↦
        rw (none_, replace)
          (put-Leaves p _ fs refl (apart_from p fs (λ x h. cc (none_, h)) there) there)
    | inr (x, found) ↦ elim (Bool-cases (is_dir x.type)) [
      | inl yes_ ↦ rw (found, yes_, replace) (there, λ h. cc)
      | inr no_ ↦
          rw (found, no_, replace)
            (put-Leaves p _ fs refl (apart_from p fs (λ y h. ap dir_of (sym h ∙ found) ∙ no_) there)
              there)
    ]
  ]
    where
      dir_of : Option Entry → Bool
      dir_of none = false
      dir_of (some x) = is_dir x.type

  entered-same : (t : Bytes) (fs : Fs) → (refusable (at_target t in_directory) fs).1.node ≡ fs.node
  entered-same t fs =
      refusable_rule (λ r. r.1.node ≡ fs.node) _ fs
        (λ rest.
          at_target_rule (λ r. r.1.node ≡ fs.node) t in_directory (record fs { refusals = rest })
            (λ _. refl)
            (λ p x _. ap (λ s. s.node) (in_directory-same p x (record fs { refusals = rest }))))
        (λ _ _. refl)

  write-Leaves :
      (p content : Bytes) (mode : ℕ) (fs : Fs)
      → fs.node q ≡ some e
      → Leaves p (write p content mode fs)
  unfolding write
  write-Leaves p content mode fs there =
      let a = (refusable (at_target (dir p) in_directory) fs).1 in
      let at_a : a.node q ≡ some e = ap (λ n. n q) (entered-same (dir p) fs) ∙ there in
      let b = (refusable (replace p content mode) a).1 in
      let l : Leaves p (refusable (replace p content mode) a) =
        refusable_rule (Leaves p) (replace p content mode) a
          (λ rest. replace-Leaves p content mode (record a { refusals = rest }) at_a)
          (λ _ _. (at_a, λ h. cc)) in
      bind_rule (Leaves p) (refusable (at_target (dir p) in_directory)) _ fs
        (λ _ _.
          bind_rule (Leaves p) (refusable (replace p content mode)) _ a
            (λ _ done.
              refusable_rule (Leaves p) (pure tt) b (λ _. (l.0, λ _. l.1 done))
                (λ _ _. (l.0, λ h. cc)))
            (λ _ _. (l.0, λ h. cc)))
        (λ _ _. (at_a, λ h. cc))

  owned :
      (p : Bytes) (uid gid : ℤ) (mode : ℕ) (m n : Bytes) (fs : Fs)
      → IsFile fs p
      → fs.node q ≡ some e
      → Keeps ((wrap m (chown p uid gid) >> wrap n (chmod p mode)) fs)
  owned p uid gid mode m n fs f there =
      let w = chown-WritesDir p fs f uid gid in
      let s = (chown p uid gid fs).1 in
      let k = WritesDir-Keeps p fs _ (chown p uid gid fs) w f there in
      wrap_bind_rule Keeps m (chown p uid gid) _ fs
        (λ u done.
          let f' : IsFile s p = (_, WritesDir-self p fs _ (chown p uid gid fs) w done, f.2) in
          let k' = WritesDir-Keeps p s _ (chmod p mode s) (chmod-WritesDir p s f' mode) f' k in
          wrap_rule Keeps n (chmod p mode) s (λ _ _. k') (λ _ _. k'))
        (λ _ _. k)

  log_found-IsFile :
      (path : Bytes) (fs : Fs)
      → log_found path (lstat path fs).0 ≡ ok true
      → IsFile (lstat path fs).1 path
  unfolding log_found
  log_found-IsFile path fs h = elim (Result-cases (lstat path fs).0) [
    | inr (f, k) ↦ absurd (no_file f (ap (log_found path) (sym k) ∙ h))
    | inl (i, k) ↦
        let (x, found, shown) = lstat-eq-ok path fs i k in
        (
          x,
          ap (λ n. n path) (node-lstat path fs) ∙ found,
          file x (ap (log_found path) (ap ok (sym shown) ∙ sym k) ∙ h),
        )
  ]
    where
      no_file : (f : Failure) → ¬ (log_found path (err f) ≡ ok true)
      no_file f h = ground arith

      file : (x : Entry) → log_found path (ok (some (info_of x))) ≡ ok true → x.type ≡ regular
      file x h = ground arith

  -- Whatever `ensureManagedLog` does, and whether it fails or not, a directory stays as it was.
  pub ensure_managed_log-Keeps :
      (path : Bytes) (uid gid : ℤ) (system : Bool) (fs : Fs)
      → fs.node q ≡ some e
      → (ensure_managed_log path uid gid system fs).1.node q ≡ some e
  unfolding ensure_managed_log
  ensure_managed_log-Keeps path uid gid system fs there =
      let still : (lstat path fs).1.node q ≡ some e = ap (λ n. n q) (node-lstat path fs) ∙ there in
      bind_rule Keeps (lift (log_found path (lstat path fs).0)) _ (lstat path fs).1
        (body (lstat path fs).1 still (log_found-IsFile path fs)) (λ _ _. still)
    where
      body :
          (s : Fs)
          → s.node q ≡ some e
          → (log_found path (lstat path fs).0 ≡ ok true → IsFile s path)
          → (b : Bool) → log_found path (lstat path fs).0 ≡ ok b
          → Keeps (
              ((if b
                    then pure tt
                    else wrap
                        (lit "service: creating log file " ++ path)
                        (write path [] (if system then 0o660 else 0o600)))
                  >> (wrap (lit "service: owning log file " ++ path) (chown path uid gid)
                      >> wrap
                          (lit "service: setting log file mode " ++ path)
                          (chmod path (if system then 0o660 else 0o600))))
                s)
      body s still file true h = owned path uid gid _ _ _ s (file h) still
      body s still file false h =
          let l = write-Leaves path [] (if system then 0o660 else 0o600) s still in
          wrap_bind_rule Keeps _ (write path [] (if system then 0o660 else 0o600)) _ s
            (λ _ done. owned path uid gid _ _ _ _ (l.1 done) l.0) (λ _ _. l.0)

-- ===== src/Service/Cleanup/Safe.antt =====
-- What `cleanupManaged` of service/directories.go removes.
use compage_go.Base.{
  ◌≡◌, ◌⊎◌, inl, inr, refl, sym, ap, ◌∙◌, Bool, true, false, not, some, List, [], ◌∷◌, Bytes, arith,
  All,
}
use compage_go.Service.Errors.{is_not_exist, Result, ok, err, Result-cases}
use compage_go.Service.Files.{Fs, info_of}
use compage_go.Service.Files.Rules.{bind_rule, wrap_rule, if_rule}
use compage_go.Service.Calls.{lstat, remove_all, remove_tree, is_under}
use compage_go.Service.Calls.Frame.{IsRealDir, node-lstat, lstat-eq-ok}
use compage_go.Service.Directories.{is_real_dir, split_absolute}
use compage_go.Service.Directories.Ensure.{is_real_dir_lem}
use compage_go.Service.Cleanup.{check_components, cleanup_managed}

-- The check changes no file, and passes only if every component is a real directory.
record Checks (parts : List Bytes) (fs : Fs) (r : Result Bool × Fs) : Type 0 where
  same : r.1.node ≡ fs.node
  real : r.0 ≡ ok true → All (IsRealDir fs) parts

IsRealDir-node : (fs s : Fs) (p : Bytes) → s.node ≡ fs.node → IsRealDir s p → IsRealDir fs p
IsRealDir-node fs s p e (x, found, d) = (x, ap (λ n. n p) (sym e) ∙ found, d)

All-IsRealDir-node :
    (fs s : Fs) (ps : List Bytes) → s.node ≡ fs.node → All (IsRealDir s) ps → All (IsRealDir fs) ps
All-IsRealDir-node fs s [] e h = tt
All-IsRealDir-node fs s (p ∷ ps) e (d, h) =
    (IsRealDir-node fs s p e d, All-IsRealDir-node fs s ps e h)

check_components-Checks :
    (parts : List Bytes) (fs : Fs) → Checks parts fs (check_components parts fs)
unfolding check_components
check_components-Checks [] fs = record { same = refl; real = λ e. tt }
check_components-Checks (p ∷ rest) fs =
    let s = (lstat p fs).1 in
    let same = node-lstat p fs in
    let onward = check_components-Checks rest s in
    elim (Result-cases (lstat p fs).0) [
      | inr (f, e) ↦ rw e (
          if_rule (Checks (p ∷ rest) fs) (is_not_exist f) _ _ s
            (λ _. record { same = same; real = λ x. cc })
            (λ _. record { same = same; real = λ x. cc }))
      | inl (i, e) ↦
          let (x, found, shown) = lstat-eq-ok p fs i e in
          rw (e, shown)
            (if_rule (Checks (p ∷ rest) fs) (not (is_real_dir (some (info_of x)))) _ _ s
              (λ _. record { same = same; real = λ y. cc })
              (λ real. record {
                same = onward.same ∙ same;
                real = λ y. (
                  (x, found, is_real_dir_lem x real),
                  All-IsRealDir-node fs s rest same (onward.real y),
                );
              }))
    ]

remove_all-outside :
    (p q : Bytes) (fs : Fs) → is_under p q ≡ false → (remove_all p fs).1.node q ≡ fs.node q
unfolding remove_all
remove_all-outside p q fs h = ground arith

remove_all-done :
    (p : Bytes) (fs : Fs)
    → (remove_all p fs).0 ≡ ok tt
    → (remove_all p fs).1.node ≡ remove_tree p fs.node
unfolding remove_all
remove_all-done p fs h = ground arith

-- What a cleanup of `path` from `fs` may do.
pub record Cleans (path : Bytes) (fs : Fs) (r : Result (Unit {0}) × Fs) : Type 0 where
  -- nothing outside the directory changes
  pub outside : (q : Bytes) → is_under path q ≡ false → r.1.node q ≡ fs.node q
  -- something changes only if every component, from the top, was a real directory
  pub guarded : (r.1.node ≡ fs.node) ⊎ All (IsRealDir fs) (split_absolute path)
  -- success leaves all as it was, or the directory and all below it is gone
  pub finished : r.0 ≡ ok tt → (r.1.node ≡ fs.node) ⊎ (r.1.node ≡ remove_tree path fs.node)

Cleans-same :
    (path : Bytes) (fs : Fs) (r : Result (Unit {0}) × Fs) → r.1.node ≡ fs.node → Cleans path fs r
Cleans-same path fs r e = record {
  outside = λ q h. ap (λ n. n q) e;
  guarded = inl e;
  finished = λ h. inl e;
}

-- Every run of `cleanupManaged`, failing or not: it changes nothing outside the directory; it
-- changes something only if every component of the path was a directory that is no symbolic link;
-- and if it succeeds, either nothing changed or the directory and all below it is gone.
pub cleanup_managed-Cleans : (path : Bytes) (fs : Fs) → Cleans path fs (cleanup_managed path fs)
unfolding cleanup_managed
cleanup_managed-Cleans [] fs = Cleans-same [] fs (ok tt, fs) refl
cleanup_managed-Cleans (c ∷ path) fs =
    let p : Bytes = c ∷ path in
    let parts = split_absolute p in
    let s = (check_components parts fs).1 in
    let k = check_components-Checks parts fs in
    bind_rule (Cleans p fs) (check_components parts) _ fs
      (λ there passed.
        if_rule (Cleans p fs) there _ _ s
          (λ yes_.
            let removed : Cleans p fs (remove_all p s) = record {
              outside = λ q h. remove_all-outside p q s h ∙ ap (λ n. n q) k.same;
              guarded = inr (k.real (passed ∙ ap ok yes_));
              finished = λ h. inr (remove_all-done p s h ∙ ap (remove_tree p) k.same);
            } in
            wrap_rule (Cleans p fs) _ (remove_all p) s
              (λ u done. record {
                outside = removed.outside;
                guarded = removed.guarded;
                finished = λ h. removed.finished done;
              })
              (λ f e. record {
                outside = removed.outside;
                guarded = removed.guarded;
                finished = λ h. cc;
              }))
          (λ _. Cleans-same p fs (ok tt, s) k.same))
      (λ f e. Cleans-same p fs (err f, s) k.same)

-- If a component of the path is no real directory, a symbolic link for one, nothing is removed.
pub cleanup_managed-refuses :
    (path : Bytes) (fs : Fs)
    → ¬ All (IsRealDir fs) (split_absolute path)
    → (cleanup_managed path fs).1.node ≡ fs.node
cleanup_managed-refuses path fs h = elim (cleanup_managed-Cleans path fs).guarded [
  | inl same ↦ same
  | inr real ↦ absurd (h real)
]

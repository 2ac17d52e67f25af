-- ===== src/Service/Directories/Others.antt =====
-- What `ensureManagedDirectory` and the checks leave as it was.
use compage_go.Base.{
  ◌≡◌, inl, inr, ap, ◌∙◌, true, false, not, some, List, [], ◌∷◌, ◌==◌, nat_comparable,
  list_comparable, Bytes, ℕ,
}
use compage_go.Go.Strconv.{ℤ}
use compage_go.Service.Errors.{is_not_exist, Result, Result-cases}
use compage_go.Service.Files.{Entry, Fs, info_of, lift}
use compage_go.Service.Files.Rules.{bind_rule, wrap_bind_rule, if_rule}
use compage_go.Service.Calls.{lstat}
use compage_go.Service.Calls.Frame.{IsRealDir, node-lstat, lstat-eq-ok}
use compage_go.Service.Directories.{
  create_part, own_part, ensure_part, is_nil, is_real_dir, ensure_parts, traversable_directory,
  split_absolute, ensure_managed_directory,
}
use compage_go.Service.Directories.Ensure.{own_part-Owns, create_part-Creates, is_real_dir_lem}

-- `q` is not the last of the components.
abbrev pub NotLast : Bytes → List Bytes → Type 0
NotLast q [] = Unit
NotLast q (p ∷ rest) = (is_nil rest ≡ true → (p == q) ≡ false) × NotLast q rest

module _ (uid gid : ℤ) (mode : ℕ) (q : Bytes) (e : Entry) where
  abbrev Keeps : {A : Type 0} → Result A × Fs → Type 0
  Keeps r = r.1.node q ≡ some e

  ensure_parts-Keeps :
      (parts : List Bytes) (fs : Fs)
      → NotLast q parts
      → fs.node q ≡ some e
      → Keeps (ensure_parts uid gid mode parts fs)
  unfolding ensure_parts ensure_part
  ensure_parts-Keeps [] fs h found = found
  ensure_parts-Keeps (part ∷ rest) fs (other, h) found =
      let s = (lstat part fs).1 in
      let same = node-lstat part fs in
      let still : s.node q ≡ some e = ap (λ n. n q) same ∙ found in
      let next = λ (t : Fs). ensure_parts-Keeps rest t h in
      elim (Result-cases (lstat part fs).0) [
        | inr (f, k) ↦ rw k (
            if_rule Keeps (is_not_exist f) _ _ s
              (λ _.
                let c = (create_part-Creates part uid gid mode s).kept q e still in
                let t = (create_part part uid gid mode s).1 in
                bind_rule Keeps (create_part part uid gid mode) _ s
                  (λ _ _. if_rule Keeps (is_nil rest) _ _ t (λ _. c) (λ _. next t c)) (λ _ _. c))
              (λ _. still))
        | inl (i, k) ↦
            let (x, there, shown) = lstat-eq-ok part fs i k in
            rw (k, shown)
              (if_rule Keeps (not (is_real_dir (some (info_of x)))) _ _ s (λ _. still)
                λ real.
                  let d : IsRealDir s part =
                    (x, ap (λ n. n part) same ∙ there, is_real_dir_lem x real) in
                  if_rule Keeps (is_nil rest) _ _ s
                    (λ last.
                      let t = (own_part part uid gid mode s).1 in
                      let c : t.node q ≡ some e =
                        (own_part-Owns part uid gid mode s d).others q (other last) ∙ still in
                      bind_rule Keeps (own_part part uid gid mode) _ s (λ _ _. next t c) (λ _ _. c))
                    (λ _.
                      wrap_bind_rule Keeps _
                        (lift (traversable_directory (some (info_of x)) uid gid)) _ s
                        (λ _ _. next s still) (λ _ _. still)))
      ]

-- `ensureManagedDirectory` leaves every entry that was there as it was, but for the directory itself.
pub ensure_managed_directory-Keeps :
    (path : Bytes) (uid gid : ℤ) (mode : ℕ) (q : Bytes) (e : Entry) (fs : Fs)
    → NotLast q (split_absolute path)
    → fs.node q ≡ some e
    → (ensure_managed_directory path uid gid mode fs).1.node q ≡ some e
unfolding ensure_managed_directory
ensure_managed_directory-Keeps path uid gid mode q e fs =
    ensure_parts-Keeps uid gid mode q e (split_absolute path) fs

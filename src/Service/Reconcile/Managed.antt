-- ===== src/Service/Reconcile/Managed.antt =====
-- What `verifyManagedDirectory` establishes, and the directories that the loop of
-- `reconcileDirectories` leaves behind.
use compage_go.Base.{
  ◌≡◌, refl, sym, ap, ◌∙◌, true, false, not, ◌&&◌, Option, none, some, List, [], ◌∷◌, ◌==◌,
  nat_comparable, nat_beq_iff, list_comparable, Bytes, arith, All,
}
use compage_go.Go.Strconv.{pos, int_comparable, int_same_iff}
use compage_go.Go.Path.{is_abs, clean}
use compage_go.Service.Errors.{is_not_exist, Result, ok, err}
use compage_go.Service.Files.{Entry, Fs, directory, Info, info_of}
use compage_go.Service.Files.Rules.{bind_rule, wrap_bind_rule, if_rule}
use compage_go.Service.Calls.{lstat}
use compage_go.Service.Calls.Frame.{node-lstat, lstat-eq-ok}
use compage_go.Service.Directories.{
  is_real_dir, matches, judge_managed, verify_managed_directory, needed_of,
  directory_reconciliation_needed, ensure_managed_directory,
}
use compage_go.Service.Directories.Ensure.{is_real_dir_lem}
use compage_go.Service.Directories.Others.{ensure_managed_directory-Keeps}
use compage_go.Service.Directories.Parts.{NotLast-split_absolute}
use compage_go.Service.Reconcile.{
  Wanted, DirectoryChange, Changes, prepend, then_items, reconcile_item, reconcile_items,
}

-- A directory, and no symbolic link, that has the owner, the group and the mode that are wanted.
abbrev pub Managed : Wanted → Fs → Type 0
Managed w fs =
    (e : Entry) × (fs.node w.path ≡ some e)
    × (e.type ≡ directory)
    × (e.mode ≡ w.mode)
    × (pos e.uid ≡ w.owner)
    × (pos e.gid ≡ w.group)

module _ (w : Wanted) where
  judge_managed-ok :
      (e : Entry)
      → judge_managed w.path w.owner w.group w.mode (some (info_of e)) ≡ ok tt
      → (e.type ≡ directory) × (e.mode ≡ w.mode) × (pos e.uid ≡ w.owner) × (pos e.gid ≡ w.group)
  unfolding judge_managed matches
  judge_managed-ok e h =
      let real : is_real_dir (some (info_of e)) ≡ true = ground arith in
      let m : (e.mode == w.mode && (pos e.uid == w.owner && pos e.gid == w.group)) ≡ true =
        ground arith in
      (
        is_real_dir_lem e (ap not real),
        (nat_beq_iff e.mode w.mode).0 (ground arith),
        (int_same_iff (pos e.uid) w.owner).0 (ground arith),
        (int_same_iff (pos e.gid) w.group).0 (ground arith),
      )

  node-verify :
      (fs : Fs) → (verify_managed_directory w.path w.owner w.group w.mode fs).1.node ≡ fs.node
  unfolding verify_managed_directory
  node-verify fs =
      wrap_bind_rule (λ r. r.1.node ≡ fs.node) _ (lstat w.path) _ fs (λ i _. node-lstat w.path fs)
        (λ _ _. node-lstat w.path fs)

  verify-Managed :
      (fs : Fs)
      → (verify_managed_directory w.path w.owner w.group w.mode fs).0 ≡ ok tt
      → Managed w fs
  unfolding verify_managed_directory
  verify-Managed fs =
      wrap_bind_rule (λ r. r.0 ≡ ok tt → Managed w fs) _ (lstat w.path) _ fs
        (λ i found h.
          let (e, there, shown) = lstat-eq-ok w.path fs i found in
          let facts =
            judge_managed-ok e (ap (judge_managed w.path w.owner w.group w.mode) (sym shown) ∙ h) in
          (e, there, facts.0, facts.1, facts.2, facts.3))
        (λ f _ h. cc)

  node-needed :
      (fs : Fs)
      → (directory_reconciliation_needed w.path w.owner w.group w.mode fs).1.node ≡ fs.node
  unfolding directory_reconciliation_needed needed_of
  node-needed fs = go (lstat w.path fs).0 ∙ node-lstat w.path fs
    where
      go :
          (r : Result (Option Info))
          → (needed_of w.path w.owner w.group w.mode r (lstat w.path fs).1).1.node
            ≡ (lstat w.path fs).1.node
      go (ok i) = refl
      go (err e) =
          if_rule (λ r. r.1.node ≡ (lstat w.path fs).1.node) (is_not_exist e) _ _
            (lstat w.path fs).1 (λ _. refl) (λ _. refl)

  -- a clean absolute path
  abbrev pub IsTidy : Type 0
  IsTidy = (is_abs w.path ≡ true) × (clean w.path ≡ w.path)

  -- One round keeps what stands elsewhere, and if it succeeds, the directory is as it is wanted.
  record Rounds (fs : Fs) (r : Result (Option DirectoryChange) × Fs) : Type 0 where
    others :
        (q : Bytes) (e : Entry) → (w.path == q) ≡ false → fs.node q ≡ some e → r.1.node q ≡ some e
    managed : (c : Option DirectoryChange) → r.0 ≡ ok c → Managed w r.1

  Managed-node : (fs s : Fs) → s.node ≡ fs.node → Managed w fs → Managed w s
  Managed-node fs s k (e, there, real, mode, owner, group) =
      (e, ap (λ n. n w.path) k ∙ there, real, mode, owner, group)

  reconcile_item-Rounds : (fs : Fs) → IsTidy → Rounds fs (reconcile_item w fs)
  unfolding reconcile_item
  reconcile_item-Rounds fs (rooted, tidy) =
      let a = (directory_reconciliation_needed w.path w.owner w.group w.mode fs).1 in
      let b = (ensure_managed_directory w.path w.owner w.group w.mode a).1 in
      let c = (verify_managed_directory w.path w.owner w.group w.mode b).1 in
      let first : (q : Bytes) (e : Entry) → fs.node q ≡ some e → a.node q ≡ some e =
        λ q e there. ap (λ n. n q) (node-needed fs) ∙ there in
      let second : (q : Bytes) (e : Entry)
          → (w.path == q) ≡ false
          → fs.node q ≡ some e
          → b.node q ≡ some e =
        λ q e ne there.
          ensure_managed_directory-Keeps w.path w.owner w.group w.mode q e a
            (NotLast-split_absolute w.path rooted tidy q ne) (first q e there) in
      let third : (q : Bytes) (e : Entry)
          → (w.path == q) ≡ false
          → fs.node q ≡ some e
          → c.node q ≡ some e =
        λ q e ne there. ap (λ n. n q) (node-verify b) ∙ second q e ne there in
      bind_rule (Rounds fs) (directory_reconciliation_needed w.path w.owner w.group w.mode) _ fs
        (λ needed _.
          bind_rule (Rounds fs) (ensure_managed_directory w.path w.owner w.group w.mode) _ a
            (λ created _.
              bind_rule (Rounds fs) (verify_managed_directory w.path w.owner w.group w.mode) _ b
                (λ _ done. record {
                  others = third;
                  managed = λ _ _. Managed-node b c (node-verify b) (verify-Managed b done);
                })
                (λ _ _. record { others = third; managed = λ _ h. cc }))
            (λ _ _. record { others = second; managed = λ _ h. cc }))
        (λ _ _. record { others = λ q e _ there. first q e there; managed = λ _ h. cc })

-- No two of the directories have the same path.
abbrev pub Apart : List Wanted → Type 0
Apart [] = Unit
Apart (w ∷ ws) = All (λ v. (v.path == w.path) ≡ false) ws × Apart ws

-- The loop keeps what stands elsewhere, and if it succeeds, all directories are as they are wanted.
pub record Loops (ws : List Wanted) (fs : Fs) (r : Changes × Fs) : Type 0 where
  pub others :
      (q : Bytes) (e : Entry)
      → All (λ w. (w.path == q) ≡ false) ws
      → fs.node q ≡ some e
      → r.1.node q ≡ some e
  pub managed : r.0.1 ≡ none → All (λ w. Managed w r.1) ws

Loops-prepend :
    (c : Option DirectoryChange) (ws : List Wanted) (fs : Fs) (r : Changes × Fs)
    → Loops ws fs r
    → Loops ws fs (prepend c r)
Loops-prepend none ws fs r l = l
Loops-prepend (some d) ws fs ((cs, e), s) l = record { others = l.others; managed = l.managed }

pub reconcile_items-Loops :
    (ws : List Wanted) (fs : Fs) → All IsTidy ws → Apart ws → Loops ws fs (reconcile_items ws fs)
unfolding reconcile_items
reconcile_items-Loops [] fs t a = record { others = λ q e h there. there; managed = λ h. tt }
reconcile_items-Loops (w ∷ ws) fs (tidy, t) (here, a) =
    go (reconcile_item w fs) (reconcile_item-Rounds w fs tidy) (λ s. reconcile_items-Loops ws s t a)
  where
    go :
        (r : Result (Option DirectoryChange) × Fs)
        → Rounds w fs r
        → ((s : Fs) → Loops ws s (reconcile_items ws s))
        → Loops (w ∷ ws) fs (then_items r (reconcile_items ws))
    go (err f, s) round next = record {
      others = λ q e (ne, _) there. round.others q e ne there;
      managed = λ h. cc;
    }
    go (ok c, s) round next =
        let rest = next s in
        let (e, there, real, mode, owner, group) = round.managed c refl in
        Loops-prepend c (w ∷ ws) fs (reconcile_items ws s) (record {
          others = λ q x (ne, nes) found. rest.others q x nes (round.others q x ne found);
          managed =
              λ h. ((e, rest.others w.path e here there, real, mode, owner, group), rest.managed h);
        })

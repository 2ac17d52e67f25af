-- ===== src/Service/Directories.antt =====
-- service/directories.go: creating, owning and verifying managed directories.
pub mod Ensure
pub mod Others
pub mod Parts
use compage_go.Base.{
  ℕ, ◌-◌, ◌/◌, ◌%◌, ◌^◌, Bool, true, false, not, ◌&&◌, Option, none, some, List, [], ◌∷◌, ◌++◌,
  ◌==◌, nat_comparable, list_comparable, if◌then◌else◌, Bytes, lit,
}
use compage_go.Go.Strings.{split}
use compage_go.Go.Path.{slash, clean, join_two}
use compage_go.Go.Strconv.{ℤ, pos, int_comparable}
use compage_go.Service.Errors.{
  Failure, validation, privilege, wrapped, plain, is_not_exist, Result, ok, err,
}
use compage_go.Service.Calls.{lstat, mkdir, chown, chmod}
use compage_go.Service.Files.{
  Info, M, attempt, is_dir, is_symlink, lift, pure, raise, wrap, ◌>>=◌, ◌>>◌,
}

-- `splitAbsolute`: the path's ancestors from the top, and itself.
unfoldable pub prefixes : Bytes → List Bytes → List Bytes
prefixes current [] = []
prefixes current (part ∷ parts) =
    let next = join_two current part in
    let skip = prefixes current parts in
    let go = prefixes next parts in if part == [] then skip else next ∷ go

unfoldable pub split_absolute : Bytes → List Bytes
unfolding prefixes
split_absolute path = prefixes (slash ∷ []) (split slash (clean path))

-- `info == nil || info.Mode()&os.ModeSymlink != 0 || !info.IsDir()`
abbrev pub is_real_dir : Option Info → Bool
is_real_dir none = false
is_real_dir (some info) = not (is_symlink info.type) && is_dir info.type

-- `mode&bits == bits` for neighbouring bits: `low` is the lowest of them, `count` how many.
abbrev pub has_bits : ℕ → ℕ → ℕ → Bool
has_bits mode low count = mode / 2 ^ low % 2 ^ count == 2 ^ count - 1

-- Do the bits of the owner, the group or the others apply?
abbrev pub pick : (ℕ × ℕ) → ℤ → ℤ → Bool → Bool → Bool → Bool
pick (owner, group) uid gid as_owner as_group as_other =
    if pos owner == uid then as_owner else if pos group == gid then as_group else as_other

unfoldable pub traversable_directory : Option Info → ℤ → ℤ → Result (Unit {0})
traversable_directory info uid gid = if uid == pos 0 then ok tt else elim info [
  | none ↦ err (plain (lit "service: unsupported directory ownership metadata"))
  | some i ↦ elim i.stat [
    | none ↦ err (plain (lit "service: unsupported directory ownership metadata"))
    | some owner ↦
        if pick owner uid gid (has_bits i.perm 6 1) (has_bits i.perm 3 1) (has_bits i.perm 0 1)
        then ok tt
        else err (privilege (lit "traverse managed directory ancestor"))
  ]
]

-- Owner and mode of one component.
unfoldable pub own_part : Bytes → ℤ → ℤ → ℕ → M (Unit {0})
own_part part uid gid mode = do
  wrap (lit "service: owning directory " ++ part) (chown part uid gid)
  wrap (lit "service: setting directory mode " ++ part) (chmod part mode)

-- Creating one component.
unfoldable pub create_part : Bytes → ℤ → ℤ → ℕ → M (Unit {0})
unfolding own_part
create_part part uid gid mode = do
  wrap (lit "service: creating directory " ++ part) (mkdir part mode)
  own_part part uid gid mode

-- One round of the loop of `ensureManagedDirectory`, with what `lstat` returned and the rest of
-- the loop.
unfoldable pub ensure_part : Bytes → ℤ → ℤ → ℕ → Bool → M Bool → Result (Option Info) → M Bool
ensure_part part uid gid mode final next (err e) =
    if is_not_exist e
    then (do create_part part uid gid mode; if final then pure true else next)
    else raise (wrapped (lit "service: inspecting directory " ++ part) e)
ensure_part part uid gid mode final next (ok info) =
    if not (is_real_dir info)
    then raise
        (validation (lit "managed directory path contains a non-directory or symlink: " ++ part))
    else if final
    then (do own_part part uid gid mode; next)
    else (do
      wrap (lit "service: checking managed directory ancestor " ++ part)
          (lift (traversable_directory info uid gid))
      next)

abbrev pub is_nil {ℓ} : {A : Type ℓ} → List A → Bool
is_nil [] = true
is_nil (_ ∷ _) = false

-- Returns whether the last component was created.
unfoldable pub ensure_parts : ℤ → ℤ → ℕ → List Bytes → M Bool
unfolding ensure_part
ensure_parts uid gid mode [] = pure false
ensure_parts uid gid mode (part ∷ rest) =
    let next = ensure_parts uid gid mode rest in
    attempt (lstat part) >>= ensure_part part uid gid mode (is_nil rest) next

-- `ensureManagedDirectory`
unfoldable pub ensure_managed_directory : Bytes → ℤ → ℤ → ℕ → M Bool
unfolding ensure_parts split_absolute
ensure_managed_directory path uid gid mode = ensure_parts uid gid mode (split_absolute path)

abbrev pub owned_by : (ℕ × ℕ) → ℤ → ℤ → Bool
owned_by (owner, group) uid gid = pos owner == uid && pos group == gid

-- What the two checks say of an entry that `lstat` found.
unfoldable pub matches : Info → ℤ → ℤ → ℕ → Option Bool
matches i uid gid mode = elim i.stat [
  | none ↦ none
  | some owner ↦ some (i.perm == mode && owned_by owner uid gid)
]

abbrev pub no_metadata : Failure
no_metadata = plain (lit "service: unsupported directory ownership metadata")

unfoldable pub judge_needed : Bytes → ℤ → ℤ → ℕ → Option Info → Result Bool
unfolding matches
judge_needed path uid gid mode none =
    err (validation (lit "managed directory must be a real directory: " ++ path))
judge_needed path uid gid mode (some i) =
    if not (is_real_dir (some i))
    then err (validation (lit "managed directory must be a real directory: " ++ path))
    else elim (matches i uid gid mode) [ none ↦ err no_metadata | some m ↦ ok (not m) ]

unfoldable pub needed_of : Bytes → ℤ → ℤ → ℕ → Result (Option Info) → M Bool
unfolding judge_needed
needed_of path uid gid mode (ok info) = lift (judge_needed path uid gid mode info)
needed_of path uid gid mode (err e) =
    if is_not_exist e
    then pure true
    else raise (wrapped (lit "service: inspecting managed directory " ++ path) e)

-- `directoryReconciliationNeeded`
unfoldable pub directory_reconciliation_needed : Bytes → ℤ → ℤ → ℕ → M Bool
unfolding needed_of
directory_reconciliation_needed path uid gid mode =
    attempt (lstat path) >>= needed_of path uid gid mode

unfoldable pub judge_managed : Bytes → ℤ → ℤ → ℕ → Option Info → Result (Unit {0})
unfolding matches
judge_managed path uid gid mode none =
    err (validation (lit "managed directory has unexpected type: " ++ path))
judge_managed path uid gid mode (some i) =
    if not (is_real_dir (some i))
    then err (validation (lit "managed directory has unexpected type: " ++ path))
    else elim (matches i uid gid mode) [
      | none ↦ err no_metadata
      | some m ↦
          if m
          then ok tt
          else err (validation (lit "managed directory has unexpected ownership or mode: " ++ path))
    ]

-- `verifyManagedDirectory`
unfoldable pub verify_managed_directory : Bytes → ℤ → ℤ → ℕ → M (Unit {0})
unfolding judge_managed
verify_managed_directory path uid gid mode =
    wrap (lit "service: verifying managed directory " ++ path) (lstat path) >>= λ info.
    lift (judge_managed path uid gid mode info)

-- ===== src/Service/Cleanup.antt =====
-- service/directories.go: removing a managed directory.
pub mod Safe
use compage_go.Base.{
  Bool, true, false, not, List, [], ◌∷◌, ◌++◌, nat_comparable, list_comparable, if◌then◌else◌,
  Bytes, lit,
}
use compage_go.Go.Strconv.{int_comparable}
use compage_go.Service.Errors.{validation, is_not_exist, ok, err}
use compage_go.Service.Calls.{lstat, remove_all}
use compage_go.Service.Files.{M, attempt, pure, raise, wrap, ◌>>=◌}
use compage_go.Service.Directories.{split_absolute, is_real_dir}

-- The loop of `cleanupManaged`: `ok true` if every component is a real directory, `ok false` if one
-- is missing.
unfoldable pub check_components : List Bytes → M Bool
check_components [] = pure true
check_components (component ∷ rest) =
    let next = check_components rest in
    attempt (lstat component) >>= λ found. elim found [
      | err e ↦ if is_not_exist e then pure false else raise e
      | ok info ↦
          if not (is_real_dir info)
          then raise
              (validation (lit "refusing to remove a symlinked or non-directory managed path"))
          else next
    ]

-- `cleanupManaged`
unfoldable pub cleanup_managed : Bytes → M (Unit {0})
unfolding check_components split_absolute
cleanup_managed [] = pure tt
cleanup_managed (c ∷ path) = do
  there ← check_components (split_absolute (c ∷ path))
  if there
      then wrap (lit "service: removing managed directory " ++ (c ∷ path)) (remove_all (c ∷ path))
      else pure tt

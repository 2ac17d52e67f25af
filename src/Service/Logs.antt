-- ===== src/Service/Logs.antt =====
-- service/directories.go: managed log files.
pub mod Kept
use compage_go.Base.{
  ℕ, Bool, true, false, not, ◌||◌, Option, none, some, [], ◌∷◌, ◌++◌, nat_comparable,
  list_comparable, if◌then◌else◌, Bytes, lit,
}
use compage_go.Go.Path.{join_two}
use compage_go.Go.Strconv.{ℤ, int_comparable}
use compage_go.Service.Errors.{validation, wrapped, is_not_exist, Result, ok, err}
use compage_go.Service.Calls.{lstat, chown, chmod, write}
use compage_go.Service.Files.{
  Info, M, attempt, is_regular, is_symlink, lift, pure, wrap, ◌>>=◌, ◌>>◌,
}

-- `resolvedLogPath`
unfoldable pub resolved_log_path : Bytes → Bytes → Bytes → Bytes
resolved_log_path dir [] fallback = join_two dir fallback
resolved_log_path dir (c ∷ name) fallback = join_two dir (c ∷ name)

-- The log file as `ensureManagedLog` finds it: is it there?
unfoldable pub log_found : Bytes → Result (Option Info) → Result Bool
log_found path (ok none) =
    err (validation (lit "managed log file must be a regular file: " ++ path))
log_found path (ok (some i)) =
    if is_symlink i.type || not (is_regular i.type)
    then err (validation (lit "managed log file must be a regular file: " ++ path))
    else ok true
log_found path (err e) =
    if is_not_exist e
    then ok false
    else err (wrapped (lit "service: inspecting log file " ++ path) e)

-- `ensureManagedLog`
unfoldable pub ensure_managed_log : Bytes → ℤ → ℤ → Bool → M (Unit {0})
unfolding log_found
ensure_managed_log path uid gid system = do
  let mode : ℕ = if system then 0o660 else 0o600
  found ← attempt (lstat path)
  there ← lift (log_found path found)
  if there then pure tt else wrap (lit "service: creating log file " ++ path) (write path [] mode)
  wrap (lit "service: owning log file " ++ path) (chown path uid gid)
  wrap (lit "service: setting log file mode " ++ path) (chmod path mode)

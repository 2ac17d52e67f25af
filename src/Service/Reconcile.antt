-- ===== src/Service/Reconcile.antt =====
-- service/directories.go: `reconcileDirectories`.
pub mod Managed
pub mod Succeeds
use compage_go.Base.{
  ℕ, Bool, true, false, not, ◌&&◌, ◌||◌, Option, none, some, List, [], ◌∷◌, ◌==◌, nat_comparable,
  list_comparable, if◌then◌else◌, Bytes, lit,
}
use compage_go.Go.Strconv.{ℤ, pos, atoi}
use compage_go.Service.Errors.{Failure, bad_number, wrapped, Result, ok, err}
use compage_go.Service.Files.{Fs, M, pure, ◌>>=◌, ◌>>◌}
use compage_go.Service.Directories.{
  directory_reconciliation_needed, ensure_managed_directory, verify_managed_directory,
}
use compage_go.Service.Logs.{resolved_log_path, ensure_managed_log}
use compage_go.Service.Spec.{Specification, user, system}
use compage_go.Service.Resolve.{ManagedDirectories}

-- `DirectoryChange`
pub record DirectoryChange : Type 0 where
  pub path : Bytes
  pub created : Bool

-- A directory with the owner and the mode that it is to have.
pub record Wanted : Type 0 where
  pub path : Bytes
  pub owner : ℤ
  pub group : ℤ
  pub mode : ℕ

abbrev pub wanted_mode : Specification → ManagedDirectories → Bool → ℕ
wanted_mode s d is_config =
    if s.scope == user then 0o700 else if is_config && not d.config_writable then 0o750 else 0o770

abbrev pub wanted_owner : Specification → ℤ → ℤ
wanted_owner s uid = if s.scope == system then pos 0 else uid

abbrev pub wanted : Specification → ManagedDirectories → ℤ → ℤ → Bytes → Bool → Wanted
wanted s d uid gid path is_config = record {
  path = path;
  owner = wanted_owner s uid;
  group = gid;
  mode = wanted_mode s d is_config;
}

-- The directories in the order of the loop, and those among them that are declared.
abbrev pub declared : List Wanted → List Wanted
declared [] = []
declared (w ∷ ws) = let rest = declared ws in if w.path == [] then rest else w ∷ rest

unfoldable pub wanted_directories : Specification → ManagedDirectories → ℤ → ℤ → List Wanted
wanted_directories s d uid gid = declared (
    wanted s d uid gid d.paths.config true
    ∷ wanted s d uid gid d.paths.runtime false
    ∷ wanted s d uid gid d.paths.state false
    ∷ wanted s d uid gid d.paths.logs false
    ∷ [])

abbrev pub change_of : Bytes → Bool → Bool → Option DirectoryChange
change_of path created needed =
    if created || needed then some (record { path = path; created = created }) else none

-- The body of the loop
unfoldable pub reconcile_item : Wanted → M (Option DirectoryChange)
reconcile_item w = do
  needed ← directory_reconciliation_needed w.path w.owner w.group w.mode
  created ← ensure_managed_directory w.path w.owner w.group w.mode
  verify_managed_directory w.path w.owner w.group w.mode
  pure (change_of w.path created needed)

-- Changes, also with an error.
abbrev pub Changes : Type 0
Changes = List DirectoryChange × Option Failure

abbrev pub prepend : Option DirectoryChange → Changes × Fs → Changes × Fs
prepend none r = r
prepend (some c) ((cs, e), fs) = ((c ∷ cs, e), fs)

abbrev pub then_items : Result (Option DirectoryChange) × Fs → (Fs → Changes × Fs) → Changes × Fs
then_items (ok c, fs) next = prepend c (next fs)
then_items (err e, fs) next = (([], some e), fs)

-- The loop
unfoldable pub reconcile_items : List Wanted → Fs → Changes × Fs
unfolding reconcile_item
reconcile_items [] fs = (([], none), fs)
reconcile_items (w ∷ ws) fs = then_items (reconcile_item w fs) (reconcile_items ws)

-- The specification with the paths of its log files, also with an error.
abbrev pub Logged : Type 0
Logged = Specification × Option Failure

abbrev pub logged : Result (Unit {0}) × Fs → Specification → Specification → Logged × Fs
logged (ok _, fs) before after = ((after, none), fs)
logged (err e, fs) before after = ((before, some e), fs)

-- One round of the second loop, for a log file that may be declared.
unfoldable pub reconcile_log :
    Option Bytes
    → Bytes
    → Bytes
    → ℤ
    → ℤ
    → (Bytes → Specification)
    → Specification
    → Fs
    → Logged × Fs
reconcile_log none dir fallback uid gid set s fs = ((s, none), fs)
reconcile_log (some name) dir fallback uid gid set s fs =
    let path = resolved_log_path dir name fallback in
    logged (ensure_managed_log path uid gid (s.scope == system) fs) s (set path)

unfoldable pub reconcile_stderr : Logged × Fs → Bytes → ℤ → ℤ → Logged × Fs
unfolding reconcile_log
reconcile_stderr ((s, some e), fs) dir uid gid = ((s, some e), fs)
reconcile_stderr ((s, none), fs) dir uid gid =
    reconcile_log s.stderr_log dir (lit "err.log") uid gid (λ path. record s { stderr = path }) s fs

unfoldable pub reconcile_logs : Bytes → ℤ → ℤ → Specification → Fs → Logged × Fs
unfolding reconcile_log reconcile_stderr
reconcile_logs dir uid gid s fs =
    reconcile_stderr
      (reconcile_log s.stdout_log dir (lit "out.log") uid gid (λ path. record s { stdout = path }) s
        fs)
      dir uid gid

-- What `reconcileDirectories` returns, with the specification that it leaves behind.
pub record Reconciled : Type 0 where
  pub changes : List DirectoryChange
  pub spec : Specification
  pub error : Option Failure

abbrev pub with_logs : List DirectoryChange → Logged × Fs → Reconciled × Fs
with_logs cs ((s, e), fs) = (record { changes = cs; spec = s; error = e }, fs)

unfoldable pub after_items :
    Changes × Fs → ManagedDirectories → ℤ → ℤ → Specification → Reconciled × Fs
unfolding reconcile_logs
after_items ((cs, some e), fs) d uid gid s = (record { changes = cs; spec = s; error = some e }, fs)
after_items ((cs, none), fs) d uid gid s =
    if d.has_logs
    then with_logs cs (reconcile_logs d.paths.logs uid gid s fs)
    else (record { changes = cs; spec = s; error = none }, fs)

unfoldable pub reconcile_numbers :
    Specification → ManagedDirectories → Option ℤ → Option ℤ → Fs → Reconciled × Fs
unfolding after_items reconcile_items wanted_directories
reconcile_numbers s d none gid fs = (
  record {
    changes = [];
    spec = s;
    error = some (wrapped (lit "service: invalid runtime UID") bad_number);
  },
  fs,
)
reconcile_numbers s d (some uid) none fs = (
  record {
    changes = [];
    spec = s;
    error = some (wrapped (lit "service: invalid runtime GID") bad_number);
  },
  fs,
)
reconcile_numbers s d (some uid) (some gid) fs =
    after_items (reconcile_items (wanted_directories s d uid gid) fs) d uid gid s

-- `reconcileDirectories`
unfoldable pub reconcile_directories :
    Specification → ManagedDirectories → Bytes → Bytes → Fs → Reconciled × Fs
unfolding reconcile_numbers
reconcile_directories s d uid gid = reconcile_numbers s d (atoi uid) (atoi gid)

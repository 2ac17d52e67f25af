-- ===== src/Service/Operation.antt =====
-- service/operation.go, and `New` and `Directories` of service/service.go. The state is the files
-- and what else the backend's commands change; the service manager's backend and
-- `ensureAccount` are parameters, as the operation holds them in fields.
pub mod Ensure
pub mod Commands
pub mod Create
pub mod Purge
pub mod Reasons
pub mod Admission
use compage_go.Base.{
  ℕ, ◌/◌, ◌%◌, ◌^◌, Bool, true, false, not, ◌&&◌, ◌||◌, Option, none, some, List, [], ◌∷◌, ◌++◌,
  ◌==◌, nat_comparable, list_comparable, if◌then◌else◌, Bytes, lit,
}
use compage_go.Base.Members.{add_unique}
use compage_go.Go.Strconv.{ℤ, pos, atoi, int_comparable}
use compage_go.Go.Path.{base, dir}
use compage_go.Service.Errors.{
  Failure, validation, privilege, cancelled, wrapped, plain, bad_number, Result, ok, err,
}
use compage_go.Service.Files.{Fs, M, Info, is_regular, is_dir, lift, pure, raise, wrap, ◌>>=◌, ◌>>◌}
use compage_go.Service.Calls.{stat}
use compage_go.Service.Directories.{has_bits, pick}
use compage_go.Service.Cleanup.{cleanup_managed}
use compage_go.Service.Spec.{Specification, user, system, validate, valid_service_name}
use compage_go.Service.Options.{ServiceOption, apply_all, default_specification, zero_specification}
use compage_go.Service.Resolve.{
  AppDirectories, no_directories, ManagedDirectories, Platform, platform_backend, validate_for,
  resolve_directories,
}
use compage_go.Service.Reconcile.{DirectoryChange, Reconciled, reconcile_directories}
use compage_go.Account.Backend.{Os}
use compage_go.Account.Spec as account

-- `ChangeReason`, a string.
abbrev pub ChangeReason : Type 0
ChangeReason = Bytes

abbrev pub account_changed : ChangeReason
account_changed = lit "account_changed"

abbrev pub directories_changed : ChangeReason
directories_changed = lit "directories_changed"

-- host.UserInfo, as far as the package reads it.
pub record User : Type 0 where
  pub uid : Bytes
  pub gid : Bytes
  pub home : Bytes

-- `EnsureResult`
pub record EnsureResult : Type 0 where
  pub installed : Bool
  pub changed : Bool
  pub reasons : List ChangeReason
  pub restart_required : Bool
  pub account : Option account.EnsureResult
  pub directories : AppDirectories
  pub directory_changes : List DirectoryChange

abbrev pub no_result : EnsureResult
no_result = record {
  installed = false;
  changed = false;
  reasons = [];
  restart_required = false;
  account = none;
  directories = no_directories;
  directory_changes = [];
}

-- `Status`
pub record Status : Type 0 where
  pub installed : Bool
  pub enabled : Bool
  pub loaded : Bool
  pub running : Bool
  pub pid : ℤ
  pub exit_code : Option ℤ
  pub detail : Bytes

-- The fields of `operation` that are data.
pub record Operation : Type 0 where
  pub spec : Specification
  pub platform : Platform
  pub user : User
  pub root : Bool

-- `PurgeOptions`
pub record PurgeOptions : Type 0 where
  pub config : Bool
  pub state : Bool
  pub logs : Bool

-- `systemPreflight`
unfoldable pub system_preflight : Operation → Result (Unit {0})
system_preflight o =
    if o.spec.scope == system && not o.root
    then err (privilege (lit "manage system service"))
    else ok tt

-- What every operation begins with: the context, then `systemPreflight`.
unfoldable pub admit : Bytes → Bool → Operation → Result (Unit {0})
unfolding system_preflight
admit what stopped o =
    if stopped
    then err (wrapped (lit "service: " ++ (what ++ lit " cancelled")) cancelled)
    else system_preflight o

-- `uniqueReasons`, from the reasons kept so far.
unfoldable pub keep_reasons : List ChangeReason → List ChangeReason → List ChangeReason
keep_reasons out [] = out
keep_reasons out (reason ∷ rest) = keep_reasons (add_unique out reason) rest

unfoldable pub unique_reasons : List ChangeReason → List ChangeReason
unfolding keep_reasons
unique_reasons reasons = keep_reasons [] reasons

-- The test of the binary in `ensure`
unfoldable pub judge_binary : Option Info → Result (Unit {0})
judge_binary none = err (validation (lit "binary must be a regular executable file"))
judge_binary (some i) =
    if not (is_regular i.type)
      || not (has_bits i.perm 0 1 || has_bits i.perm 3 1 || has_bits i.perm 6 1)
    then err (validation (lit "binary must be a regular executable file"))
    else ok tt

unfoldable pub check_binary : Bytes → M (Unit {0})
unfolding judge_binary
check_binary path =
    wrap (lit "service: inspecting binary") (stat path) >>= λ info. lift (judge_binary info)

-- `writableDirectory`
unfoldable pub writable_directory : Info → Bytes → Bytes → Result (Unit {0})
writable_directory i uid gid = elim i.stat [
  | none ↦ err (plain (lit "service: unsupported log directory metadata"))
  | some owner ↦ elim (atoi uid) [
    | none ↦ err (wrapped (lit "service: invalid runtime UID") bad_number)
    | some u ↦ elim (atoi gid) [
      | none ↦ err (wrapped (lit "service: invalid runtime GID") bad_number)
      | some g ↦
          if u == pos 0
            || pick owner u g (has_bits i.perm 6 2) (has_bits i.perm 3 2) (has_bits i.perm 0 2)
          then ok tt
          else err (privilege (lit "write log directory"))
    ]
  ]
]

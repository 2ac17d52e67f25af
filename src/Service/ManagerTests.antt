-- ===== src/Service/ManagerTests.antt =====
-- Runs of the operations of a manager, and the theorems at some of them.
use compage_go.Base.{
  ◌≡◌, refl, ℕ, suc, true, false, ◌||◌, Option, none, some, List, [], ◌∷◌, ◌==◌, nat_comparable,
  list_comparable, Bytes, lit, if◌then◌else◌,
}
use compage_go.Go.Strings.{contains_any, split, join}
use compage_go.Go.Path.{clean, join_two, is_abs}
use compage_go.Go.Strconv.{pos}
use compage_go.Service.Errors.{ok, err, cancelled}
use compage_go.Service.Files.{directory, Entry, Fs}
use compage_go.Service.Directories.{split_absolute, prefixes, ensure_managed_directory}
use compage_go.Service.Spec.{Specification, system, valid_relative_directory, valid_parts}
use compage_go.Service.Options.{
  ServiceOption, with_name, with_scope, with_config_dir, with_state_dir, apply, apply_all,
  set_directory, default_specification,
}
use compage_go.Service.Options.Valid.{IsDeclared, apply_all-IsDeclared, default_declared}
use compage_go.Service.Resolve.{ManagedDirectories, systemd}
use compage_go.Service.Reconcile.Managed.{Managed}
use compage_go.Service.Operation.{Operation, PurgeOptions, no_result}
use compage_go.Service.Operation.Ensure.{Backend, stopped_with, ensure}
use compage_go.Service.Operation.Commands.{purge, start, restart, stop, status, uninstall}
use compage_go.Service.Operation.Admission.{refusal, refused_keeps}
use compage_go.Service.Logs.{ensure_managed_log}
use compage_go.Service.Logs.Kept.{ensure_managed_log-Keeps}
use compage_go.Service.Directories.Others.{NotLast, ensure_managed_directory-Keeps}
use compage_go.Account.Spec as account

abbrev options : List ServiceOption
options =
    with_name (lit "app")
    ∷ with_scope system
    ∷ with_config_dir (lit "app" ∷ [])
    ∷ with_state_dir []
    ∷ []

abbrev app : Specification
app = record default_specification {
  name = lit "app";
  scope = system;
  config_dir = some (lit "app");
  config_read_declared = true;
  state_dir = some [];
}

configured : apply_all options default_specification ≡ ok app
unfolding apply_all apply set_directory valid_relative_directory valid_parts is_abs clean
    contains_any split join lit
configured = refl

apply_all-IsDeclared_example : IsDeclared app
apply_all-IsDeclared_example =
    apply_all-IsDeclared options default_specification app default_declared configured

abbrev folder : Entry
folder = record { type = directory; mode = 0o755; uid = 0; gid = 0; content = [] }

abbrev tree : Bytes → Option Entry
tree p =
    if p == lit "/" || p == lit "/etc" || p == lit "/var" || p == lit "/var/lib"
    then some folder
    else none

abbrev disk : Fs
disk = record {
  node = tree;
  refusals = [];
  euid = 0;
  egid = 0;
  masked = λ m. m;
  survives = λ p. false;
}

abbrev places : ManagedDirectories
places = record {
  paths = record { runtime = []; config = lit "/etc/app"; state = lit "/var/lib/app"; logs = [] };
  has_runtime = false;
  has_config = true;
  has_state = true;
  has_logs = false;
  config_writable = false;
}

-- A manager without privilege, and a backend that does nothing.
abbrev unprivileged : Operation
unprivileged = record {
  spec = app;
  platform = systemd;
  user = record { uid = lit "7"; gid = lit "8"; home = lit "/home/app" };
  root = false;
}

abbrev idle : Backend ℕ
idle = record {
  ensure = λ o w. ((no_result, none), w);
  start = λ o w. (none, (w.0, suc w.1));
  restart = λ o w. (none, (w.0, suc w.1));
  stop = λ o w. (none, (w.0, suc w.1));
  uninstall = λ o w. (none, (w.0, suc w.1));
  status = λ o w. (err cancelled, w);
}

abbrev known : account.EnsureResult
known = record {
  created = false;
  changed = [];
  account = record {
    name = [];
    uid = [];
    gid = [];
    group = [];
    home = [];
    shell = [];
    groups = [];
    hidden = false;
  };
}

abbrev everything : PurgeOptions
everything = record { config = true; state = true; logs = false }

refused_keeps_example :
    (ensure idle (λ a w. ((known, none), w)) false unprivileged (disk, 0)
      ≡ (stopped_with no_result (refusal (lit "ensure") false) unprivileged, (disk, 0)))
    × (start idle false unprivileged (disk, 0) ≡ (some (refusal (lit "start") false), (disk, 0)))
    × (restart idle false unprivileged (disk, 0)
        ≡ (some (refusal (lit "restart") false), (disk, 0)))
    × (stop idle false unprivileged (disk, 0) ≡ (some (refusal (lit "stop") false), (disk, 0)))
    × (status idle false unprivileged (disk, 0) ≡ (err (refusal (lit "status") false), (disk, 0)))
    × (uninstall idle false unprivileged (disk, 0)
        ≡ (some (refusal (lit "uninstall") false), (disk, 0)))
    × (purge false unprivileged everything disk ≡ (err (refusal (lit "purge") false), disk))
refused_keeps_example =
    refused_keeps idle (λ a w. ((known, none), w)) false unprivileged everything (disk, 0) refl

var_there : disk.node (lit "/var") ≡ some folder
unfolding lit
var_there = refl

ensure_managed_log-Keeps_example :
    (ensure_managed_log (lit "/var/out.log") (pos 7) (pos 8) true disk).1.node (lit "/var")
    ≡ some folder
ensure_managed_log-Keeps_example =
    ensure_managed_log-Keeps (lit "/var") folder refl (lit "/var/out.log") (pos 7) (pos 8) true disk
      var_there

not_last : NotLast (lit "/var") (split_absolute (lit "/var/lib"))
unfolding split_absolute prefixes split clean join_two join lit
not_last = ((λ h. cc), ((λ h. refl), tt))

ensure_managed_directory-Keeps_example :
    (ensure_managed_directory (lit "/var/lib") (pos 0) (pos 8) 0o770 disk).1.node (lit "/var")
    ≡ some folder
ensure_managed_directory-Keeps_example =
    ensure_managed_directory-Keeps (lit "/var/lib") (pos 0) (pos 8) 0o770 (lit "/var") folder disk
      not_last var_there

-- ===== src/Service/ResolveTests.antt =====
-- Runs of `resolveDirectories` and of `New`, and the theorems at some of them.
use compage_go.Base.{
  ◌≡◌, inr, refl, true, false, some, List, [], ◌∷◌, nat_comparable, list_comparable, lit,
}
use compage_go.Go.Strings.{has_prefix, contains_any, split, join}
use compage_go.Go.Path.{clean, join_two, is_abs}
use compage_go.Service.Errors.{ok}
use compage_go.Service.Spec.{Specification, system, valid_relative_directory, valid_parts}
use compage_go.Service.Options.{
  ServiceOption, with_scope, with_state_dir, apply, apply_all, set_directory, default_specification,
}
use compage_go.Service.Options.Valid.{IsDeclared}
use compage_go.Service.Resolve.{
  ManagedDirectories, systemd, resolve_directories, resolve_from, directory_bases, place,
  directory_path,
}
use compage_go.Service.Operation.{Operation}
use compage_go.Service.Calls.{is_under}
use compage_go.Service.Resolve.{user_directory_bases}
use compage_go.Service.Spec.{valid_service_name, name_characters}
use compage_go.Service.Resolve.Below.{Placed, resolve_directories-Placed}
use compage_go.Go.Strings.{has_suffix, has_substring}
use compage_go.Go.Path.{base}
use compage_go.Account.Backend.{linux}
use compage_go.Service.Spec.{validate, checks, first_failure, valid_entries, valid_args}
use compage_go.Service.Options.{with_binary}
use compage_go.Service.Resolve.{platform_backend, validate_for}
use compage_go.Service.Operation.Create.{new}
use compage_go.Service.Operation.Create.Valid.{IsValid, new-IsValid}

-- A user's service whose state is kept below what `uninstall` removes.
abbrev nested : Specification
nested = record default_specification {
  name = lit "app";
  runtime_dir = some (lit "x");
  state_dir = some (lit "x/data");
}

abbrev nested_places : ManagedDirectories
nested_places = record {
  paths = record {
    runtime = lit "/home/u/.app/x";
    config = lit "/home/u/.app";
    state = lit "/home/u/.app/x/data";
    logs = [];
  };
  has_runtime = true;
  has_config = true;
  has_state = true;
  has_logs = false;
  config_writable = false;
}

nested_resolved : resolve_directories systemd nested (lit "/home/u") ≡ ok nested_places
unfolding resolve_directories directory_bases user_directory_bases resolve_from place directory_path
    join_two clean split join lit is_abs
nested_resolved = refl

nested_declared : IsDeclared nested
unfolding valid_relative_directory valid_parts is_abs clean contains_any split join lit
nested_declared = record {
  runtime = inr refl;
  config = tt;
  state = inr refl;
  logs = tt;
  stdout = tt;
  stderr = tt;
  exclusive = refl;
  some_config = λ h. cc;
}

valid_name : valid_service_name (lit "app") ≡ true
unfolding valid_service_name name_characters has_prefix lit
valid_name = refl

resolve_directories-Placed_example :
    Placed systemd nested (lit "/home/u") refl valid_name nested_declared nested_places
resolve_directories-Placed_example =
    resolve_directories-Placed systemd nested (lit "/home/u") refl valid_name nested_declared
      nested_places nested_resolved

-- Removing the runtime directory of that service takes the directory of its state along.
runtime_holds_state : is_under nested_places.paths.runtime nested_places.paths.state ≡ true
unfolding has_prefix lit
runtime_holds_state = refl

-- The configuration directory of a system service that declares it without a name.
unnamed_config :
    resolve_directories systemd
      (record default_specification { name = lit "app"; scope = system; config_dir = some [] })
      []
    ≡ ok (record nested_places {
      paths = record { runtime = []; config = lit "/etc/.app"; state = []; logs = [] };
      has_runtime = false;
      has_state = false;
    })
unfolding resolve_directories directory_bases resolve_from place directory_path join_two clean split
    join lit is_abs
unnamed_config = refl

abbrev options : List ServiceOption
options = with_binary (lit "/usr/bin/app") ∷ with_scope system ∷ with_state_dir [] ∷ []

abbrev made : Operation
made = record {
  spec = record default_specification {
    name = lit "app";
    binary = lit "/usr/bin/app";
    scope = system;
    state_dir = some [];
  };
  platform = systemd;
  user = record { uid = lit "0"; gid = lit "0"; home = lit "/root" };
  root = true;
}

makes : new linux true (ok made.user) options ≡ ok made
unfolding new apply_all apply set_directory platform_backend validate checks first_failure
    valid_service_name name_characters valid_entries valid_args validate_for base clean split join
    lit is_abs has_prefix has_suffix has_substring contains_any
makes = refl

new-IsValid_example : IsValid made
new-IsValid_example = new-IsValid linux true (ok made.user) options made makes

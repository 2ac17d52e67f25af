-- ===== src/Service/Tests.antt =====
-- Runs of the service's file operations, and the theorems at some of them.
use compage_go.Base.{
  ◌≡◌, refl, true, false, ◌||◌, Option, none, some, [], ◌∷◌, ◌==◌, nat_comparable, list_comparable,
  Bytes, lit, All, if◌then◌else◌,
}
use compage_go.Go.Strings.{split, join}
use compage_go.Go.Path.{clean, join_two, dir, is_abs}
use compage_go.Go.Strconv.{pos, int_comparable}
use compage_go.Service.Errors.{ok, is_not_exist}
use compage_go.Service.Files.{directory, symlink, Entry, Fs, refusable, pass}
use compage_go.Service.Calls.{lstat, at_target, resolve, chown, chmod, mkdir}
use compage_go.Service.Calls.Frame.{IsRealDir}
use compage_go.Service.Directories.{
  split_absolute, prefixes, ensure_managed_directory, ensure_parts, ensure_part, own_part,
  create_part, traversable_directory,
}
use compage_go.Service.Directories.Ensure.{ensure_managed_directory-IsRealDir}
use compage_go.Service.Cleanup.{cleanup_managed}
use compage_go.Service.Cleanup.Safe.{Cleans, cleanup_managed-Cleans}

abbrev folder : Entry
folder = record { type = directory; mode = 0o755; uid = 0; gid = 0; content = [] }

abbrev link : Entry
link = record { type = symlink (lit "/etc"); mode = 0o777; uid = 7; gid = 7; content = [] }

-- A directory `/srv`, and in it a symbolic link `app`.
abbrev tree : Bytes → Option Entry
tree p =
    if p == lit "/" || p == lit "/srv"
    then some folder
    else if p == lit "/srv/app"
    then some link
    else none

abbrev disk : Fs
disk = record {
  node = tree;
  refusals = [];
  euid = 0;
  egid = 0;
  masked = λ m. m;
  survives = λ p. false;
}

parts : split_absolute (lit "/srv/app") ≡ lit "/srv" ∷ lit "/srv/app" ∷ []
unfolding split_absolute prefixes split clean join_two join lit
parts = refl

ensures : (ensure_managed_directory (lit "/srv/new") (pos 0) (pos 7) 0o770 disk).0 ≡ ok true
unfolding ensure_managed_directory ensure_parts ensure_part own_part create_part split_absolute
    prefixes split clean join_two join lit lstat at_target resolve chown chmod mkdir refusable pass
    dir is_abs is_not_exist traversable_directory
ensures = refl

ensure_managed_directory-IsRealDir_example :
    All
      (IsRealDir (ensure_managed_directory (lit "/srv/new") (pos 0) (pos 7) 0o770 disk).1)
      (split_absolute (lit "/srv/new"))
ensure_managed_directory-IsRealDir_example =
    ensure_managed_directory-IsRealDir (lit "/srv/new") (pos 0) (pos 7) 0o770 disk true ensures

cleanup_managed-Cleans_example :
    Cleans (lit "/srv/app") disk (cleanup_managed (lit "/srv/app") disk)
cleanup_managed-Cleans_example = cleanup_managed-Cleans (lit "/srv/app") disk

-- ===== src/Account/Tests.antt =====
-- Runs of the operations on a backend with one account, and the theorems at some of them.
use compage_go.Base.{
  ◌≡◌, ◌↔◌, refl, Bool, true, false, Option, none, some, List, [], ◌∷◌, ◌==◌, nat_comparable,
  list_comparable, Bytes, lit, arith,
}
use compage_go.Go.Strconv.{ℤ, pos, itoa}
use compage_go.Go.Strings.{has_prefix, contains_any, join}
use compage_go.Go.Path.{is_abs, clean}
use compage_go.Account.Spec.{
  Record, Spec, leave_home_unchanged, ensure_home, reconcile, validate, valid_local_name,
  check_groups, validate_home,
}
use compage_go.Account.Backend.{
  not_found, privilege, Result, ok, err, linux, Backend, is_unix, is_not_found,
}
use compage_go.Account.Compare.{
  creation_changes, compare_for, compare_record, compare_hidden, same_strings, sort_strings,
  insert_string, bytes_leb,
}
use compage_go.Account.Compare.Agrees.{Agrees, compare_for-Agrees}
use compage_go.Account.Operation.{
  run, create, on_missing, on_existing, on_home, reconcile_changes, mutate, applied, read_back,
  check_home, on_result, unless_invalid,
}
use compage_go.Base.{All}
use compage_go.Go.Strings.Split.{Lacks}
use compage_go.Account.Compare.Multiset.{count, same_strings-count}
use compage_go.Account.Operation.Plan.{run_keeps}
use compage_go.Account.Operation.Converges.{run-Settled}

record Machine : Type 0 where
  account : Option Record
  has_home : Bool

abbrev given_uid : Option ℤ → Bytes
given_uid none = lit "500"
given_uid (some u) = itoa u

abbrev groups_of : Option (List Bytes) → List Bytes
groups_of none = []
groups_of (some gs) = gs

abbrev record_of : Spec → Record
record_of s = record {
  name = s.name;
  uid = given_uid s.uid;
  gid = lit "500";
  group = s.group;
  home = s.home;
  shell = s.shell;
  groups = groups_of s.groups;
  hidden = false;
}

abbrev find : Option Record → Result Record
find none = err (not_found [])
find (some r) = ok r

abbrev machine : Backend Machine
machine = record {
  cancelled = λ m. false;
  lookup = λ key by_id m. (find m.account, m);
  home_exists = λ path m. (ok m.has_home, m);
  preflight = λ spec there m. (ok tt, m);
  apply = λ spec existing m.
      ((creation_changes spec, none), record { account = some (record_of spec); has_home = true });
}

abbrev app : Spec
app = record {
  name = lit "app";
  uid = some (pos 7);
  group = lit "app";
  gid = none;
  groups = some (lit "www" ∷ lit "adm" ∷ []);
  home = lit "/srv/app";
  home_policy = ensure_home;
  home_mode = 0;
  shell = lit "/bin/sh";
  hidden = none;
  existing = reconcile;
}

abbrev empty : Machine
empty = record { account = none; has_home = false }

abbrev done : Machine
done = record { account = some (record_of app); has_home = true }

runs :
    (run machine linux true app true empty).1 ≡ done
    × ((run machine linux true app true empty).0.1 ≡ none)
    × ((run machine linux false app true empty).0.1 ≡ some (privilege (lit "create local account")))
    × ((run machine linux true app true done).0.0.changed ≡ [])
unfolding run on_missing on_existing on_home reconcile_changes create mutate applied read_back
    check_home on_result unless_invalid is_unix is_not_found validate valid_local_name check_groups
    validate_home compare_for compare_record compare_hidden same_strings sort_strings insert_string
    bytes_leb join itoa creation_changes lit has_prefix contains_any is_abs clean
runs = (refl, refl, refl, refl)

run_keeps_example : (run machine linux false app true empty).1 ≡ empty
run_keeps_example =
    run_keeps machine linux false app (λ m. m ≡ empty) (λ key by_id m h. h) (λ path m h. h)
      (λ there m h. h) true refl empty refl

has_home_reported : (m : Machine) → (machine.home_exists app.home m).0 ≡ ok true → m.has_home ≡ true
has_home_reported m h = ground arith

run-Settled_example :
    (compare_for linux app (run machine linux true app true empty).0.0.account ≡ [])
    × ((app.home_policy == leave_home_unchanged) ≡ false
        → (run machine linux true app true empty).1.has_home ≡ true)
run-Settled_example =
    run-Settled machine linux true app (λ m. m.has_home ≡ true) has_home_reported empty runs.1

compare_for-Agrees_example :
    (compare_for linux app (record_of app) ≡ []) ↔ Agrees linux app (record_of app)
compare_for-Agrees_example = compare_for-Agrees linux app (record_of app)

reordered : same_strings (lit "www" ∷ lit "adm" ∷ []) (lit "adm" ∷ lit "www" ∷ []) ≡ true
unfolding same_strings sort_strings insert_string bytes_leb join lit
reordered = refl

no_nul : All (Lacks 0) (lit "www" ∷ lit "adm" ∷ []) × All (Lacks 0) (lit "adm" ∷ lit "www" ∷ [])
unfolding lit
no_nul =
    let www : Lacks 0 (lit "www") = ((λ e. cc), ((λ e. cc), ((λ e. cc), tt))) in
    let adm : Lacks 0 (lit "adm") = ((λ e. cc), ((λ e. cc), ((λ e. cc), tt))) in
    ((www, (adm, tt)), (adm, (www, tt)))

same_strings-count_example :
    count (lit "adm") (lit "www" ∷ lit "adm" ∷ []) ≡ count (lit "adm") (lit "adm" ∷ lit "www" ∷ [])
same_strings-count_example =
    same_strings-count (lit "www") (lit "adm" ∷ []) (lit "adm") (lit "www" ∷ []) no_nul.0 no_nul.1
      reordered (lit "adm")

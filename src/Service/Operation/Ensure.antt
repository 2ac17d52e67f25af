-- ===== src/Service/Operation/Ensure.antt =====
-- service/operation.go: `ensure`, `checkLogParents`.
use compage_go.Base.{
  Bool, true, false, not, ◌||◌, Option, none, some, List, [], ◌∷◌, ◌++◌, nat_comparable,
  list_comparable, if◌then◌else◌, Bytes, lit,
}
use compage_go.Go.Path.{dir}
use compage_go.Service.Errors.{Failure, validation, wrapped, Result, ok, err}
use compage_go.Service.Files.{Fs, M, Info, is_dir, lift, pure, wrap, ◌>>=◌, ◌>>◌}
use compage_go.Service.Calls.{stat}
use compage_go.Service.Spec.{Specification}
use compage_go.Service.Resolve.{ManagedDirectories, resolve_directories}
use compage_go.Service.Reconcile.{Reconciled, reconcile_directories}
use compage_go.Service.Operation.{
  account_changed, directories_changed, EnsureResult, no_result, Status, Operation, admit,
  unique_reasons, check_binary, writable_directory,
}
use compage_go.Account.Spec as account

-- The interface `backend`, as far as it acts, over the files and what else its commands change.
pub record Backend (S : Type 0) : Type 0 where
  pub ensure : Operation → Fs × S → (EnsureResult × Option Failure) × (Fs × S)
  pub start : Operation → Fs × S → Option Failure × (Fs × S)
  pub restart : Operation → Fs × S → Option Failure × (Fs × S)
  pub stop : Operation → Fs × S → Option Failure × (Fs × S)
  pub uninstall : Operation → Fs × S → Option Failure × (Fs × S)
  pub status : Operation → Fs × S → Result Status × (Fs × S)

-- The field `ensureAccount`
abbrev pub EnsureAccount : Type 0 → Type 0
EnsureAccount S = account.Spec → Fs × S → (account.EnsureResult × Option Failure) × (Fs × S)

-- A result, an error or none, and the operation, whose specification gets the paths of its logs.
pub record Ensured : Type 0 where
  pub result : EnsureResult
  pub error : Option Failure
  pub operation : Operation

abbrev pub stopped_with : EnsureResult → Failure → Operation → Ensured
stopped_with r e o = record { result = r; error = some e; operation = o }

abbrev pub is_nil {ℓ} : {A : Type ℓ} → List A → Bool
is_nil [] = true
is_nil (_ ∷ _) = false

-- The user and the group that own what is managed.
abbrev pub owner_of : Operation → EnsureResult → Bytes × Bytes
owner_of o r = elim r.account [
  | none ↦ (o.user.uid, o.user.gid)
  | some a ↦ (a.account.uid, a.account.gid)
]

-- `r.Changed = true; r.Reasons = append(r.Reasons, reason)` under a condition
abbrev pub note_change : Bool → Bytes → EnsureResult → EnsureResult
note_change true reason r = record r { changed = true; reasons = r.reasons ++ reason ∷ [] }
note_change false reason r = r

abbrev pub with_account : account.EnsureResult → EnsureResult
with_account a =
    note_change (a.created || not (is_nil a.changed)) account_changed
      (record no_result { account = some a })

abbrev pub with_directories : ManagedDirectories → Reconciled → EnsureResult → EnsureResult
with_directories d c r =
    note_change (not (is_nil c.changes)) directories_changed
      (record r { directories = d.paths; directory_changes = c.changes })

-- What `ensure` adds to the result of the backend.
unfoldable pub combine : EnsureResult → EnsureResult → EnsureResult
combine r x =
    let given : EnsureResult = record x {
      account = r.account;
      directories = r.directories;
      directory_changes = r.directory_changes;
    } in
    let whole : EnsureResult =
      if r.changed
      then record given { changed = true; reasons = given.reasons ++ r.reasons }
      else given in
    record whole { reasons = unique_reasons whole.reasons }

module _ {S : Type 0} (backend : Backend S) (ensure_account : EnsureAccount S) where
  abbrev finished :
      (EnsureResult × Option Failure) × (Fs × S) → EnsureResult → Operation → Ensured × (Fs × S)
  finished ((x, e), w) r o = (record { result = combine r x; error = e; operation = o }, w)

  -- `ensure` from the result of `reconcileDirectories` on.
  unfoldable pub ensure_service :
      Operation → ManagedDirectories → EnsureResult → Reconciled × Fs → S → Ensured × (Fs × S)
  unfolding combine
  ensure_service o d r (c, fs) s =
      let after : EnsureResult = with_directories d c r in
      let o' : Operation = record o { spec = c.spec } in
      elim c.error [
        | some e ↦ (stopped_with after e o', (fs, s))
        | none ↦ finished (backend.ensure o' (fs, s)) after o'
      ]

  -- `ensure` from `resolveDirectories` on.
  unfoldable pub ensure_directories :
      Operation → EnsureResult → Result ManagedDirectories → Fs × S → Ensured × (Fs × S)
  unfolding ensure_service
  ensure_directories o r (err e) w =
      (stopped_with r (wrapped (lit "service: resolving directories") e) o, w)
  ensure_directories o r (ok d) (fs, s) =
      let owner = owner_of o r in
      ensure_service o d r (reconcile_directories o.spec d owner.0 owner.1 fs) s

  abbrev resolved : Operation → Result ManagedDirectories
  resolved o = resolve_directories o.platform o.spec o.user.home

  unfoldable pub account_ensured :
      Operation → (account.EnsureResult × Option Failure) × (Fs × S) → Ensured × (Fs × S)
  unfolding ensure_directories
  account_ensured o ((a, some e), w) =
      (stopped_with (with_account a) (wrapped (lit "service: ensuring runtime account") e) o, w)
  account_ensured o ((a, none), w) = ensure_directories o (with_account a) (resolved o) w

  -- `ensure` from `ensureAccount` on.
  unfoldable pub ensure_owner : Operation → Fs × S → Ensured × (Fs × S)
  unfolding account_ensured
  ensure_owner o w = elim o.spec.account [
    | none ↦ ensure_directories o no_result (resolved o) w
    | some a ↦ account_ensured o (ensure_account a w)
  ]

  abbrev binary_checked : Operation → Result (Unit {0}) × Fs → S → Ensured × (Fs × S)
  binary_checked o (err e, fs) s = (stopped_with no_result e o, (fs, s))
  binary_checked o (ok _, fs) s = ensure_owner o (fs, s)

  abbrev admitted : Operation → Result (Unit {0}) → Fs × S → Ensured × (Fs × S)
  admitted o (err e) w = (stopped_with no_result e o, w)
  admitted o (ok _) (fs, s) = binary_checked o (check_binary o.spec.binary fs) s

  -- `ensure`
  unfoldable pub ensure : Bool → Operation → Fs × S → Ensured × (Fs × S)
  unfolding ensure_owner
  ensure stopped o w = admitted o (admit (lit "ensure") stopped o) w

-- One log file of `checkLogParents`
unfoldable pub judge_log_parent : Bytes → Bytes → Bytes → Option Info → Result (Unit {0})
judge_log_parent parent uid gid none =
    err (validation (lit "log parent must be an existing directory: " ++ parent))
judge_log_parent parent uid gid (some i) =
    if not (is_dir i.type)
    then err (validation (lit "log parent must be an existing directory: " ++ parent))
    else elim (writable_directory i uid gid) [
      | ok _ ↦ ok tt
      | err e ↦ err (wrapped (lit "service: checking log directory access " ++ parent) e)
    ]

unfoldable pub check_log_parent : Bytes → Bytes → Bytes → M (Unit {0})
unfolding judge_log_parent
check_log_parent [] uid gid = pure tt
check_log_parent (c ∷ path) uid gid =
    let parent = dir (c ∷ path) in
    wrap (lit "service: inspecting log directory " ++ parent) (stat parent) >>= λ info.
    lift (judge_log_parent parent uid gid info)

-- `checkLogParents`
unfoldable pub check_log_parents : Specification → Bytes → Bytes → M (Unit {0})
unfolding check_log_parent
check_log_parents s uid gid = check_log_parent s.stdout uid gid >> check_log_parent s.stderr uid gid

-- ===== src/Service/Operation/Commands.antt =====
-- service/operation.go: `start`, `restart`, `stop`, `status`, `uninstall`, `purge`.
use compage_go.Base.{
  Bool, not, ◌&&◌, ◌||◌, Option, none, some, List, [], ◌∷◌, ◌==◌, nat_comparable, list_comparable,
  if◌then◌else◌, Bytes, lit,
}
use compage_go.Service.Errors.{Failure, validation, Result, ok, err}
use compage_go.Service.Files.{Fs, M, lift, pure, raise, ◌>>=◌, ◌>>◌}
use compage_go.Service.Cleanup.{cleanup_managed}
use compage_go.Service.Spec.{user}
use compage_go.Service.Resolve.{ManagedDirectories, resolve_directories}
use compage_go.Service.Operation.{Status, Operation, PurgeOptions, admit}
use compage_go.Service.Operation.Ensure.{Backend}

-- One entry of the loop of `purge`
pub record Purged : Type 0 where
  pub selected : Bool
  pub declared : Bool
  pub path : Bytes

unfoldable pub purge_items : List Purged → M (Unit {0})
purge_items [] = pure tt
purge_items (item ∷ items) =
    let next = purge_items items in
    if not item.selected
    then next
    else if not item.declared
    then raise (validation (lit "cannot purge an undeclared managed directory"))
    else cleanup_managed item.path >> next

-- The entries, in the order of the loop.
abbrev pub purged : PurgeOptions → ManagedDirectories → List Purged
purged p d =
    record { selected = p.config; declared = d.has_config; path = d.paths.config }
    ∷ record { selected = p.state; declared = d.has_state; path = d.paths.state }
    ∷ record { selected = p.logs; declared = d.has_logs; path = d.paths.logs }
    ∷ []

-- Would purging the configuration take a declared directory that is not selected with it?
abbrev pub takes_more : Operation → PurgeOptions → ManagedDirectories → Bool
takes_more o p d =
    o.spec.scope == user && p.config && (d.has_state && not p.state || d.has_logs && not p.logs)

unfoldable pub purge_resolved : Operation → PurgeOptions → ManagedDirectories → M (Unit {0})
unfolding purge_items
purge_resolved o p d =
    if takes_more o p d
    then raise (
        validation
          (lit "purging user config requires selecting its declared state and logs directories"))
    else purge_items (purged p d)

-- `purge`
unfoldable pub purge : Bool → Operation → PurgeOptions → M (Unit {0})
purge stopped o p = do
  lift (admit (lit "purge") stopped o)
  d ← lift (resolve_directories o.platform o.spec o.user.home)
  purge_resolved o p d

-- `uninstall` behind the backend's
unfoldable pub remove_runtime : Operation → M (Unit {0})
remove_runtime o = do
  d ← lift (resolve_directories o.platform o.spec o.user.home)
  if d.has_runtime then cleanup_managed d.paths.runtime else pure tt

abbrev failure_of : Result (Unit {0}) → Option Failure
failure_of (ok _) = none
failure_of (err e) = some e

module _ {S : Type 0} (backend : Backend S) where
  -- An operation that is the backend's, once it is admitted.
  abbrev after_admit :
      Result (Unit {0}) → (Fs × S → Option Failure × (Fs × S)) → Fs × S → Option Failure × (Fs × S)
  after_admit (err e) act w = (some e, w)
  after_admit (ok _) act w = act w

  -- `start`
  unfoldable pub start : Bool → Operation → Fs × S → Option Failure × (Fs × S)
  start stopped o = after_admit (admit (lit "start") stopped o) (backend.start o)

  -- `restart`
  unfoldable pub restart : Bool → Operation → Fs × S → Option Failure × (Fs × S)
  restart stopped o = after_admit (admit (lit "restart") stopped o) (backend.restart o)

  -- `stop`
  unfoldable pub stop : Bool → Operation → Fs × S → Option Failure × (Fs × S)
  stop stopped o = after_admit (admit (lit "stop") stopped o) (backend.stop o)

  abbrev status_after : Result (Unit {0}) → Operation → Fs × S → Result Status × (Fs × S)
  status_after (err e) o w = (err e, w)
  status_after (ok _) o w = backend.status o w

  -- `status`
  unfoldable pub status : Bool → Operation → Fs × S → Result Status × (Fs × S)
  status stopped o = status_after (admit (lit "status") stopped o) o

  abbrev files_of : Result (Unit {0}) × Fs → S → Option Failure × (Fs × S)
  files_of (r, fs) s = (failure_of r, (fs, s))

  unfoldable pub runtime_removed : Operation → Option Failure × (Fs × S) → Option Failure × (Fs × S)
  runtime_removed o (some e, w) = (some e, w)
  runtime_removed o (none, (fs, s)) = files_of (remove_runtime o fs) s

  -- `uninstall`
  unfoldable pub uninstall : Bool → Operation → Fs × S → Option Failure × (Fs × S)
  unfolding runtime_removed
  uninstall stopped o =
      after_admit (admit (lit "uninstall") stopped o) λ w. runtime_removed o (backend.uninstall o w)

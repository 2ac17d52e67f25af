-- ===== src/Service/Operation/Purge.antt =====
-- The files that `purge` of service/operation.go reaches.
use compage_go.Base.{◌≡◌, ◌⊎◌, true, false, List, list_comparable, nat_comparable, Bytes, All}
use compage_go.Service.Errors.{Result}
use compage_go.Service.Files.{Fs}
use compage_go.Service.Calls.{is_under}
use compage_go.Service.Resolve.{ManagedDirectories}
use compage_go.Service.Spec.{user}
use compage_go.Service.Operation.{Operation, PurgeOptions}
use compage_go.Service.Operation.Commands.{Purged}

-- `q` lies below none of the directories that are selected.
abbrev pub Spared : Bytes → List Purged → Type 0
Spared q items = All (λ i. i.selected ≡ true → is_under i.path q ≡ false) items

-- The configuration of a user's service is selected, and a declared directory of state or of logs is
-- not selected with it.
abbrev pub LeavesOut : Operation → PurgeOptions → ManagedDirectories → Type 0
LeavesOut o p d =
    (o.spec.scope ≡ user)
    × (p.config ≡ true)
    × ((d.has_state ≡ true) × (p.state ≡ false) ⊎ (d.has_logs ≡ true) × (p.logs ≡ false))

module _ (q : Bytes) where
  -- the file at `q` is as it was
  abbrev Kept : {A : Type 0} → Fs → Result A × Fs → Type 0
  Kept fs r = r.1.node q ≡ fs.node q

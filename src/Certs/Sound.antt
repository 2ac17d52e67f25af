-- ===== src/Certs/Sound.antt =====
-- Which private keys an authority holds, and where: what certs/authority.go and
-- certs/authority_operations.go keep up between them.
pub mod Made
pub mod Issuer
pub mod Loops
pub mod Stage
pub mod Free
pub mod Provision
pub mod Ensured
pub mod Promoted
pub mod Promotion
pub mod Withdrawal
pub mod Changes
pub mod Reach
pub mod Kept
pub mod Operations
use compage_go.Base.{
  ℕ, ◌+◌, ◌≤◌, ◌<◌, ◌≡◌, ◌≢◌, Bool, true, false, Option, none, some, List, [], nat_comparable,
  list_comparable, ◌==◌, if◌then◌else◌, Bytes, lit,
}
use compage_go.Go.Map.{Map, lookup, UniqueKeys}
use compage_go.Certs.State.{RootRecord, IssuerVersion, IssuerRecord, PendingManifest, State}
use compage_go.Certs.Validate.{is_root, pending_generation, root_needs_key}

-- version `n` is there, under root `g`, with its key
abbrev pub HasVersionKey : IssuerRecord → ℕ → ℕ → Type 0
HasVersionKey i n g =
    (v : IssuerVersion) × (lookup n i.versions ≡ some v)
    × (v.root_generation ≡ g)
    × (v.key_der ≢ [])

abbrev pub HasRootKey : Map ℕ RootRecord → ℕ → Type 0
HasRootKey roots g = (r : RootRecord) × (lookup g roots ≡ some r) × (r.encrypted_key_der ≢ [])

-- what is staged: the version after the active one, under root `g`, with its key
abbrev pub IsStaged : ℕ → Option ℕ → IssuerRecord → Type 0
IsStaged g none i = Unit
IsStaged g (some n) i = HasVersionKey i n g × (n ≡ i.active_version + 1)

-- The active version of an issuer is under the root `active`, a staged one under `staged`; these have
-- their keys, and no other version has.
pub record IsSoundIssuer (active staged : ℕ) (pending : Option ℕ) (i : IssuerRecord) : Type 0 where
  pub active_key : HasVersionKey i i.active_version active
  pub staged_key : IsStaged staged pending i
  pub retired :
      (n : ℕ) (v : IssuerVersion)
      → lookup n i.versions ≡ some v
      → n ≢ i.active_version
      → pending ≢ some n
      → v.key_der ≡ []

abbrev pub staged_version : Option PendingManifest → Bytes → Option ℕ
staged_version none slug = none
staged_version (some p) slug = lookup slug p.issuers

abbrev pub staged_generation : State → ℕ
staged_generation s = if is_root s.pending then pending_generation s.pending else s.active_root

-- A pending root is new and has its key, and every issuer has a version staged.
abbrev pub IsSoundPending : State → Option PendingManifest → Type 0
IsSoundPending s none = Unit
IsSoundPending s (some p) =
    UniqueKeys p.issuers
    × ((p.kind == lit "root") ≡ true
        → HasRootKey s.roots p.root_generation
          × (s.active_root < p.root_generation)
          × ((slug : Bytes) (i : IssuerRecord)
              → lookup slug s.issuers ≡ some i
              → (n : ℕ) × (lookup slug p.issuers ≡ some n)))
    × ((p.kind == lit "root") ≡ false → p.root_generation ≡ 0)

pub record IsSound (s : State) : Type 0 where
  pub root_key : HasRootKey s.roots s.active_root
  pub retired_roots :
      (g : ℕ) (r : RootRecord)
      → lookup g s.roots ≡ some r
      → root_needs_key s g ≡ false
      → r.encrypted_key_der ≡ []
  pub issuers :
      (slug : Bytes) (i : IssuerRecord)
      → lookup slug s.issuers ≡ some i
      → IsSoundIssuer s.active_root (staged_generation s) (staged_version s.pending slug) i
  pub pending : IsSoundPending s s.pending

-- ===== src/Certs/Authority/Promote.antt =====
-- certs/authority_operations.go: the changes of the state that `PromotePending`, `DiscardPending` and
-- `PruneRoot` pass to the store, and `ledgerTrustDeadline`.
use compage_go.Base.{
  ℕ, ◌+◌, not, ◌&&◌, ◌||◌, Option, none, some, List, [], ◌∷◌, ◌==◌, nat_comparable, list_comparable,
  if◌then◌else◌, Bytes, lit, ltb,
}
use compage_go.Go.Map.{Map, lookup, put, delete}
use compage_go.Certs.Errors.{
  validation_error, not_found_error, conflict_error, drift_error, corrupt_error, panicked, Result,
  ok, err, ◌>>=◌, ◌>>◌, refuse,
}
use compage_go.Certs.Crypto.{Crypto, or_error, parse_key_der, public_keys_equal}
use compage_go.Certs.State.{
  RootRecord, IssuerVersion, IssuerRecord, PendingManifest, State, clock_skew,
  maximum_leaf_validity,
}
use compage_go.Certs.Store.{Store, LedgerRecord, load_unlocks, read_ledger}
use compage_go.Certs.Validate.{is_pending, pending_generation}
use compage_go.Certs.Manager.{Config, secret_of, stored_secret, assert_spec}

-- `ledgerTrustDeadline`, over the records of all pages; 0 is the zero time.
unfoldable pub extend_deadline : State → ℕ → LedgerRecord → ℕ → ℕ
extend_deadline s generation r deadline = of_issuer (lookup r.issuer s.issuers)
  where
    of_version : Option IssuerVersion → ℕ
    of_version none = deadline
    of_version (some v) =
        if v.root_generation == generation && ltb deadline (r.expires_at + clock_skew)
        then r.expires_at + clock_skew
        else deadline

    of_issuer : Option IssuerRecord → ℕ
    of_issuer none = deadline
    of_issuer (some issuer) = of_version (lookup r.issuer_version issuer.versions)

unfoldable pub ledger_trust_deadline : State → ℕ → List LedgerRecord → ℕ → ℕ
ledger_trust_deadline s generation [] deadline = deadline
ledger_trust_deadline s generation (r ∷ rest) deadline =
    ledger_trust_deadline s generation rest (extend_deadline s generation r deadline)

-- Until when a root that is replaced now stays trusted; the ledger is read if there is one.
unfoldable pub retire_deadline : State → ℕ → Result (List LedgerRecord) → ℕ → Result ℕ
retire_deadline s old ledger now =
    if s.spec.issuance_mode == lit "ledger"
    then (ledger >>= λ records. ok (or_now (ledger_trust_deadline s old records 0)))
    else ok (now + (maximum_leaf_validity + clock_skew))
  where
    or_now : ℕ → ℕ
    or_now deadline = if deadline == 0 then now else deadline

-- The old root loses its key and is trusted until `deadline`.
unfoldable pub retire_root : ℕ → RootRecord → RootRecord
retire_root deadline r = record r { encrypted_key_der = []; retired_trust_until = deadline }

unfoldable pub promote_root :
    ℕ → Result (List LedgerRecord) → PendingManifest → State → Result State
promote_root now ledger p s = do
  old ← or_error (lookup s.active_root s.roots) panicked
  deadline ← retire_deadline (record s { active_root = p.root_generation }) s.active_root ledger now
  ok (record s {
    active_root = p.root_generation;
    roots = put s.active_root (retire_root deadline old) s.roots;
  })

abbrev pub drop_key : IssuerVersion → IssuerVersion
drop_key v = record v { key_der = [] }

-- one round of the last loop: version `v` is active, and the version that was loses its key
unfoldable pub promote_issuer : ℕ → IssuerRecord → IssuerRecord
promote_issuer v issuer = record issuer {
  active_version = v;
  versions = without_key (lookup issuer.active_version issuer.versions);
}
  where
    without_key : Option IssuerVersion → Map ℕ IssuerVersion
    without_key none = issuer.versions
    without_key (some old) = put issuer.active_version (drop_key old) issuer.versions

-- The loops over `p.Issuers` that change each issuer; a missing one is a nil pointer followed.
unfoldable pub for_pending :
    (ℕ → IssuerRecord → IssuerRecord)
    → Map Bytes ℕ
    → Map Bytes IssuerRecord
    → Result (Map Bytes IssuerRecord)
for_pending change [] issuers = ok issuers
for_pending change ((slug, v) ∷ rest) issuers =
    or_error (lookup slug issuers) panicked >>= λ issuer.
    for_pending change rest (put slug (change v issuer) issuers)

module _ (x : Crypto) where
  open x use {public, parse_certificate}

  -- the secret of a pending root, and the check that it opens the key of the root's certificate
  unfoldable pub check_pending_root : Bytes → Map ℕ Bytes → Store → ℕ → State → Result (Unit {0})
  check_pending_root unlock generated st g s = do
    secret ← choose unlock
    refuse (secret == []) (not_found_error (lit "unlock secret for pending root"))
    r ← or_error (lookup g s.roots) panicked
    key ← unlocked (parse_key_der x r.encrypted_key_der secret)
    cert ← or_error (parse_certificate r.certificate_der) panicked
    refuse (not (public_keys_equal x (public key) cert.public_key))
        (corrupt_error (lit "pending root key mismatch"))
    where
      unlocked : Result x.Key → Result x.Key
      unlocked (ok key) = ok key
      unlocked (err e) = err (validation_error (lit "pending root unlock secret is incorrect"))

      from_manager : Bytes → Result Bytes
      from_manager [] = stored_secret (load_unlocks st) g
      from_manager (c ∷ secret) = ok (c ∷ secret)

      choose : Bytes → Result Bytes
      choose [] = from_manager (secret_of generated g)
      choose (c ∷ secret) = ok (c ∷ secret)

  -- the loop that checks the key of each pending version
  unfoldable pub check_pending_issuers : State → Map Bytes ℕ → Result (Unit {0})
  check_pending_issuers s [] = ok tt
  check_pending_issuers s ((slug, v) ∷ rest) = do
    issuer ← or_error (lookup slug s.issuers) panicked
    version ← or_error (lookup v issuer.versions) panicked
    key ← parse_key_der x version.key_der []
    cert ← or_error (parse_certificate version.certificate_der) panicked
    refuse (not (public_keys_equal x (public key) cert.public_key))
        (corrupt_error (lit "pending issuer key mismatch"))
    check_pending_issuers s rest

  -- The closure of `PromotePending`, on a state with something pending.
  unfoldable pub promote : Bytes → Map ℕ Bytes → Store → ℕ → PendingManifest → State → Result State
  promote unlock generated st now p s = do
    (if p.kind == lit "root"
        then check_pending_root unlock generated st p.root_generation s
        else ok tt)
    check_pending_issuers s p.issuers
    rooted ← (if p.kind == lit "root" then promote_root now (read_ledger st) p s else ok s)
    issuers ← for_pending promote_issuer p.issuers rooted.issuers
    ok (record rooted { issuers = issuers; pending = none })

  unfoldable pub promote_change : Bytes → Map ℕ Bytes → Config → Store → ℕ → State → Result State
  promote_change unlock generated config st now s = assert_spec config st s >> on_pending s.pending
    where
      on_pending : Option PendingManifest → Result State
      on_pending none = err (not_found_error (lit "pending operation"))
      on_pending (some p) = promote unlock generated st now p s

-- one round of the loop of `DiscardPending`
unfoldable pub discard_version : ℕ → IssuerRecord → IssuerRecord
discard_version v issuer = record issuer { versions = delete v issuer.versions }

unfoldable pub discard : PendingManifest → State → Result State
discard p s = for_pending discard_version p.issuers s.issuers >>= λ issuers. ok (record s {
  roots = if p.root_generation == 0 then s.roots else delete p.root_generation s.roots;
  issuers = issuers;
  pending = none;
})

unfoldable pub discard_change : Config → Store → State → Result State
discard_change config st s = assert_spec config st s >> on_pending s.pending
  where
    on_pending : Option PendingManifest → Result State
    on_pending none = err (not_found_error (lit "pending operation"))
    on_pending (some p) = discard p s

-- the closure of `PruneRoot`
unfoldable pub prune_change : ℕ → Bytes → ℕ → State → Result State
prune_change generation expected now s =
    refuse
      (generation == s.active_root
        || (is_pending s.pending && generation == pending_generation s.pending))
      (conflict_error (lit "cannot prune an active or pending root"))
    >> pruned (lookup generation s.roots)
  where
    pruned : Option RootRecord → Result State
    pruned none = err (not_found_error (lit "root generation"))
    pruned (some r) = do
      refuse (not (r.fingerprint == expected)) (drift_error (lit "root fingerprint"))
      refuse (ltb now r.retired_trust_until)
          (conflict_error (lit "root is still inside its required trust window"))
      ok (record s { roots = put generation (record r { retired_trust_until = 0 }) s.roots })

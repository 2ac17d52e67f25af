-- ===== src/Certs/Authority/Operations.antt =====
-- certs/authority_operations.go: the operations of an `AuthorityManager` but for `Ensure`. The secrets
-- that a manager forgets are also overwritten, which the model does not see.
use compage_go.Base.{
  ℕ, Bool, true, false, not, ◌||◌, Option, none, some, [], ◌∷◌, ◌==◌, nat_comparable,
  list_comparable, if◌then◌else◌, Bytes, lit,
}
use compage_go.Go.Map.{Map, lookup, put, delete}
use compage_go.Certs.Errors.{
  validation_error, drift_error, partial_operation_error, panicked, Result, ok, err, ◌>>=◌, ◌>>◌,
  refuse,
}
use compage_go.Certs.Definition.{IssuerDefinition}
use compage_go.Certs.Crypto.{Crypto, or_error}
use compage_go.Certs.State.{PendingManifest, State}
use compage_go.Certs.Store.{Store, load, load_unlocks, store_unlocks, update}
use compage_go.Certs.Store
use compage_go.Certs.Validate.{is_root, pending_generation}
use compage_go.Certs.Manager.{Manager, secret_of}
use compage_go.Certs.Authority.Unlocks.{closed_error}
use compage_go.Certs.Authority.Promote.{promote_change, discard_change, prune_change}

pub record PromotionResult : Type 0 where
  pub root_generation : ℕ
  pub revision : ℕ

-- the entries of a map at the keys that are kept
unfoldable pub only : ℕ → Map ℕ Bytes → Map ℕ Bytes
only g [] = []
only g ((j, v) ∷ m) = if j == g then (j, v) ∷ only g m else only g m

unfoldable pub put_given : ℕ → Bytes → Map ℕ Bytes → Map ℕ Bytes
put_given g [] m = m
put_given g (c ∷ v) m = put g (c ∷ v) m

unfoldable pub secret_given : Bytes → Bytes → Bytes
secret_given [] second = second
secret_given (c ∷ v) second = c ∷ v

module _ (x : Crypto) (parse_scheme : Bytes → Option Bytes)
    (definitions_equal : IssuerDefinition → IssuerDefinition → Bool) where
  -- a change that captures nothing
  unfoldable pub plain : (State → Result State) → State → Unit {0} → Result State × Unit {0}
  plain change s c = (change s, c)

  -- an update, unless the manager is closed
  unfoldable pub update_unless : Bool → (State → Result State) → Store → Result (Unit {0}) × Store
  unfolding plain
  update_unless true change st = (err closed_error, st)
  update_unless false change st =
      let (r, (_, st')) = update x parse_scheme definitions_equal (plain change) tt st in (r, st')

  -- `PromotePending` behind the update: the local unlocks keep the secret of the active root only
  kept_unlocks : Map ℕ Bytes → Map ℕ Bytes → Bytes → ℕ → Map ℕ Bytes
  unfolding put_given
  kept_unlocks unlocks generated promoted g =
      put_given g promoted
        (put_given g (secret_of generated g) (put_given g (secret_of unlocks g) []))

  -- `promotedSecret`: set where the pending operation is of a root
  promoted_secret : Bytes → Map ℕ Bytes → Option PendingManifest → Bytes
  unfolding secret_given
  promoted_secret unlock generated pending =
      if is_root pending
      then secret_given unlock (secret_of generated (pending_generation pending))
      else []

  unfoldable pub after_promotion : Map ℕ Bytes → Bytes → State → Store → Result (Unit {0}) × Store
  unfolding kept_unlocks
  after_promotion generated promoted s st = with_unlocks (load_unlocks st)
    where
      partial : Result (Unit {0}) × Store → Result (Unit {0}) × Store
      partial (ok u, st') = (ok u, st')
      partial (err e, st') = (err (partial_operation_error (lit "promotion unlock cleanup") e), st')

      stored : Map ℕ Bytes → Result (Unit {0}) × Store
      stored [] = (ok tt, st)
      stored (kept ∷ rest) = partial (store_unlocks (kept ∷ rest) true st)

      with_unlocks : Result (Map ℕ Bytes) → Result (Unit {0}) × Store
      with_unlocks (err e) = (ok tt, st)
      with_unlocks (ok unlocks) = stored (kept_unlocks unlocks generated promoted s.active_root)

  -- The pending operation of the state that the update reads, for the secret that it captures.
  pending_of : Option State → Option PendingManifest
  pending_of none = none
  pending_of (some s) = s.pending

  -- `PromotePending` behind the cleanup of the local unlocks
  unfoldable pub promotion_cleaned :
      Manager → State → Result (Unit {0}) × Store → Result PromotionResult × (Manager × Store)
  promotion_cleaned m s (err e, st') = (err e, (m, st'))
  promotion_cleaned m s (ok _, st') = (
    ok (record { root_generation = s.active_root; revision = s.revision }),
    (record m { generated = only s.active_root m.generated }, st'),
  )

  -- ... behind the second `load`
  unfoldable pub promotion_loaded :
      Manager → Bytes → Result State → Store → Result PromotionResult × (Manager × Store)
  promotion_loaded m promoted (err e) st' = (err e, (m, st'))
  promotion_loaded m promoted (ok s) st' =
      promotion_cleaned m s (after_promotion m.generated promoted s st')

  -- ... behind the update
  unfoldable pub promotion_updated :
      Manager → Bytes → Result (Unit {0}) × Store → Result PromotionResult × (Manager × Store)
  promotion_updated m promoted (err e, st') = (err e, (m, st'))
  promotion_updated m promoted (ok _, st') =
      promotion_loaded m promoted (load x parse_scheme definitions_equal st') st'

  unfoldable pub promote_pending :
      Bytes → ℕ → Manager → Store → Result PromotionResult × (Manager × Store)
  unfolding promoted_secret pending_of
  promote_pending unlock now m st =
      promotion_updated m (promoted_secret unlock m.generated (pending_of st.stored))
        (update_unless m.closed (promote_change x unlock m.generated m.config st now) st)

  -- `DiscardPending` behind the update; `g` is the generation of the root that was pending, 0 if
  -- there was none
  unfoldable pub discard_updated :
      Manager → ℕ → Result (Unit {0}) × Store → Result (Unit {0}) × (Manager × Store)
  discard_updated m g (err e, st') = (err e, (m, st'))
  discard_updated m g (ok _, st') = with_unlocks (load_unlocks st')
    where
      forget : Manager
      forget = record m { generated = delete g m.generated }

      partial : Result (Unit {0}) × Store → Result (Unit {0}) × (Manager × Store)
      partial (ok u, s) = (ok u, (forget, s))
      partial (err e, s) =
          (err (partial_operation_error (lit "discard unlock cleanup") e), (forget, s))

      with_unlocks : Result (Map ℕ Bytes) → Result (Unit {0}) × (Manager × Store)
      with_unlocks (err e) = (ok tt, (forget, st'))
      with_unlocks (ok unlocks) = partial (store_unlocks (delete g unlocks) true st')

  unfoldable pub discard_pending : Manager → Store → Result (Unit {0}) × (Manager × Store)
  unfolding pending_of
  discard_pending m st =
      discard_updated m (pending_generation (pending_of st.stored))
        (update_unless m.closed (discard_change m.config st) st)

  unfoldable pub prune_root : ℕ → Bytes → ℕ → Store → Result (Unit {0}) × Store
  prune_root generation expected now st =
      if generation == 0 || expected == []
      then (err (validation_error (lit "generation and fingerprint are required")), st)
      else update_unless false (prune_change generation expected now) st

  unfoldable pub purge : Bytes → Bytes → Manager → Store → Result (Unit {0}) × (Manager × Store)
  purge expected_id expected_fingerprint m st = checked (
      load x parse_scheme definitions_equal st >>= λ s.
      refuse (expected_id == [] || expected_fingerprint == [])
        (validation_error (lit "expected authority ID and root fingerprint are required"))
      >> (refuse (not (s.spec.id == expected_id)) (drift_error (lit "authority ID"))
          >> (or_error (lookup s.active_root s.roots) panicked >>= λ root.
              refuse (not (root.fingerprint == expected_fingerprint))
                (drift_error (lit "root fingerprint")))))
    where
      purged : Result (Unit {0}) × Store → Result (Unit {0}) × (Manager × Store)
      purged (err e, st') = (err e, (m, st'))
      purged (ok _, st') = (ok tt, (record m { generated = []; closed = true }, st'))

      checked : Result (Unit {0}) → Result (Unit {0}) × (Manager × Store)
      checked (err e) = (err e, (m, st))
      checked (ok _) = purged (Store.purge st)

-- `Close`: a second call does nothing.
unfoldable pub close : Manager → Manager
close m = elim m.closed [ true ↦ m | false ↦ record m { generated = []; closed = true } ]

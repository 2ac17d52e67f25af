-- ===== src/Certs/Authority/Ensure.antt =====
-- certs/authority.go: `Ensure`.
pub mod Stuck
use compage_go.Base.{
  ℕ, zero, suc, ◌+◌, ◌≤◌, ◌<◌, ◌≡◌, Bool, true, false, not, ◌&&◌, ◌||◌, Option, none, some, List,
  [], ◌∷◌, ◌++◌, ◌==◌, nat_comparable, list_comparable, if◌then◌else◌, Bytes, lit, ltb, leb, length,
}
use compage_go.Go.Strconv.{ℤ, pos, negsuc, int_comparable}
use compage_go.Go.Map.{Map, lookup, put}
use compage_go.Certs.Errors.{
  Failure, PendingKind, pending_none, pending_root, pending_issuer, validation_error, drift_error,
  conflict_error, pending_conflict_error, no_mutation, panicked, Result, ok, err, ◌>>=◌, ◌>>◌,
  refuse,
}
use compage_go.Certs.Names.{normalize_display_name}
use compage_go.Certs.Definition.{IssuerDefinition}
use compage_go.Certs.Crypto.{Cert, Crypto, or_error, parse_cert_der}
use compage_go.Certs.State.{
  RootRecord, IssuerVersion, IssuerRecord, PendingManifest, State, AuthoritySpec,
}
use compage_go.Certs.Store.{Store, load, update}
use compage_go.Certs.Authority.{provision, prepare_root, prepare_issuers}
use compage_go.Certs.Making.{make_issuer}
use compage_go.Certs.Manager.{Config, Manager, add_time, assert_spec, active_root_signer}
use compage_go.Certs.Authority.Due.{
  EnsureOptions, EnsureResult, no_result, default_rotate_before, pending_kind_of, is_negative,
  check_rotations, check_options, is_due, collides, active_certificate, active_root_certificate,
  due_issuers,
}

module _ (x : Crypto) (parse_scheme : Bytes → Option Bytes)
    (definitions_equal : IssuerDefinition → IssuerDefinition → Bool) (o : EnsureOptions) (now : ℕ)
    (st : Store) where
  -- the loop over the declared issuers: the state, `result.Issuers`, and the draws
  unfoldable pub add_issuers :
      Manager → List IssuerDefinition → ℕ → State → List Bytes → Result (State × List Bytes)
  add_issuers m [] draw s names = ok (s, names)
  add_issuers m (d ∷ ds) draw s names = elim (lookup d.slug_name s.issuers) [
    | some issuer ↦
        refuse (not (definitions_equal issuer.definition d)) (drift_error (lit "issuer "))
        >> add_issuers m ds (draw + 1) s names
    | none ↦ do
      refuse (collides d s.issuers) (conflict_error (lit "issuer slug collision"))
      key ← active_root_signer x m.config m.generated st s
      root ← or_error (lookup s.active_root s.roots) panicked
      v ← make_issuer x s.spec s.active_root 1 d root key now draw
      add_issuers m ds (draw + 1)
          (record s {
            issuers =
                put d.slug_name
                  (record { definition = d; active_version = 1; versions = (1, v) ∷ [] }) s.issuers;
          })
          (names ++ d.name ∷ [])
  ]

  -- behind the loop over the declared issuers: rotation. `changed` are the issuers that were added.
  unfoldable pub rotate_issuers :
      List Bytes → List Bytes → State → Manager → Result State × (Manager × EnsureResult)
  rotate_issuers names [] s m =
      let r = record no_result { root_generation = s.active_root; issuers = names } in
      if names == [] then (err no_mutation, (m, r)) else (ok s, (m, r))
  rotate_issuers names (slug ∷ due) s m =
      let (prepared, m') = prepare_issuers x st (slug ∷ due) now s m in
      (
        prepared,
        (
          m',
          record no_result {
            pending = true;
            pending_kind = pending_issuer;
            root_generation = s.active_root;
            issuers = names;
          },
        ),
      )

  unfoldable pub rotate_root :
      List Bytes → State → Manager → Result State × (Manager × EnsureResult)
  rotate_root names s m = let (prepared, m') = prepare_root x now s m in generation prepared m'
    where
      pending_generation : Option PendingManifest → ℕ
      pending_generation none = 0
      pending_generation (some p) = p.root_generation

      generation : Result State → Manager → Result State × (Manager × EnsureResult)
      generation (err e) m' = (err e, (m', no_result))
      generation (ok s') m' = (
        ok s',
        (
          m',
          record no_result {
            pending = true;
            pending_kind = pending_root;
            root_generation = pending_generation s'.pending;
            issuers = names;
          },
        ),
      )

  unfoldable pub rotate : List Bytes → State → Manager → Result State × (Manager × EnsureResult)
  rotate names s m = with_root (active_root_certificate x s)
    where
      with_due : Result (List Bytes) → Result State × (Manager × EnsureResult)
      with_due (err e) = (err e, (m, no_result))
      with_due (ok due) = rotate_issuers names due s m

      with_root : Result Cert → Result State × (Manager × EnsureResult)
      with_root (err e) = (err e, (m, no_result))
      with_root (ok root) =
          if is_due now o.root_rotate_before root.not_after
          then rotate_root names s m
          else with_due (due_issuers x now o.issuer_rotate_before s.issuers)

  -- an authority that is there already
  unfoldable pub reconcile : State → Manager → Result State × (Manager × EnsureResult)
  reconcile s m = added checked
    where
      undecided : Option PendingManifest → Result (Unit {0})
      undecided none = ok tt
      undecided (some p) = err (pending_conflict_error (pending_kind_of p.kind))

      checked : Result (State × List Bytes)
      checked =
          assert_spec m.config st s
          >> (undecided s.pending
              >> (active_root_signer x m.config m.generated st s >>= λ _.
                  add_issuers m m.config.issuers m.seed s []))

      after : Manager
      after = record m { seed = m.seed + length m.config.issuers }

      added : Result (State × List Bytes) → Result State × (Manager × EnsureResult)
      added (err e) = (err e, (after, no_result))
      added (ok (s', names)) = rotate names s' after

  -- the closure that `Ensure` passes to the store
  unfoldable pub ensure_change :
      State → Manager × EnsureResult → Result State × (Manager × EnsureResult)
  ensure_change s (m, r) =
      if s.spec.id == [] then provisioned (provision x st.store_kind now s m) else reconcile s m
    where
      provisioned : Result State × Manager → Result State × (Manager × EnsureResult)
      provisioned (err e, m') = (err e, (m', no_result))
      provisioned (ok s', m') =
          (ok s', (m', record no_result { created = true; root_generation = 1 }))

  -- what `Ensure` reports after the update
  unfoldable pub report : EnsureResult → Store → Result EnsureResult
  report r st' = load x parse_scheme definitions_equal st' >>= λ s. ok (record r {
    revision = s.revision;
    root_generation = if r.root_generation == 0 then s.active_root else r.root_generation;
  })

  -- `Ensure` behind the update
  unfoldable pub ensured :
      Result (Unit {0}) × ((Manager × EnsureResult) × Store)
      → Result EnsureResult × (Manager × Store)
  ensured (err e, ((m, r), st')) = (err e, (m, st'))
  ensured (ok _, ((m, r), st')) = (report r st', (m, st'))

  -- `Ensure` behind the checks of its options: is the manager closed?
  unfoldable pub ensure_unless : Bool → Manager → Result EnsureResult × (Manager × Store)
  ensure_unless true m = (err (conflict_error (lit "authority manager is closed")), (m, st))
  ensure_unless false m =
      ensured (update x parse_scheme definitions_equal ensure_change (m, no_result) st)

  unfoldable pub ensure : Manager → Result EnsureResult × (Manager × Store)
  ensure m = checked (check_options o)
    where
      checked : Result (Unit {0}) → Result EnsureResult × (Manager × Store)
      checked (err e) = (err e, (m, st))
      checked (ok _) = ensure_unless m.closed m

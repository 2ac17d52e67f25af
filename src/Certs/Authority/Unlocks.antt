-- ===== src/Certs/Authority/Unlocks.antt =====
-- certs/authority_operations.go: `ExportGeneratedUnlock`, `StoreLocalUnlock`, `Inspect` and `Repair`.
use compage_go.Base.{
  ℕ, Bool, true, not, ◌&&◌, Option, none, some, List, [], ◌∷◌, ◌==◌, nat_comparable,
  list_comparable, if◌then◌else◌, Bytes, lit,
}
use compage_go.Go.Map.{Map, lookup, put}
use compage_go.Certs.Errors.{
  Failure, PendingKind, pending_none, not_found_error, conflict_error, panicked, is_not_found,
  Result, ok, err, ◌>>=◌, ◌>>◌, refuse,
}
use compage_go.Certs.Definition.{IssuerDefinition}
use compage_go.Certs.Crypto.{Crypto, or_error}
use compage_go.Certs.State.{IssuerRecord, PendingManifest, State}
use compage_go.Certs.Store.{Store, load, load_unlocks, store_unlocks}
use compage_go.Certs.Validate.{validate_state, is_root, pending_generation}
use compage_go.Certs.Manager.{Manager, secret_of}
use compage_go.Certs.Authority.Due.{pending_kind_of}

pub record Inspection : Type 0 where
  pub authority_id : Bytes
  pub revision : ℕ
  pub authority_name : Bytes
  pub active_root : ℕ
  pub active_root_fingerprint : Bytes
  pub pending_kind : PendingKind
  pub issuers : Map Bytes ℕ

abbrev pub closed_error : Failure
closed_error = conflict_error (lit "authority manager is closed")

module _ (x : Crypto) (parse_scheme : Bytes → Option Bytes)
    (definitions_equal : IssuerDefinition → IssuerDefinition → Bool) where
  unfoldable pub export_generated_unlock : Manager → Store → Result Bytes
  export_generated_unlock m st = do
    refuse m.closed closed_error
    s ← load x parse_scheme definitions_equal st
    let g = if is_root s.pending then pending_generation s.pending else s.active_root
    refuse (secret_of m.generated g == []) (not_found_error (lit "newly generated unlock secret"))
    ok (secret_of m.generated g)

  -- the generations whose secrets `StoreLocalUnlock` needs
  required : State → List ℕ
  required s = s.active_root ∷ (if is_root s.pending then pending_generation s.pending ∷ [] else [])

  -- `current` is what is stored, and a manager's own secret goes before it
  fill : Manager → ℕ → List ℕ → Map ℕ Bytes → Map ℕ Bytes
  fill m active [] values = values
  fill m active (g ∷ gs) values = fill m active gs (filled (secret_of m.generated g))
    where
      filled : Bytes → Map ℕ Bytes
      filled (c ∷ v) = put g (c ∷ v) values
      filled [] =
          if secret_of values g == [] && (g == active && not (m.config.root_unlock == []))
          then put g m.config.root_unlock values
          else values

  all_present : List ℕ → Map ℕ Bytes → Bool
  all_present [] values = true
  all_present (g ∷ gs) values = not (secret_of values g == []) && all_present gs values

  unfoldable pub store_local_unlock : Bool → Manager → Store → Result (Unit {0}) × Store
  unfolding required fill all_present
  store_local_unlock replace m st = chosen (
      refuse m.closed closed_error
      >> (load x parse_scheme definitions_equal st >>= λ s. current (load_unlocks st) >>= λ held.
          let values = fill m s.active_root (required s) held in
          refuse (not (all_present (required s) values))
            (not_found_error (lit "unlock secret for root"))
          >> ok values))
    where
      current : Result (Map ℕ Bytes) → Result (Map ℕ Bytes)
      current (ok held) = ok held
      current (err e) = if is_not_found e then ok [] else err e

      chosen : Result (Map ℕ Bytes) → Result (Unit {0}) × Store
      chosen (err e) = (err e, st)
      chosen (ok values) = store_unlocks values replace st

  active_versions : Map Bytes IssuerRecord → Map Bytes ℕ
  active_versions [] = []
  active_versions ((slug, issuer) ∷ rest) =
      put issuer.definition.name issuer.active_version (active_versions rest)

  unfoldable pub inspect : Store → Result Inspection
  unfolding active_versions
  inspect st = do
    s ← load x parse_scheme definitions_equal st
    root ← or_error (lookup s.active_root s.roots) panicked
    ok (record {
      authority_id = s.spec.id;
      revision = s.revision;
      authority_name = s.spec.name;
      active_root = s.active_root;
      active_root_fingerprint = root.fingerprint;
      pending_kind = kind_of s.pending;
      issuers = active_versions s.issuers;
    })
    where
      kind_of : Option PendingManifest → PendingKind
      kind_of none = pending_none
      kind_of (some p) = pending_kind_of p.kind

  unfoldable pub repair : Store → Result (Unit {0})
  repair st =
      load x parse_scheme definitions_equal st >>= validate_state x parse_scheme definitions_equal

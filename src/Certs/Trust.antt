-- ===== src/Certs/Trust.antt =====
-- certs/trust.go, and `newTrustBundle` of certs/trust_bundle.go.
pub mod Rotation
pub mod Leaves
pub mod Signed
pub mod Bundle
use compage_go.Base.{
  ℕ, zero, suc, ◌+◌, ◌≤◌, ◌<◌, ◌≡◌, Bool, true, false, not, ◌&&◌, ◌||◌, Option, none, some, List,
  [], ◌∷◌, ◌++◌, ◌==◌, nat_comparable, list_comparable, if◌then◌else◌, Bytes, lit, ltb,
}
use compage_go.Base.Members.{contains}
use compage_go.Go.Map.{Map, lookup}
use compage_go.Certs.Errors.{
  Failure, PendingKind, pending_none, validation_error, not_found_error, conflict_error, Result, ok,
  err, ◌>>=◌, ◌>>◌, refuse,
}
use compage_go.Certs.Definition.{IssuerDefinition}
use compage_go.Certs.Crypto.{Cert, Crypto, parse_cert_der}
use compage_go.Certs.State.{RootRecord, IssuerRecord, PendingManifest, State}
use compage_go.Certs.Store.{Store, load}
use compage_go.Certs.Validate.{is_pending, pending_generation, pending_version}
use compage_go.Certs.Manager.{Manager}
use compage_go.Certs.Authority.Due.{pending_kind_of}

-- the test of `buildTrustBundle` under which a root is passed over
unfoldable pub is_untrusted : State → ℕ → ℕ → RootRecord → Bool
is_untrusted s now generation root =
    not (generation == s.active_root)
    && ((not (is_pending s.pending) || not (generation == pending_generation s.pending))
        && not (ltb now root.retired_trust_until))

pub record ManagerStatus : Type 0 where
  pub revision : ℕ
  pub pending : Bool
  pub pending_kind : PendingKind
  pub trust_bundle_sha256 : Bytes

-- `raw` is the certificate's DER, `bundle_digest` the digest of the PEM of certificates.
module _ (x : Crypto) where
  -- the loop over the roots: the certificates that are trusted, each with its DER
  unfoldable pub trusted_certificates : State → ℕ → Map ℕ RootRecord → Result (List (Bytes × Cert))
  trusted_certificates s now [] = ok []
  trusted_certificates s now ((g, root) ∷ rest) =
      let others = trusted_certificates s now rest in
      if is_untrusted s now g root
      then others
      else (parse_cert_der x root.certificate_der >>= λ cert.
          others >>= λ certs. ok ((root.certificate_der, cert) ∷ certs))

  -- one round of `normalizeTrustCertificates`
  unfoldable pub check_trusted : List Bytes → List (Bytes × Cert) → Result (Unit {0})
  check_trusted seen [] = ok tt
  check_trusted seen ((raw, cert) ∷ rest) = do
    refuse (not cert.is_ca || (not cert.basic_constraints_valid || not cert.cert_sign))
        (validation_error (lit "trust certificate must be a CA with certificate-signing usage"))
    refuse (not (x.self_issued cert) || not (x.signed_by cert cert))
        (validation_error (lit "trust certificate must be self-signed"))
    refuse (contains seen raw) (conflict_error (lit "duplicate trust certificate"))
    check_trusted (raw ∷ seen) rest

  -- `bytes.Compare` of two certificates' DER
  unfoldable pub before : Bytes → Bytes → Bool
  before [] [] = false
  before [] (b ∷ y) = true
  before (a ∷ z) [] = false
  before (a ∷ z) (b ∷ y) = ltb a b || (a == b && before z y)

  unfoldable pub insert_sorted : Bytes × Cert → List (Bytes × Cert) → List (Bytes × Cert)
  insert_sorted c [] = c ∷ []
  insert_sorted c (d ∷ rest) = if before d.0 c.0 then d ∷ insert_sorted c rest else c ∷ d ∷ rest

  -- `sort.Slice`: the certificates are different, so their order is determined
  unfoldable pub sort_certificates : List (Bytes × Cert) → List (Bytes × Cert)
  sort_certificates [] = []
  sort_certificates (c ∷ rest) = insert_sorted c (sort_certificates rest)

  unfoldable pub new_trust_bundle : List (Bytes × Cert) → Result (List (Bytes × Cert))
  new_trust_bundle [] = err (validation_error (lit "at least one trust certificate is required"))
  new_trust_bundle (c ∷ rest) = check_trusted [] (c ∷ rest) >> ok (sort_certificates (c ∷ rest))

  unfoldable pub build_trust_bundle : State → ℕ → Result (List (Bytes × Cert))
  build_trust_bundle s now = trusted_certificates s now s.roots >>= new_trust_bundle

  module _ (bundle_digest : List (Bytes × Cert) → Bytes) where
    unfoldable pub manager_status : State → ℕ → Bytes → Result ManagerStatus
    manager_status s now issuer_slug =
        build_trust_bundle s now >>= λ bundle. ok (status (bundle_digest bundle) s.pending)
      where
        status : Bytes → Option PendingManifest → ManagerStatus
        status digest none = record {
          revision = s.revision;
          pending = false;
          pending_kind = pending_none;
          trust_bundle_sha256 = digest;
        }
        status digest (some p) =
            let concerned = issuer_slug == [] || not (pending_version (some p) issuer_slug == 0) in
            record {
              revision = s.revision;
              pending = concerned;
              pending_kind = if concerned then pending_kind_of p.kind else pending_none;
              trust_bundle_sha256 = digest;
            }

module _ (x : Crypto) (parse_scheme : Bytes → Option Bytes)
    (definitions_equal : IssuerDefinition → IssuerDefinition → Bool)
    (bundle_digest : List (Bytes × Cert) → Bytes) (now : ℕ) where
  unfoldable pub trust_bundle : Manager → Store → Result (List (Bytes × Cert))
  trust_bundle m st = do
    refuse m.closed (conflict_error (lit "authority manager is closed"))
    s ← load x parse_scheme definitions_equal st
    build_trust_bundle x s now

  unfoldable pub status : Manager → Store → Result ManagerStatus
  status m st = do
    refuse m.closed (conflict_error (lit "authority manager is closed"))
    s ← load x parse_scheme definitions_equal st
    manager_status x bundle_digest s now []

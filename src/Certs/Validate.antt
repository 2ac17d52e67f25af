-- ===== src/Certs/Validate.antt =====
-- certs/validate.go: `validateState`. The causes of its errors are left out.
pub mod Names
use compage_go.Base.{
  ℕ, zero, suc, ◌+◌, ◌≤◌, ◌<◌, ◌≡◌, Bool, true, false, not, ◌&&◌, ◌||◌, Option, none, some, List,
  [], ◌∷◌, ◌++◌, ◌==◌, nat_comparable, list_comparable, if◌then◌else◌, Bytes, lit, length, ltb, leb,
}
use compage_go.Go.Strconv.{ℤ, pos, int_comparable}
use compage_go.Go.Map.{Map, lookup}
use compage_go.Certs.Errors.{
  Failure, validation_error, corrupt_error, unavailable_error, drift_error, panicked, Result, ok,
  err, ◌>>=◌, ◌>>◌, refuse,
}
use compage_go.Certs.Names.{Identity, identity_same, normalize_identity, normalize_display_name}
use compage_go.Certs.Definition.{IssuerDefinition, valid_key_spec, valid_mode, validate_definition}
use compage_go.Certs.Crypto.{
  Cert, Crypto, PublicKey, key_spec_for_public, identity_from_ca_name, root_common_name,
  issuer_common_name, parse_cert_der, parse_key_der, public_keys_equal,
}
use compage_go.Certs.State.{
  AuthoritySpec, RootRecord, IssuerVersion, IssuerRecord, PendingManifest, State, clock_skew,
}

abbrev pub is_root : Option PendingManifest → Bool
is_root none = false
is_root (some p) = p.kind == lit "root"

-- `s.Pending.RootGeneration`, 0 if nothing is pending
abbrev pub pending_generation : Option PendingManifest → ℕ
pending_generation none = 0
pending_generation (some p) = p.root_generation

-- `s.Pending.Issuers[slug]`, 0 if nothing is pending or the issuer is not
abbrev pub number_or_zero : Option ℕ → ℕ
number_or_zero none = 0
number_or_zero (some n) = n

abbrev pub pending_version : Option PendingManifest → Bytes → ℕ
pending_version none slug = 0
pending_version (some p) slug = number_or_zero (lookup slug p.issuers)

-- which roots and versions are to have their private key
unfoldable pub root_needs_key : State → ℕ → Bool
root_needs_key s g = g == s.active_root || (is_root s.pending && g == pending_generation s.pending)

abbrev pub is_pending : Option PendingManifest → Bool
is_pending none = false
is_pending (some p) = true

unfoldable pub version_needs_key : State → Bytes → IssuerRecord → ℕ → Bool
version_needs_key s slug issuer v =
    v == issuer.active_version || (is_pending s.pending && pending_version s.pending slug == v)

unfoldable pub check_spec : AuthoritySpec → Result (Unit {0})
check_spec spec = do
  refuse (spec.id == []) (corrupt_error (lit "missing authority specification"))
  refuse (not (spec.format_version == 1))
      (unavailable_error (lit "unsupported authority format version"))
  refuse
      (not (valid_key_spec spec.key_spec)
        || (not (valid_mode spec.issuance_mode) || not spec.encrypted_root_keys))
      (corrupt_error (lit "invalid authority specification"))
  refuse (not (is_same_name (normalize_display_name spec.name)))
      (corrupt_error (lit "invalid stored authority name"))
  refuse (not (is_same_identity (normalize_identity spec.identity)))
      (corrupt_error (lit "invalid stored authority identity"))
  where
    is_same_name : Result Bytes → Bool
    is_same_name (ok name) = name == spec.name
    is_same_name (err e) = false

    is_same_identity : Result Identity → Bool
    is_same_identity (ok v) = identity_same v spec.identity
    is_same_identity (err e) = false

unfoldable pub has_spec : PublicKey → Bytes → Bool
has_spec key spec = is_spec (key_spec_for_public key)
  where
    is_spec : Option Bytes → Bool
    is_spec none = false
    is_spec (some k) = k == spec

-- `definitionsEqual` compares the JSON of two definitions.
module _ (x : Crypto) (parse_scheme : Bytes → Option Bytes)
    (definitions_equal : IssuerDefinition → IssuerDefinition → Bool) where
  -- one round of the loop over the roots
  unfoldable pub check_root : State → ℕ → RootRecord → Result (Unit {0})
  check_root s g r = do
    refuse (not (r.generation == g)) (corrupt_error (lit "invalid root generation record"))
    c ← parse_cert_der x r.certificate_der
    refuse
        (not c.is_ca
          || (not c.basic_constraints_valid
              || (not (c.max_path_len == pos 1)
                  || (not c.cert_sign || (not c.crl_sign || not (x.signed_by c c))))))
        (corrupt_error (lit "invalid root certificate"))
    refuse (not (x.fingerprint c == r.fingerprint)) (drift_error (lit "root fingerprint"))
    refuse (not (has_spec c.public_key s.spec.key_spec))
        (corrupt_error (lit "root key specification mismatch"))
    refuse (root_needs_key s g && r.encrypted_key_der == [])
        (corrupt_error (lit "active or pending root key is missing"))
    refuse (not (root_needs_key s g) && not (r.encrypted_key_der == []))
        (corrupt_error (lit "retired root private key was retained"))
    refuse
        (not (c.subject.common_name == root_common_name s.spec.name g)
          || not (identity_same (identity_from_ca_name c.subject) s.spec.identity))
        (drift_error (lit "root subject"))

  unfoldable pub check_roots : State → Map ℕ RootRecord → Result (Unit {0})
  check_roots s [] = ok tt
  check_roots s ((g, r) ∷ rest) = check_root s g r >> check_roots s rest

  -- one round of the loop over the versions of an issuer
  unfoldable pub check_version :
      State → Bytes → IssuerRecord → ℕ → IssuerVersion → Result (Unit {0})
  check_version s slug issuer n v = do
    refuse (not (v.version == n)) (corrupt_error (lit "invalid issuer version record"))
    c ← parse_cert_der x v.certificate_der
    root ← found (lookup v.root_generation s.roots)
    rc ← parsed (x.parse_certificate root.certificate_der)
    refuse
        (not (x.signed_by c rc)
          || (not c.is_ca
              || (not c.basic_constraints_valid
                  || (not (c.max_path_len == pos 0)
                      || (not c.max_path_len_zero || not c.cert_sign)))))
        (corrupt_error (lit "invalid issuer certificate"))
    refuse
        (not (
          c.subject.common_name
          == issuer_common_name s.spec.name v.root_generation issuer.definition.name n))
        (drift_error (lit "issuer subject"))
    refuse (not (x.fingerprint c == v.fingerprint)) (drift_error (lit "issuer fingerprint"))
    refuse (not (has_spec c.public_key s.spec.key_spec))
        (corrupt_error (lit "issuer key specification mismatch"))
    refuse (ltb rc.not_after (c.not_after + clock_skew))
        (corrupt_error (lit "issuer validity exceeds its root"))
    refuse (version_needs_key s slug issuer n && v.key_der == [])
        (corrupt_error (lit "active or pending issuer key is missing"))
    refuse (not (version_needs_key s slug issuer n) && not (v.key_der == []))
        (corrupt_error (lit "retired issuer private key was retained"))
    where
      found : Option RootRecord → Result RootRecord
      found none = err (corrupt_error (lit "issuer refers to missing root"))
      found (some root) = ok root

      -- the error of the second parse is dropped, and a nil certificate followed
      parsed : Option Cert → Result Cert
      parsed none = err panicked
      parsed (some c) = ok c

  unfoldable pub check_versions :
      State → Bytes → IssuerRecord → Map ℕ IssuerVersion → Result (Unit {0})
  check_versions s slug issuer [] = ok tt
  check_versions s slug issuer ((n, v) ∷ rest) =
      check_version s slug issuer n v >> check_versions s slug issuer rest

  -- behind the loop over the versions
  unfoldable pub check_active : State → IssuerVersion → Result (Unit {0})
  check_active s active = do
    refuse (not (active.root_generation == s.active_root))
        (corrupt_error (lit "active issuer is not under the active root"))
    refuse (active.key_der == []) (corrupt_error (lit "active issuer key is missing"))
    key ← parse_key_der x active.key_der []
    c ← parsed (x.parse_certificate active.certificate_der)
    refuse (not (public_keys_equal x (x.public key) c.public_key))
        (corrupt_error (lit "issuer key does not match certificate"))
    where
      parsed : Option Cert → Result Cert
      parsed none = err panicked
      parsed (some c) = ok c

  unfoldable pub check_definition : IssuerDefinition → Result (Unit {0})
  check_definition d =
      refuse (not (is_normal (validate_definition parse_scheme d d.name)))
        (corrupt_error (lit "invalid stored issuer definition"))
    where
      is_normal : Result IssuerDefinition → Bool
      is_normal (ok normalized) = definitions_equal normalized d
      is_normal (err e) = false

  -- one round of the loop over the issuers
  unfoldable pub check_issuer : State → Bytes → IssuerRecord → Result (Unit {0})
  check_issuer s slug issuer =
      refuse (not (issuer.definition.slug_name == slug) || issuer.active_version == 0)
        (corrupt_error (lit "invalid issuer topology"))
      >> (active (lookup issuer.active_version issuer.versions) >>= λ a.
          check_definition issuer.definition
          >> (check_versions s slug issuer issuer.versions >> check_active s a))
    where
      active : Option IssuerVersion → Result IssuerVersion
      active none = err (corrupt_error (lit "invalid issuer topology"))
      active (some v) = ok v

  unfoldable pub check_issuers : State → Map Bytes IssuerRecord → Result (Unit {0})
  check_issuers s [] = ok tt
  check_issuers s ((slug, issuer) ∷ rest) = check_issuer s slug issuer >> check_issuers s rest

  unfoldable pub is_version_of : State → Bytes → ℕ → Bool
  is_version_of s slug version = there (lookup slug s.issuers)
    where
      found : Option IssuerVersion → Bool
      found none = false
      found (some v) = true

      there : Option IssuerRecord → Bool
      there none = false
      there (some issuer) = found (lookup version issuer.versions)

  unfoldable pub all_pending_found : State → Map Bytes ℕ → Bool
  all_pending_found s [] = true
  all_pending_found s ((slug, version) ∷ rest) =
      is_version_of s slug version && all_pending_found s rest

  unfoldable pub check_pending : State → Option PendingManifest → Result (Unit {0})
  check_pending s none = ok tt
  check_pending s (some p) = do
    refuse (ltb s.revision p.expected_revision)
        (corrupt_error (lit "pending revision is impossible"))
    refuse (not (p.kind == lit "root") && not (p.kind == lit "issuer"))
        (corrupt_error (lit "unknown pending operation"))
    refuse (p.kind == lit "root" && not (found (lookup p.root_generation s.roots)))
        (corrupt_error (lit "pending root is missing"))
    refuse (p.kind == lit "root" && not (length p.issuers == length s.issuers))
        (corrupt_error (lit "pending root does not cascade every issuer"))
    refuse (not (all_pending_found s p.issuers)) (corrupt_error (lit "pending issuer is missing"))
    where
      found : Option RootRecord → Bool
      found none = false
      found (some r) = true

  unfoldable pub validate_state : State → Result (Unit {0})
  validate_state s =
      check_spec s.spec
      >> (refuse (s.active_root == 0 || not (found (lookup s.active_root s.roots)))
            (corrupt_error (lit "missing active root"))
          >> (check_roots s s.roots >> (check_issuers s s.issuers >> check_pending s s.pending)))
    where
      found : Option RootRecord → Bool
      found none = false
      found (some r) = true

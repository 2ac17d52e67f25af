-- ===== src/Certs/Authority.antt =====
-- certs/authority.go: `provision`, `prepareRoot` and `prepareIssuers`.
pub mod Lawful
pub mod Created
pub mod First
pub mod Due
pub mod Ensure
pub mod Promote
pub mod Unlocks
pub mod Operations
use compage_go.Base.{
  ℕ, zero, suc, ◌+◌, ◌-◌, ◌≤◌, ◌<◌, ◌≡◌, refl, Bool, true, false, not, ◌&&◌, ◌||◌, Option, none,
  some, List, [], ◌∷◌, ◌++◌, ◌==◌, nat_comparable, list_comparable, if◌then◌else◌, Bytes, lit, ltb,
  length,
}
use compage_go.Go.Strconv.{ℤ, pos, negsuc, int_comparable}
use compage_go.Go.Strings.{join}
use compage_go.Go.Map.{Map, lookup, put}
use compage_go.Certs.Errors.{
  Failure, validation_error, not_found_error, corrupt_error, drift_error, conflict_error, foreign,
  panicked, is_not_found, Result, ok, err, ◌>>=◌, ◌>>◌, refuse,
}
use compage_go.Certs.Names.{Identity, no_identity}
use compage_go.Certs.Definition.{IssuerDefinition}
use compage_go.Certs.Crypto.{
  Name, Cert, Crypto, ca_name, root_common_name, issuer_common_name, or_error, parse_cert_der,
  parse_key_der, public_keys_equal, subject_key_id,
}
use compage_go.Certs.State.{
  AuthoritySpec, RootRecord, IssuerVersion, IssuerRecord, PendingManifest, State, clock_skew,
}
use compage_go.Certs.Store.{Store, load_unlocks}
use compage_go.Certs.Manager.{
  Config, Manager, or_default, add_time, default_root_validity, print_identity, differs,
  differs_duration, differs_identity, assert_spec, secret_of, stored_secret, active_root_signer,
}
use compage_go.Certs.Making.{root_template, make_root, issuer_template, make_issuer}

module _ (x : Crypto) where
  open x use {
    Key, public, generate_key, random_serial, random_secret, random_id, create_certificate,
    parse_certificate, fingerprint, marshal_private, encrypt_private,
  }

  -- `provision`: the issuers, behind the root
  unfoldable pub provision_issuers :
      AuthoritySpec
      → List IssuerDefinition
      → RootRecord
      → Key
      → ℕ
      → ℕ
      → Map Bytes IssuerRecord
      → Result (Map Bytes IssuerRecord)
  provision_issuers spec [] root key now draw made = ok made
  provision_issuers spec (d ∷ ds) root key now draw made =
      make_issuer x spec 1 1 d root key now draw >>= λ v.
      provision_issuers spec ds root key now (draw + 1) (
        put d.slug_name (record { definition = d; active_version = 1; versions = (1, v) ∷ [] })
          made)

  unfoldable pub new_spec : Config → Bytes → Bytes → Bytes → AuthoritySpec
  new_spec config name id kind = record {
    id = id;
    format_version = 1;
    name = name;
    identity = or_default config.identity no_identity;
    root_validity = or_default config.root_validity default_root_validity;
    key_spec = or_default config.key_spec (lit "ecdsa-p256");
    encrypted_root_keys = true;
    issuance_mode = or_default config.issuance_mode (lit "none");
    owner = config.owner;
    group = config.group;
    backend = kind;
  }

  abbrev pub forward : Manager → ℕ → Manager
  forward m n = record m { seed = m.seed + n }

  -- The secret of the root is kept as soon as the root is made.
  unfoldable pub provision : Bytes → ℕ → State → Manager → Result State × Manager
  provision kind now s m = named (or_default m.config.authority_name [])
    where
      finished :
          AuthoritySpec
          → RootRecord
          → Manager
          → Result (Map Bytes IssuerRecord)
          → Result State × Manager
      finished spec root m' (err e) = (err e, m')
      finished spec root m' (ok issuers) = (
        ok (record s { spec = spec; active_root = 1; roots = (1, root) ∷ []; issuers = issuers }),
        m',
      )

      rooted : AuthoritySpec → Result (RootRecord × Key × Bytes) → Result State × Manager
      rooted spec (err e) = (err e, forward m 1)
      rooted spec (ok (root, key, secret)) =
          finished spec root
            (record (forward m (1 + length m.config.issuers)) {
              generated = put 1 secret m.generated;
            })
            (provision_issuers spec m.config.issuers root key now (m.seed + 1) [])

      identified : Bytes → Option Bytes → Result State × Manager
      identified name none = (err foreign, m)
      identified name (some id) =
          let spec = new_spec m.config name id kind in rooted spec (make_root x spec 1 now m.seed)

      named : Bytes → Result State × Manager
      named [] = (err (validation_error (lit "authority name is required")), m)
      named (c ∷ name) = identified (c ∷ name) (random_id m.seed)

  -- The loops over the issuers of `prepareRoot` and `prepareIssuers`: each gets its next version. The
  -- result is `s.Issuers` and `pending.Issuers`.
  unfoldable pub prepare_versions :
      AuthoritySpec
      → ℕ
      → RootRecord
      → Key
      → ℕ
      → ℕ
      → List Bytes
      → Map Bytes IssuerRecord
      → Map Bytes ℕ
      → Result (Map Bytes IssuerRecord × Map Bytes ℕ)
  prepare_versions spec g root key now draw [] issuers pending = ok (issuers, pending)
  prepare_versions spec g root key now draw (slug ∷ slugs) issuers pending = do
    issuer ← or_error (lookup slug issuers) panicked
    let v = issuer.active_version + 1
    made ← make_issuer x spec g v issuer.definition root key now draw
    prepare_versions spec g root key now (draw + 1) slugs
        (put slug (record issuer { versions = put v made issuer.versions }) issuers)
        (put slug v pending)

  -- `for s.Roots[g] != nil { g++ }`: one of as many numbers as there are roots, and one more, is free.
  unfoldable pub free_generation : ℕ → ℕ → Map ℕ RootRecord → ℕ
  free_generation zero g roots = g
  free_generation (suc fuel) g roots =
      let next = free_generation fuel (g + 1) roots in is_free (lookup g roots) g next
    where
      is_free : Option RootRecord → ℕ → ℕ → ℕ
      is_free none here next = here
      is_free (some r) here next = next

  abbrev pub keys_of : Map Bytes IssuerRecord → List Bytes
  keys_of [] = []
  keys_of ((slug, issuer) ∷ rest) = slug ∷ keys_of rest

  -- the end of both: what is pending
  unfoldable pub staged :
      Bytes → ℕ → ℕ → State → Result (Map Bytes IssuerRecord × Map Bytes ℕ) → Result State
  staged kind g now s r = r >>= λ t. ok (record s {
    issuers = t.0;
    pending = some (record {
      kind = kind;
      expected_revision = s.revision;
      root_generation = g;
      issuers = t.1;
      created_at = now;
    });
  })

  unfoldable pub prepare_root : ℕ → State → Manager → Result State × Manager
  prepare_root now s m =
      let g = free_generation (length s.roots) (s.active_root + 1) s.roots in
      made g (make_root x s.spec g now m.seed)
    where
      made : ℕ → Result (RootRecord × Key × Bytes) → Result State × Manager
      made g (err e) = (err e, forward m 1)
      made g (ok (root, key, secret)) = (
        staged (lit "root") g now (record s { roots = put g root s.roots })
            (prepare_versions s.spec g root key now (m.seed + 1) (keys_of s.issuers) s.issuers []),
        record (forward m (1 + length s.issuers)) { generated = put g secret m.generated },
      )

  unfoldable pub prepare_issuers : Store → List Bytes → ℕ → State → Manager → Result State × Manager
  prepare_issuers st due now s m = (
    staged (lit "issuer") 0 now s (
        active_root_signer x m.config m.generated st s >>= λ key.
        or_error (lookup s.active_root s.roots) panicked >>= λ root.
        prepare_versions s.spec s.active_root root key now m.seed due s.issuers []),
    forward m (length due),
  )

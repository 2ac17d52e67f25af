-- ===== src/Certs/Manager.antt =====
-- certs/authority.go: `AuthorityManager`, `assertSpec` and `activeRootSigner`. The clock is read once for an
-- operation, and `seed` numbers the draws from the source of randomness.
pub mod Drift
pub mod New
pub mod Configured
use compage_go.Base.{
  ℕ, zero, suc, ◌+◌, ◌-◌, ◌≤◌, ◌<◌, ◌≡◌, refl, Bool, true, false, not, ◌&&◌, ◌||◌, Option, none,
  some, List, [], ◌∷◌, ◌++◌, ◌==◌, nat_comparable, list_comparable, if◌then◌else◌, Bytes, lit, ltb,
  length,
}
use compage_go.Go.Strconv.{ℤ, pos, negsuc, int_comparable}
use compage_go.Go.Strings.{join}
use compage_go.Go.Map.{Map, lookup, put}
use compage_go.Certs.Errors.{
  Failure, validation_error, not_found_error, corrupt_error, drift_error, conflict_error, foreign,
  panicked, is_not_found, Result, ok, err, ◌>>=◌, ◌>>◌, refuse,
}
use compage_go.Certs.Names.{Identity, no_identity}
use compage_go.Certs.Definition.{IssuerDefinition}
use compage_go.Certs.Crypto.{
  Name, Cert, Crypto, ca_name, root_common_name, issuer_common_name, or_error, parse_cert_der,
  parse_key_der, public_keys_equal, subject_key_id,
}
use compage_go.Certs.State.{
  AuthoritySpec, RootRecord, IssuerVersion, IssuerRecord, PendingManifest, State, clock_skew,
}
use compage_go.Certs.Store.{Store, load_unlocks}

-- The options of a manager; `none` is one that is not set. `root_unlock` is empty if it is not.
pub record Config : Type 0 where
  pub authority_name : Option Bytes
  pub identity : Option Identity
  pub owner : Bytes
  pub group : Bytes
  pub key_spec : Option Bytes
  pub issuance_mode : Option Bytes
  pub root_validity : Option ℤ
  pub issuers : List IssuerDefinition
  pub root_unlock : Bytes

pub record Manager : Type 0 where
  pub config : Config
  pub generated : Map ℕ Bytes
  pub closed : Bool
  pub seed : ℕ

unfoldable pub or_default {ℓ} : {A : Type ℓ} → Option A → A → A
or_default none d = d
or_default (some a) d = a

-- `t.Add(d)`
unfoldable pub add_time : ℕ → ℤ → ℕ
add_time t (pos n) = t + n
add_time t (negsuc n) = t - suc n

-- ten years
abbrev pub default_root_validity : ℤ
default_root_validity = pos 315360000000000000

-- `fmt.Sprint` of an identity
unfoldable pub print_identity : Identity → Bytes
print_identity v =
    b'{'
    ∷ (join
          (v.organization ∷ v.organizational_unit ∷ v.country ∷ v.province ∷ v.locality
            ∷ v.common_name ∷ [])
          (32 ∷ [])
        ++ b'}' ∷ [])

-- one round of the loop over `checks`: an option that is set is to be printed like what is stored
unfoldable pub differs : Option Bytes → Bytes → Bool
differs none got = false
differs (some want) got = not (want == got)

unfoldable pub differs_duration : Option ℤ → ℤ → Bool
differs_duration none got = false
differs_duration (some want) got = not (want == got)

unfoldable pub differs_identity : Option Identity → Identity → Bool
differs_identity none got = false
differs_identity (some want) got = not (print_identity want == print_identity got)

unfoldable pub assert_spec : Config → Store → State → Result (Unit {0})
assert_spec config st s = do
  refuse (not (s.spec.backend == st.store_kind)) (drift_error (lit "backend"))
  refuse (not (s.spec.owner == st.owner) || not (s.spec.group == st.group))
      (drift_error (lit "store principal"))
  refuse (differs config.authority_name s.spec.name) (drift_error (lit "authority name"))
  refuse (differs_identity config.identity s.spec.identity) (drift_error (lit "identity"))
  refuse (differs config.key_spec s.spec.key_spec) (drift_error (lit "root key specification"))
  refuse (differs config.issuance_mode s.spec.issuance_mode) (drift_error (lit "issuance mode"))
  refuse (differs_duration config.root_validity s.spec.root_validity)
      (drift_error (lit "root validity"))

-- `m.generated[g]`, and a secret from the store's local unlocks; a missing one is empty.
abbrev pub secret_of : Map ℕ Bytes → ℕ → Bytes
secret_of m g = or_default (lookup g m) []

unfoldable pub stored_secret : Result (Map ℕ Bytes) → ℕ → Result Bytes
stored_secret (ok unlocks) g = ok (secret_of unlocks g)
stored_secret (err e) g = if is_not_found e then ok [] else err e

module _ (x : Crypto) where
  open x use {Key, public}

  -- A record that is missing is a nil pointer.
  unfoldable pub active_root_signer : Config → Map ℕ Bytes → Store → State → Result Key
  active_root_signer config generated st s = do
    secret ← choose (secret_of generated s.active_root)
    refuse (secret == []) (not_found_error (lit "unlock secret for root"))
    r ← or_error (lookup s.active_root s.roots) panicked
    key ← unlocked (parse_key_der x r.encrypted_key_der secret)
    cert ← parse_cert_der x r.certificate_der
    refuse (not (public_keys_equal x (public key) cert.public_key))
        (corrupt_error (lit "root key does not match certificate"))
    ok key
    where
      unlocked : Result Key → Result Key
      unlocked (ok key) = ok key
      unlocked (err e) = err (validation_error (lit "root unlock secret is incorrect"))

      from_config : Bytes → Result Bytes
      from_config [] = stored_secret (load_unlocks st) s.active_root
      from_config (c ∷ secret) = ok (c ∷ secret)

      choose : Bytes → Result Bytes
      choose [] = from_config config.root_unlock
      choose (c ∷ secret) = ok (c ∷ secret)

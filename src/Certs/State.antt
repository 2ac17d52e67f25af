-- ===== src/Certs/State.antt =====
-- certs/store.go: the persisted state of an authority. Generations and versions are numbers from 0.
use compage_go.Base.{ℕ, Bool, false, Option, none, [], Bytes}
use compage_go.Go.Strconv.{ℤ, pos}
use compage_go.Go.Map.{Map}
use compage_go.Certs.Names.{Identity, no_identity}
use compage_go.Certs.Definition.{IssuerDefinition}

pub record AuthoritySpec : Type 0 where
  pub id : Bytes
  pub format_version : ℕ
  pub name : Bytes
  pub identity : Identity
  pub root_validity : ℤ
  pub key_spec : Bytes
  pub encrypted_root_keys : Bool
  pub issuance_mode : Bytes
  pub owner : Bytes
  pub group : Bytes
  pub backend : Bytes

-- `retired_trust_until` is 0 for the zero time.
pub record RootRecord : Type 0 where
  pub generation : ℕ
  pub certificate_der : Bytes
  pub encrypted_key_der : Bytes
  pub fingerprint : Bytes
  pub retired_trust_until : ℕ

pub record IssuerVersion : Type 0 where
  pub version : ℕ
  pub root_generation : ℕ
  pub certificate_der : Bytes
  pub key_der : Bytes
  pub fingerprint : Bytes

pub record IssuerRecord : Type 0 where
  pub definition : IssuerDefinition
  pub active_version : ℕ
  pub versions : Map ℕ IssuerVersion

-- `Kind` is a string; `root_generation` is 0 where a pending operation has no root.
pub record PendingManifest : Type 0 where
  pub kind : Bytes
  pub expected_revision : ℕ
  pub root_generation : ℕ
  pub issuers : Map Bytes ℕ
  pub created_at : ℕ

pub record State : Type 0 where
  pub spec : AuthoritySpec
  pub revision : ℕ
  pub active_root : ℕ
  pub roots : Map ℕ RootRecord
  pub issuers : Map Bytes IssuerRecord
  pub pending : Option PendingManifest

-- `authoritySpec{}` and `authorityState{}`
abbrev pub blank_spec : AuthoritySpec
blank_spec = record {
  id = [];
  format_version = 0;
  name = [];
  identity = no_identity;
  root_validity = pos 0;
  key_spec = [];
  encrypted_root_keys = false;
  issuance_mode = [];
  owner = [];
  group = [];
  backend = [];
}

abbrev pub blank_state : State
blank_state = record {
  spec = blank_spec;
  revision = 0;
  active_root = 0;
  roots = [];
  issuers = [];
  pending = none;
}

-- five minutes, and 365 days
abbrev pub clock_skew : ℕ
clock_skew = 300000000000

abbrev pub maximum_leaf_validity : ℕ
maximum_leaf_validity = 31536000000000000

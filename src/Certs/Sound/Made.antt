-- ===== src/Certs/Sound/Made.antt =====
-- What `makeRoot` and `makeIssuer` return.
use compage_go.Base.{ℕ, ◌≡◌, ◌≢◌, Option, none, some, [], Bytes, arith}
use compage_go.Certs.Errors.{Failure, ok}
use compage_go.Certs.Definition.{IssuerDefinition}
use compage_go.Certs.Crypto.{Crypto, or_error}
use compage_go.Certs.State.{AuthoritySpec, RootRecord, IssuerVersion}
use compage_go.Certs.Making.{make_root, make_issuer}

-- An encoded private key is never empty.
pub record KeysAreEncoded (x : Crypto) : Type 0 where
  pub marshal_ne_nil : (k : x.Key) (der : Bytes) → x.marshal_private k ≡ some der → der ≢ []
  pub encrypt_ne_nil :
      (k : x.Key) (secret der : Bytes) → x.encrypt_private k secret ≡ some der → der ≢ []

pub or_error-eq-ok {ℓ} :
    {A : Type ℓ} (o : Option A) (e : Failure) {a : A} → or_error o e ≡ ok a → o ≡ some a
or_error-eq-ok none e h = cc
or_error-eq-ok (some b) e h = cc

module _ (x : Crypto) (encoded : KeysAreEncoded x) where
  pub make_issuer_lem :
      (spec : AuthoritySpec) (g n : ℕ) (d : IssuerDefinition) (root : RootRecord) (key : x.Key)
      (now draw : ℕ) (v : IssuerVersion)
      → make_issuer x spec g n d root key now draw ≡ ok v
      → (v.root_generation ≡ g) × (v.key_der ≢ [])
  unfolding make_issuer
  make_issuer_lem spec g n d root key now draw v h =
      (ground arith, grind (arith, encoded.marshal_ne_nil))

  pub make_root_lem :
      (spec : AuthoritySpec) (g now draw : ℕ) (r : RootRecord × x.Key × Bytes)
      → make_root x spec g now draw ≡ ok r
      → (r.0.generation ≡ g) × (r.0.encrypted_key_der ≢ [])
  unfolding make_root
  make_root_lem spec g now draw r h = (grind arith, grind (arith, encoded.encrypt_ne_nil))

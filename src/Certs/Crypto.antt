-- ===== src/Certs/Crypto.antt =====
-- certs/crypto.go and `parseCertDER` of certs/store.go over the packages crypto/x509 and pkcs8, which
-- are a parameter. Names of certificates (certs/csr.go, certs/authority.go). Times are nanoseconds
-- since the zero value of `time.Time`.
use compage_go.Base.{
  ℕ, Bool, false, not, ◌||◌, Option, none, some, List, [], ◌∷◌, ◌++◌, ◌==◌, nat_comparable,
  list_comparable, if◌then◌else◌, Bytes, lit, length,
}
use compage_go.Go.Strconv.{ℤ, pos, itoa}
use compage_go.Certs.Errors.{
  Failure, validation_error, corrupt_by, foreign, Result, ok, err, ◌>>=◌, ◌>>◌, refuse,
}
use compage_go.Certs.Names.{Identity}
use compage_go.Certs.Sans.{Sans}

-- A pkix.Name, without the attributes that only requests are checked for.
pub record Name : Type 0 where
  pub organization : List Bytes
  pub organizational_unit : List Bytes
  pub country : List Bytes
  pub province : List Bytes
  pub locality : List Bytes
  pub common_name : Bytes

unfoldable pub nonempty : Bytes → List Bytes
nonempty [] = []
nonempty (c ∷ v) = (c ∷ v) ∷ []

unfoldable pub first : List Bytes → Bytes
first [] = []
first (v ∷ _) = v

-- `caName`: `identityName` with the common name put in
unfoldable pub ca_name : Identity → Bytes → Name
ca_name v cn = record {
  organization = nonempty v.organization;
  organizational_unit = nonempty v.organizational_unit;
  country = nonempty v.country;
  province = nonempty v.province;
  locality = nonempty v.locality;
  common_name = cn;
}

-- `identityFromName`
unfoldable pub identity_from_name : Name → Identity
identity_from_name n = record {
  organization = first n.organization;
  organizational_unit = first n.organizational_unit;
  country = first n.country;
  province = first n.province;
  locality = first n.locality;
  common_name = n.common_name;
}

-- `identityFromCAName`
unfoldable pub identity_from_ca_name : Name → Identity
identity_from_ca_name n = record {
  organization = first n.organization;
  organizational_unit = first n.organizational_unit;
  country = first n.country;
  province = first n.province;
  locality = first n.locality;
  common_name = [];
}

unfoldable pub root_common_name : Bytes → ℕ → Bytes
root_common_name name g = name ++ (lit " G" ++ (itoa (pos g) ++ lit " Root CA"))

unfoldable pub issuer_common_name : Bytes → ℕ → Bytes → ℕ → Bytes
issuer_common_name authority g name v =
    authority
    ++ (lit " G" ++ (itoa (pos g) ++ (lit " " ++ (name ++ (lit " Issuer V" ++ itoa (pos v))))))

-- An RSA key has the length of its modulus in bits, an ECDSA key that of its curve; other curves of
-- the library have neither 256 nor 384.
pub data PublicKey : Type 0 where
  ecdsa : ℕ → Bytes → PublicKey
  ed25519 : Bytes → PublicKey
  rsa : ℕ → Bytes → PublicKey
  other_key : PublicKey

pub data ExtKeyUsage : Type 0 where
  client_auth server_auth other_usage : ExtKeyUsage

-- What the program reads of a *x509.Certificate, or fills in of a template. `cert_sign`, `crl_sign`
-- and `digital_signature` are bits of `KeyUsage`, and `other_bits` are the others.
pub record Cert : Type 0 where
  pub serial : Bytes
  pub subject : Name
  pub issuer : Name
  pub not_before : ℕ
  pub not_after : ℕ
  pub is_ca : Bool
  pub basic_constraints_valid : Bool
  pub max_path_len : ℤ
  pub max_path_len_zero : Bool
  pub cert_sign : Bool
  pub crl_sign : Bool
  pub subject_key_id : Bytes
  pub authority_key_id : Bytes
  pub public_key : PublicKey
  pub digital_signature : Bool
  pub other_bits : ℕ
  pub ext_key_usage : List ExtKeyUsage
  pub sans : Sans

-- The calls. `ℕ` numbers the draws from the source of randomness; `none` is an error.
pub record Crypto : Type 1 where
  pub Key : Type 0
  pub public : Key → PublicKey
  pub generate_key : Bytes → ℕ → Option Key
  pub random_serial : ℕ → Option Bytes
  pub random_secret : ℕ → Option Bytes
  pub random_id : ℕ → Option Bytes
  -- x509.CreateCertificate of a template, the parent, the subject's public key and a signing key
  pub create_certificate : Cert → Cert → PublicKey → Key → Option Bytes
  pub parse_certificate : Bytes → Option Cert
  -- `c.CheckSignatureFrom(parent) == nil`
  pub signed_by : Cert → Cert → Bool
  -- `bytes.Equal(c.RawSubject, c.RawIssuer)`
  pub self_issued : Cert → Bool
  pub fingerprint : Cert → Bytes
  pub marshal_public : PublicKey → Option Bytes
  pub sha1 : Bytes → Bytes
  -- PKCS#8, plain and encrypted with a secret
  pub marshal_private : Key → Option Bytes
  pub encrypt_private : Key → Bytes → Option Bytes
  pub parse_private : Bytes → Option Key
  pub decrypt_private : Bytes → Bytes → Option Key

unfoldable pub supported_public_key : PublicKey → Result (Unit {0})
supported_public_key (ecdsa bits _) =
    refuse (not (bits == 256 || bits == 384)) (validation_error (lit "unsupported ECDSA curve"))
supported_public_key (ed25519 k) =
    refuse (not (length k == 32)) (validation_error (lit "invalid Ed25519 public key"))
supported_public_key (rsa bits _) =
    refuse (not (bits == 3072 || bits == 4096))
      (validation_error (lit "RSA keys must be 3072 or 4096 bits"))
supported_public_key other_key = err (validation_error (lit "unsupported public key"))

unfoldable pub key_spec_for_public : PublicKey → Option Bytes
key_spec_for_public (ecdsa bits _) =
    if bits == 256
    then some (lit "ecdsa-p256")
    else if bits == 384
    then some (lit "ecdsa-p384")
    else none
key_spec_for_public (ed25519 k) = if length k == 32 then some (lit "ed25519") else none
key_spec_for_public (rsa bits _) =
    if bits == 3072
    then some (lit "rsa-3072")
    else if bits == 4096
    then some (lit "rsa-4096")
    else none
key_spec_for_public other_key = none

-- `if err != nil { return e }`
abbrev pub or_error {ℓ} : {A : Type ℓ} → Option A → Failure → Result A
or_error none e = err e
or_error (some a) e = ok a

module _ (x : Crypto) where
  open x use {Key, public, parse_certificate, marshal_public, sha1, parse_private, decrypt_private}

  unfoldable pub parse_cert_der : Bytes → Result Cert
  parse_cert_der der =
      or_error (parse_certificate der) (corrupt_by (lit "invalid certificate DER") foreign)

  supported_key : Key → Result Key
  supported_key key = supported_public_key (public key) >> ok key

  unfoldable pub parse_key_der : Bytes → Bytes → Result Key
  unfolding supported_key
  parse_key_der der passphrase =
      or_error (if passphrase == [] then parse_private der else decrypt_private der passphrase)
        (corrupt_by (lit "invalid PKCS#8 private key") foreign)
      >>= supported_key

  unfoldable pub public_keys_equal : PublicKey → PublicKey → Bool
  public_keys_equal a b = both (marshal_public a) (marshal_public b)
    where
      both : Option Bytes → Option Bytes → Bool
      both (some aa) (some bb) = aa == bb
      both _ _ = false

  unfoldable pub subject_key_id : PublicKey → Result Bytes
  subject_key_id pub_key = or_error (marshal_public pub_key) foreign >>= λ der. ok (sha1 der)

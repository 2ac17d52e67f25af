-- ===== src/Certs/Authority/Lawful.antt =====
-- What certs relies on of the crypto libraries, and what `makeRoot` and `makeIssuer` give under it.
use compage_go.Base.{
  ℕ, inl, inr, ◌⊎◌, ◌+◌, ◌/◌, ◌≤◌, ◌<◌, ◌≡◌, refl, Bool, true, false, some, [], ◌∷◌, ◌==◌,
  nat_comparable, zero, suc, ◌++◌, ◌%◌, ◌&&◌, list_comparable, Bytes, lit, arith, ltb,
}
use compage_go.Go.Strconv.{pos, int_comparable, itoa, show_digits}
use compage_go.Certs.Names.{Identity}
use compage_go.Certs.Errors.{ok}
use compage_go.Certs.Definition.{IssuerDefinition, valid_key_spec}
use compage_go.Certs.Crypto.{
  Cert, Crypto, PublicKey, ca_name, root_common_name, issuer_common_name, parse_cert_der,
  key_spec_for_public, supported_public_key, subject_key_id,
}
use compage_go.Certs.Sans.{no_sans}
use compage_go.Certs.State.{AuthoritySpec, RootRecord, IssuerVersion, clock_skew}
use compage_go.Certs.Request.{whole_seconds}
use compage_go.Certs.Manager.{add_time}
use compage_go.Certs.Making.{root_template, make_root, issuer_template, make_issuer}

-- Text that every string type of ASN.1 that x509 may choose can hold.
unfoldable pub is_ascii : Bytes → Bool
is_ascii [] = true
is_ascii (c ∷ b) = ltb c 128 && is_ascii b

-- the start of the year 10000, which no certificate can name
abbrev pub too_late : ℕ
too_late = 315537897600000000000

-- what a CA's name takes of an identity
pub record IsAsciiIdentity (v : Identity) : Type 0 where
  pub organization : is_ascii v.organization ≡ true
  pub organizational_unit : is_ascii v.organizational_unit ≡ true
  pub country : is_ascii v.country ≡ true
  pub province : is_ascii v.province ≡ true
  pub locality : is_ascii v.locality ≡ true

is_ascii-append : (a b : Bytes) → is_ascii (a ++ b) ≡ (is_ascii a && is_ascii b)
unfolding is_ascii
is_ascii-append [] b = refl
is_ascii-append (c ∷ a) b = ground (arith, is_ascii-append a b)

is_ascii-show_digits : (fuel n : ℕ) → is_ascii (show_digits fuel n) ≡ true
unfolding show_digits is_ascii
is_ascii-show_digits zero n = refl
is_ascii-show_digits (suc fuel) n = ground (
  arith,
  is_ascii-show_digits fuel (n / 10),
  is_ascii-append (show_digits fuel (n / 10)) ((48 + n % 10) ∷ []),
)

is_ascii-root_common_name :
    (name : Bytes) (g : ℕ) → is_ascii name ≡ true → is_ascii (root_common_name name g) ≡ true
unfolding root_common_name itoa lit
is_ascii-root_common_name name g h =
    simp (is_ascii-append, is_ascii-show_digits, h) (unfold is_ascii in refl)

is_ascii-issuer_common_name :
    (authority : Bytes) (g : ℕ) (name : Bytes) (v : ℕ)
    → is_ascii authority ≡ true
    → is_ascii name ≡ true
    → is_ascii (issuer_common_name authority g name v) ≡ true
unfolding issuer_common_name itoa lit
is_ascii-issuer_common_name authority g name v ha hn =
    simp (is_ascii-append, is_ascii-show_digits, ha, hn) (unfold is_ascii in refl)

-- What a certificate that is made of a CA's template has. Its end is cut to whole seconds.
pub record IsMadeOf (x : Crypto) (t : Cert) (pub_key : PublicKey) (signer : x.Key) (c : Cert)
    : Type 0 where
  pub subject : c.subject ≡ t.subject
  pub not_after : c.not_after ≡ whole_seconds t.not_after
  pub is_ca : c.is_ca ≡ true
  pub valid : c.basic_constraints_valid ≡ true
  pub max_path_len : c.max_path_len ≡ t.max_path_len
  pub max_path_len_zero : c.max_path_len_zero ≡ t.max_path_len_zero
  pub cert_sign : c.cert_sign ≡ true
  pub crl_sign : c.crl_sign ≡ true
  pub public_key : c.public_key ≡ pub_key
  pub signed_by :
      (parent : Cert)
      → parent.public_key ≡ x.public signer
      → parent.is_ca ≡ true
      → parent.basic_constraints_valid ≡ true
      → parent.cert_sign ≡ true
      → x.signed_by c parent ≡ true

-- A template of a CA that x509 takes: its path length is a positive `int`, or zero and said to be
-- meant, its times can be written, and it asks for nothing of an end entity's certificate.
pub record IsCaTemplate (x : Crypto) (t : Cert) : Type 0 where
  pub serial : (draw : ℕ) × (x.random_serial draw ≡ some t.serial)
  pub is_ca : t.is_ca ≡ true
  pub valid : t.basic_constraints_valid ≡ true
  pub path_len :
      ((n : ℕ) × (n < 9223372036854775807)
        × (t.max_path_len ≡ pos (suc n))
        × (t.max_path_len_zero ≡ false))
      ⊎ ((t.max_path_len ≡ pos 0) × (t.max_path_len_zero ≡ true))
  pub cert_sign : t.cert_sign ≡ true
  pub crl_sign : t.crl_sign ≡ true
  pub usage :
      (t.digital_signature ≡ false)
      × (t.other_bits ≡ 0)
      × (t.ext_key_usage ≡ [])
      × (t.sans ≡ no_sans)
  pub begins : t.not_before < too_late
  pub ends : t.not_after < too_late

-- a private key of a kind that x509 and PKCS #8 know
abbrev pub IsKnownKey : (x : Crypto) → x.Key → Type 0
IsKnownKey x k = supported_public_key (x.public k) ≡ ok tt

-- The libraries do what they are called for, and the source of randomness does not fail.
pub record IsLawful (x : Crypto) : Type 0 where
  pub generates :
      (spec : Bytes) (draw : ℕ)
      → valid_key_spec spec ≡ true
      → (k : x.Key) × (x.generate_key spec draw ≡ some k)
        × (key_spec_for_public (x.public k) ≡ some spec)
        × (supported_public_key (x.public k) ≡ ok tt)
  pub serials : (draw : ℕ) → (b : Bytes) × (x.random_serial draw ≡ some b)
  pub secrets : (draw : ℕ) → (b : Bytes) × (x.random_secret draw ≡ some b)
  pub ids : (draw : ℕ) → (b : Bytes) × (x.random_id draw ≡ some b) × ((b == []) ≡ false)
  pub marshals :
      (k : x.Key) → IsKnownKey x k → (der : Bytes) × (x.marshal_public (x.public k) ≡ some der)
  pub certifies :
      (t parent : Cert) (pub_key : PublicKey) (signer : x.Key) (v : Identity) (cn : Bytes)
      → t.subject ≡ ca_name v cn
      → IsAsciiIdentity v
      → is_ascii cn ≡ true
      → IsCaTemplate x t
      → supported_public_key pub_key ≡ ok tt
      → IsKnownKey x signer
      → parent.public_key ≡ x.public signer
      → (der : Bytes) × (c : Cert) × (x.create_certificate t parent pub_key signer ≡ some der)
        × (x.parse_certificate der ≡ some c)
        × IsMadeOf x t pub_key signer c
  pub encodes :
      (k : x.Key)
      → IsKnownKey x k
      → (der : Bytes) × (x.marshal_private k ≡ some der)
        × ((der == []) ≡ false)
        × (x.parse_private der ≡ some k)
  pub encrypts :
      (k : x.Key) (secret : Bytes) (draw : ℕ)
      → IsKnownKey x k
      → x.random_secret draw ≡ some secret
      → (der : Bytes) × (x.encrypt_private k secret ≡ some der) × ((der == []) ≡ false)

module _ (x : Crypto) (lawful : IsLawful x) where
  -- A root is made, with this certificate and key.
  pub record IsRootOf (spec : AuthoritySpec) (g now : ℕ) (root : RootRecord) (key : x.Key)
      (c : Cert) : Type 0 where
    pub generation : root.generation ≡ g
    pub parsed : x.parse_certificate root.certificate_der ≡ some c
    pub encrypted : (root.encrypted_key_der == []) ≡ false
    pub fingerprint : root.fingerprint ≡ x.fingerprint c
    pub spec_of : key_spec_for_public (x.public key) ≡ some spec.key_spec
    pub supported : supported_public_key (x.public key) ≡ ok tt
    pub subject : c.subject ≡ ca_name spec.identity (root_common_name spec.name g)
    pub not_after : c.not_after ≡ whole_seconds (add_time now spec.root_validity)
    pub is_ca : c.is_ca ≡ true
    pub valid : c.basic_constraints_valid ≡ true
    pub max_path_len : c.max_path_len ≡ pos 1
    pub cert_sign : c.cert_sign ≡ true
    pub crl_sign : c.crl_sign ≡ true
    pub public_key : c.public_key ≡ x.public key
    pub self_signed : x.signed_by c c ≡ true

  pub make_root_succeeds :
      (spec : AuthoritySpec) (g now draw : ℕ)
      → valid_key_spec spec.key_spec ≡ true
      → IsAsciiIdentity spec.identity
      → is_ascii spec.name ≡ true
      → now < too_late
      → add_time now spec.root_validity < too_late
      → (root : RootRecord) × (key : x.Key) × (secret : Bytes) × (c : Cert) × (make_root x spec g
            now draw
          ≡ ok (root, key, secret))
        × IsRootOf spec g now root key c
  unfolding make_root subject_key_id
  make_root_succeeds spec g now draw valid text ascii soon early =
      let (key, made, of_spec, supported) = lawful.generates spec.key_spec draw valid in
      let (public_der, marshaled) = lawful.marshals key supported in
      let (serial, drawn) = lawful.serials draw in
      let (secret, hidden) = lawful.secrets draw in
      let t = root_template x spec g now serial (x.sha1 public_der) key in
      let (der, c, created, parsed, of) =
        lawful.certifies t t (x.public key) key spec.identity (root_common_name spec.name g) refl
          text (is_ascii-root_common_name spec.name g ascii)
          (record {
            serial = (draw, drawn);
            is_ca = refl;
            valid = refl;
            path_len = inl (0, omega arith, refl, refl);
            cert_sign = refl;
            crl_sign = refl;
            usage = (refl, refl, refl, refl);
            begins = omega arith;
            ends = early;
          })
          supported supported refl in
      let (encrypted, locked, full) = lawful.encrypts key secret draw supported hidden in
      let root : RootRecord = record {
        generation = g;
        certificate_der = der;
        encrypted_key_der = encrypted;
        fingerprint = x.fingerprint c;
        retired_trust_until = 0;
      } in
      (
        root,
        key,
        secret,
        c,
        ground arith,
        record {
          generation = refl;
          parsed = parsed;
          encrypted = full;
          fingerprint = refl;
          spec_of = of_spec;
          supported = supported;
          subject = of.subject;
          not_after = of.not_after;
          is_ca = of.is_ca;
          valid = of.valid;
          max_path_len = of.max_path_len;
          cert_sign = of.cert_sign;
          crl_sign = of.crl_sign;
          public_key = of.public_key;
          self_signed = of.signed_by c of.public_key of.is_ca of.valid of.cert_sign;
        },
      )

  -- A version of an issuer is made, with this certificate and key, under a root with certificate `rc`.
  pub record IsVersionOf (spec : AuthoritySpec) (g n : ℕ) (d : IssuerDefinition) (now : ℕ)
      (rc : Cert) (v : IssuerVersion) (key : x.Key) (c : Cert) : Type 0 where
    pub version : v.version ≡ n
    pub root_generation : v.root_generation ≡ g
    pub parsed : x.parse_certificate v.certificate_der ≡ some c
    pub encoded : (v.key_der == []) ≡ false
    pub decoded : x.parse_private v.key_der ≡ some key
    pub supported : supported_public_key (x.public key) ≡ ok tt
    pub fingerprint : v.fingerprint ≡ x.fingerprint c
    pub spec_of : key_spec_for_public (x.public key) ≡ some spec.key_spec
    pub subject : c.subject ≡ ca_name spec.identity (issuer_common_name spec.name g d.name n)
    pub not_after : c.not_after ≡ whole_seconds (add_time now d.validity)
    pub is_ca : c.is_ca ≡ true
    pub valid : c.basic_constraints_valid ≡ true
    pub max_path_len : c.max_path_len ≡ pos 0
    pub max_path_len_zero : c.max_path_len_zero ≡ true
    pub cert_sign : c.cert_sign ≡ true
    pub public_key : c.public_key ≡ x.public key
    pub signed : x.signed_by c rc ≡ true

  pub make_issuer_succeeds :
      (spec : AuthoritySpec) (g n : ℕ) (d : IssuerDefinition) (root : RootRecord) (root_key : x.Key)
      (rc : Cert) (made now draw : ℕ)
      → valid_key_spec spec.key_spec ≡ true
      → IsAsciiIdentity spec.identity
      → is_ascii spec.name ≡ true
      → is_ascii d.name ≡ true
      → now < too_late
      → rc.not_after < too_late
      → IsRootOf spec g made root root_key rc
      → add_time now d.validity + clock_skew ≤ rc.not_after
      → (v : IssuerVersion) × (key : x.Key) × (c : Cert) × (make_issuer x spec g n d root root_key
            now draw
          ≡ ok v)
        × IsVersionOf spec g n d now rc v key c
  unfolding make_issuer subject_key_id parse_cert_der
  make_issuer_succeeds spec g n d root root_key rc made now draw valid text ascii ascii' soon early
        r fits =
      let (key, drawn_key, of_spec, supported) = lawful.generates spec.key_spec draw valid in
      let (public_der, marshaled) = lawful.marshals key supported in
      let (serial, drawn) = lawful.serials draw in
      let t = issuer_template x spec g n d rc now serial (x.sha1 public_der) key in
      let (der, c, created, parsed, of) =
        lawful.certifies t rc (x.public key) root_key spec.identity
          (issuer_common_name spec.name g d.name n) refl text
          (is_ascii-issuer_common_name spec.name g d.name n ascii ascii')
          (record {
            serial = (draw, drawn);
            is_ca = refl;
            valid = refl;
            path_len = inr (refl, refl);
            cert_sign = refl;
            crl_sign = refl;
            usage = (refl, refl, refl, refl);
            begins = omega arith;
            ends = omega arith;
          })
          supported r.supported r.public_key in
      let (encoded, marshaled_key, full, decoded) = lawful.encodes key supported in
      let v : IssuerVersion = record {
        version = n;
        root_generation = g;
        certificate_der = der;
        key_der = encoded;
        fingerprint = x.fingerprint c;
      } in
      let root_parsed = r.parsed in
      (
        v,
        key,
        c,
        ground arith,
        record {
          version = refl;
          root_generation = refl;
          parsed = parsed;
          encoded = full;
          decoded = decoded;
          supported = supported;
          fingerprint = refl;
          spec_of = of_spec;
          subject = of.subject;
          not_after = of.not_after;
          is_ca = of.is_ca;
          valid = of.valid;
          max_path_len = of.max_path_len;
          max_path_len_zero = of.max_path_len_zero;
          cert_sign = of.cert_sign;
          public_key = of.public_key;
          signed = of.signed_by rc r.public_key r.is_ca r.valid r.cert_sign;
        },
      )

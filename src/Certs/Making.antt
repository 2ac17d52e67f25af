-- ===== src/Certs/Making.antt =====
-- certs/authority.go: `makeRoot` and `makeIssuer`.
use compage_go.Base.{ℕ, ◌+◌, ◌-◌, true, false, [], nat_comparable, list_comparable, Bytes, lit, ltb}
use compage_go.Go.Strconv.{pos, int_comparable}
use compage_go.Certs.Errors.{validation_error, foreign, panicked, Result, ok, ◌>>=◌, ◌>>◌, refuse}
use compage_go.Certs.Definition.{IssuerDefinition}
use compage_go.Certs.Crypto.{
  Cert, Crypto, ca_name, root_common_name, issuer_common_name, or_error, parse_cert_der,
  subject_key_id,
}
use compage_go.Certs.Sans.{no_sans}
use compage_go.Certs.State.{AuthoritySpec, RootRecord, IssuerVersion, clock_skew}
use compage_go.Certs.Manager.{add_time}

module _ (x : Crypto) where
  open x use {
    Key, public, generate_key, random_serial, random_secret, random_id, create_certificate,
    parse_certificate, fingerprint, marshal_private, encrypt_private,
  }

  -- the template of a root; it is its own parent
  abbrev pub root_template : AuthoritySpec → ℕ → ℕ → Bytes → Bytes → Key → Cert
  root_template spec generation now serial ski key =
      let name = ca_name spec.identity (root_common_name spec.name generation) in
      record {
        serial = serial;
        subject = name;
        issuer = name;
        not_before = now - clock_skew;
        not_after = add_time now spec.root_validity;
        is_ca = true;
        basic_constraints_valid = true;
        max_path_len = pos 1;
        max_path_len_zero = false;
        cert_sign = true;
        crl_sign = true;
        subject_key_id = ski;
        authority_key_id = ski;
        public_key = public key;
        digital_signature = false;
        other_bits = 0;
        ext_key_usage = [];
        sans = no_sans;
      }

  unfoldable pub make_root : AuthoritySpec → ℕ → ℕ → ℕ → Result (RootRecord × Key × Bytes)
  make_root spec generation now draw = do
    key ← or_error (generate_key spec.key_spec draw) foreign
    ski ← subject_key_id x (public key)
    serial ← or_error (random_serial draw) foreign
    let t = root_template spec generation now serial ski key
    der ← or_error (create_certificate t t (public key) key) foreign
    cert ← or_error (parse_certificate der) foreign
    secret ← or_error (random_secret draw) foreign
    encrypted ← or_error (encrypt_private key secret) foreign
    ok (
      record {
        generation = generation;
        certificate_der = der;
        encrypted_key_der = encrypted;
        fingerprint = fingerprint cert;
        retired_trust_until = 0;
      },
      key,
      secret,
    )

  abbrev pub issuer_template :
      AuthoritySpec → ℕ → ℕ → IssuerDefinition → Cert → ℕ → Bytes → Bytes → Key → Cert
  issuer_template spec generation version d rc now serial ski key = record {
    serial = serial;
    subject = ca_name spec.identity (issuer_common_name spec.name generation d.name version);
    issuer = rc.subject;
    not_before = now - clock_skew;
    not_after = add_time now d.validity;
    is_ca = true;
    basic_constraints_valid = true;
    max_path_len = pos 0;
    max_path_len_zero = true;
    cert_sign = true;
    crl_sign = true;
    subject_key_id = ski;
    authority_key_id = rc.subject_key_id;
    public_key = public key;
    digital_signature = false;
    other_bits = 0;
    ext_key_usage = [];
    sans = no_sans;
  }

  -- The error of the last parse is dropped, and a nil certificate followed.
  unfoldable pub make_issuer :
      AuthoritySpec → ℕ → ℕ → IssuerDefinition → RootRecord → Key → ℕ → ℕ → Result IssuerVersion
  make_issuer spec generation version d root root_key now draw = do
    rc ← parse_cert_der x root.certificate_der
    refuse (ltb rc.not_after (add_time now d.validity + clock_skew))
        (validation_error (lit "issuer validity does not fit within root validity"))
    key ← or_error (generate_key spec.key_spec draw) foreign
    ski ← subject_key_id x (public key)
    serial ← or_error (random_serial draw) foreign
    der ←
        or_error
          (create_certificate (issuer_template spec generation version d rc now serial ski key) rc
            (public key) root_key)
          foreign
    key_der ← or_error (marshal_private key) foreign
    cert ← or_error (parse_certificate der) panicked
    ok (record {
      version = version;
      root_generation = generation;
      certificate_der = der;
      key_der = key_der;
      fingerprint = fingerprint cert;
    })

-- ===== src/Certs/Toy.antt =====
-- Concrete functions in the place of the crypto libraries, for runs: a certificate is the list of its
-- flag, its end, its key and its common name; signatures always verify.
use compage_go.Base.{
  ℕ, suc, Bool, true, false, Option, none, some, [], ◌∷◌, ◌==◌, nat_comparable, list_comparable,
  replicate, Bytes, lit, arith,
}
use compage_go.Go.Strconv.{pos}
use compage_go.Certs.Definition.{IssuerDefinition}
use compage_go.Certs.Crypto.{Name, Cert, PublicKey, ed25519, Crypto}
use compage_go.Certs.Names.{no_identity}
use compage_go.Certs.Definition.{two_years}
use compage_go.Certs.Manager.{Manager}
use compage_go.Certs.Store.{Store, nothing}
use compage_go.Certs.Sans.{Net, no_sans}
use compage_go.Certs.Sound.Made.{KeysAreEncoded}

abbrev pub toy_public : ℕ → PublicKey
toy_public k = ed25519 (k ∷ replicate 31 0)

abbrev toy_name : Bytes → Name
toy_name cn = record {
  organization = [];
  organizational_unit = [];
  country = [];
  province = [];
  locality = [];
  common_name = cn;
}

abbrev pub toy_parse : Bytes → Option Cert
toy_parse (flag ∷ until ∷ k ∷ cn) = some (record {
  serial = [];
  subject = toy_name cn;
  issuer = toy_name [];
  not_before = 0;
  not_after = until;
  is_ca = true;
  basic_constraints_valid = true;
  max_path_len = pos flag;
  max_path_len_zero = flag == 0;
  cert_sign = true;
  crl_sign = true;
  subject_key_id = [];
  authority_key_id = [];
  public_key = toy_public k;
  digital_signature = false;
  other_bits = 0;
  ext_key_usage = [];
  sans = no_sans;
})
toy_parse _ = none

abbrev toy_key : Bytes → Option ℕ
toy_key [] = none
toy_key (k ∷ _) = some k

abbrev toy_marshal : PublicKey → Option Bytes
toy_marshal (ed25519 k) = some k
toy_marshal _ = none

abbrev flag_of : Bool → ℕ
flag_of true = 0
flag_of false = 1

abbrev key_of : PublicKey → ℕ
key_of (ed25519 (k ∷ _)) = k
key_of _ = 0

abbrev pub toy : Crypto
toy = record {
  Key = ℕ;
  public = toy_public;
  generate_key = λ spec draw. some (suc draw);
  random_serial = λ draw. some (draw ∷ []);
  random_secret = λ draw. some (7 ∷ []);
  random_id = λ draw. some (9 ∷ []);
  create_certificate = λ t parent k signer.
      some (flag_of t.max_path_len_zero ∷ t.not_after ∷ key_of k ∷ t.subject.common_name);
  parse_certificate = toy_parse;
  signed_by = λ c parent. true;
  self_issued = λ c. true;
  fingerprint = λ c. c.subject.common_name;
  marshal_public = toy_marshal;
  sha1 = λ b. b;
  marshal_private = λ k. some (k ∷ []);
  encrypt_private = λ k secret. some (k ∷ []);
  parse_private = toy_key;
  decrypt_private = λ der secret. toy_key der;
}

pub toy_encoded : KeysAreEncoded toy
toy_encoded = record {
  marshal_ne_nil = λ k der h e. ground arith;
  encrypt_ne_nil = λ k secret der h e. ground arith;
}

abbrev pub toy_scheme : Bytes → Option Bytes
toy_scheme prefix = some (lit "https")

abbrev pub same_name : IssuerDefinition → IssuerDefinition → Bool
same_name a b = a.name == b.name

abbrev pub toy_net : Net
toy_net = record { ip_text = λ ip. ip; contains_ip = λ range ip. true; equal_fold = λ a b. a == b }

abbrev pub web : IssuerDefinition
web = record {
  name = lit "Web One";
  slug_name = lit "web-one";
  validity = two_years;
  allowed_profiles = lit "tls-client" ∷ [];
  subject_owner = [];
  required_subject = record no_identity { organization = lit "Acme" };
  san_policy = record {
    dns_suffixes = lit "example.com" ∷ [];
    ip_ranges = [];
    uri_prefixes = lit "https://a" ∷ [];
    email_domains = [];
  };
}

abbrev pub manager : Manager
manager = record {
  config = record {
    authority_name = some (lit "Acme");
    identity = none;
    owner = lit "root";
    group = lit "pki";
    key_spec = some (lit "ed25519");
    issuance_mode = none;
    root_validity = none;
    issuers = web ∷ [];
    root_unlock = [];
  };
  generated = [];
  closed = false;
  seed = 0;
}

abbrev pub empty_store : Store
empty_store = record {
  stored = none;
  unlocks = none;
  ledger = [];
  refusals = [];
  unlock_refusal = none;
  ledger_refusal = none;
  torn = nothing;
  owner = lit "root";
  group = lit "pki";
  store_kind = lit "file";
}

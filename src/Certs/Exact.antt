-- ===== src/Certs/Exact.antt =====
-- Concrete functions in the place of the crypto libraries that keep all of a CA's certificate that certs
-- relies on: its end, path length, key and subject. A private key is its public key, and signatures
-- always verify.
use compage_go.Base.{
  ℕ, zero, suc, sym, ap, ◌∙◌, list_same_iff, ◌≡◌, refl, Bool, true, false, Option, none, some, [],
  ◌∷◌, ◌==◌, nat_comparable, list_comparable, inl, inr, Bool-cases, if◌then◌else◌, replicate, Bytes,
  lit, arith,
}
use compage_go.Go.Strconv.{ℤ, pos, negsuc}
use compage_go.Certs.Errors.{ok}
use compage_go.Certs.Crypto.{
  Name, first, nonempty, ca_name, Cert, PublicKey, ecdsa, ed25519, rsa, other_key, Crypto,
  key_spec_for_public, supported_public_key,
}
use compage_go.Certs.Definition.{valid_key_spec}
use compage_go.Certs.Sans.{no_sans}
use compage_go.Certs.Authority.Lawful.{IsLawful, IsMadeOf}
use compage_go.Certs.Names.{Identity}
use compage_go.Certs.Request.{whole_seconds}
use compage_go.Certs.Authority.Created.{first-nonempty}

-- a string with an end, before more
abbrev quote : Bytes → Bytes → Bytes
quote [] rest = 0 ∷ rest
quote (c ∷ s) rest = suc c ∷ quote s rest

abbrev unquote : Bytes → Bytes × Bytes
unquote [] = ([], [])
unquote (zero ∷ rest) = ([], rest)
unquote (suc c ∷ b) = let (s, rest) = unquote b in (c ∷ s, rest)

unquote-quote : (s rest : Bytes) → unquote (quote s rest) ≡ (s, rest)
unquote-quote [] rest = refl
unquote-quote (c ∷ s) rest = rw (unquote-quote s rest) refl

-- a public key as a list: its kind, its size in bits and its bytes
abbrev kind_of_key : PublicKey → ℕ
kind_of_key (ecdsa bits b) = 0
kind_of_key (ed25519 b) = 1
kind_of_key (rsa bits b) = 2
kind_of_key other_key = 3

abbrev bits_of_key : PublicKey → ℕ
bits_of_key (ecdsa bits b) = bits
bits_of_key (rsa bits b) = bits
bits_of_key _ = 0

abbrev bytes_of_key : PublicKey → Bytes
bytes_of_key (ecdsa bits b) = b
bytes_of_key (ed25519 b) = b
bytes_of_key (rsa bits b) = b
bytes_of_key other_key = []

abbrev key_from : ℕ → ℕ → Bytes → PublicKey
key_from zero bits b = ecdsa bits b
key_from (suc zero) bits b = ed25519 b
key_from (suc (suc zero)) bits b = rsa bits b
key_from _ bits b = other_key

key_from-kind_of_key :
    (k : PublicKey) → key_from (kind_of_key k) (bits_of_key k) (bytes_of_key k) ≡ k
key_from-kind_of_key (ecdsa bits b) = refl
key_from-kind_of_key (ed25519 b) = refl
key_from-kind_of_key (rsa bits b) = refl
key_from-kind_of_key other_key = refl

abbrev print_key : PublicKey → Bytes
print_key k = kind_of_key k ∷ bits_of_key k ∷ bytes_of_key k

abbrev parse_key : Bytes → Option PublicKey
parse_key (kind ∷ bits ∷ b) = some (key_from kind bits b)
parse_key _ = none

abbrev sign_of : ℤ → ℕ
sign_of (pos n) = 0
sign_of (negsuc n) = 1

abbrev size_of : ℤ → ℕ
size_of (pos n) = n
size_of (negsuc n) = n

abbrev int_from : ℕ → ℕ → ℤ
int_from zero n = pos n
int_from (suc s) n = negsuc n

int_from-sign_of : (i : ℤ) → int_from (sign_of i) (size_of i) ≡ i
int_from-sign_of (pos n) = refl
int_from-sign_of (negsuc n) = refl

abbrev bit_of : Bool → ℕ
bit_of true = 1
bit_of false = 0

bit_of-back : (b : Bool) → (bit_of b == 1) ≡ b
bit_of-back true = refl
bit_of-back false = refl

abbrev print_name : Name → Bytes
print_name n = quote (first n.organization) (
    quote (first n.organizational_unit) (
      quote (first n.country)
        (quote (first n.province) (quote (first n.locality) (quote n.common_name [])))))

abbrev name_from : Bytes → Name
name_from b =
    let (organization, b1) = unquote b in
    let (unit, b2) = unquote b1 in
    let (country, b3) = unquote b2 in
    let (province, b4) = unquote b3 in
    let (locality, b5) = unquote b4 in
    record {
      organization = nonempty organization;
      organizational_unit = nonempty unit;
      country = nonempty country;
      province = nonempty province;
      locality = nonempty locality;
      common_name = (unquote b5).0;
    }

name_from-print_name :
    (v : Identity) (cn : Bytes) → name_from (print_name (ca_name v cn)) ≡ ca_name v cn
unfolding ca_name
name_from-print_name v cn = simp (unquote-quote, first-nonempty) refl

abbrev print_certificate : Cert → PublicKey → Bytes
print_certificate t k =
    whole_seconds t.not_after
    ∷ sign_of t.max_path_len
    ∷ size_of t.max_path_len
    ∷ bit_of t.max_path_len_zero
    ∷ kind_of_key k
    ∷ bits_of_key k
    ∷ quote (bytes_of_key k) (print_name t.subject)

abbrev exact_parse : Bytes → Option Cert
exact_parse (until ∷ sign ∷ size ∷ bit ∷ kind ∷ bits ∷ b) =
    let (key, name) = unquote b in
    some (record {
      serial = [];
      subject = name_from name;
      issuer = name_from name;
      not_before = 0;
      not_after = until;
      is_ca = true;
      basic_constraints_valid = true;
      max_path_len = int_from sign size;
      max_path_len_zero = bit == 1;
      cert_sign = true;
      crl_sign = true;
      subject_key_id = [];
      authority_key_id = [];
      public_key = key_from kind bits key;
      digital_signature = false;
      other_bits = 0;
      ext_key_usage = [];
      sans = no_sans;
    })
exact_parse _ = none

-- a key of the strength that a specification asks for
abbrev new_key : Bytes → ℕ → PublicKey
new_key spec draw =
    if spec == lit "ecdsa-p256"
    then ecdsa 256 (draw ∷ [])
    else if spec == lit "ecdsa-p384"
    then ecdsa 384 (draw ∷ [])
    else if spec == lit "ed25519"
    then ed25519 (replicate 32 draw)
    else if spec == lit "rsa-3072"
    then rsa 3072 (draw ∷ [])
    else rsa 4096 (draw ∷ [])

abbrev pub exact : Crypto
exact = record {
  Key = PublicKey;
  public = λ k. k;
  generate_key = λ spec draw. some (new_key spec draw);
  random_serial = λ draw. some (draw ∷ []);
  random_secret = λ draw. some (7 ∷ draw ∷ []);
  random_id = λ draw. some (9 ∷ draw ∷ []);
  create_certificate = λ t parent k signer. some (print_certificate t k);
  parse_certificate = exact_parse;
  signed_by = λ c parent. true;
  self_issued = λ c. true;
  fingerprint = λ c. c.subject.common_name;
  marshal_public = λ k. some (print_key k);
  sha1 = λ b. b;
  marshal_private = λ k. some (print_key k);
  encrypt_private = λ k secret. some (print_key k);
  parse_private = parse_key;
  decrypt_private = λ der secret. parse_key der;
}

new_key-spec :
    (spec : Bytes) (draw : ℕ)
    → valid_key_spec spec ≡ true
    → (key_spec_for_public (new_key spec draw) ≡ some spec)
      × (supported_public_key (new_key spec draw) ≡ ok tt)
unfolding valid_key_spec key_spec_for_public supported_public_key
new_key-spec spec draw valid = elim (Bool-cases (spec == lit "ecdsa-p256")) [
  | inl e ↦ rw e (ap (λ s. some s) (sym (known e)), refl)
  | inr e1 ↦ elim (Bool-cases (spec == lit "ecdsa-p384")) [
    | inl e ↦ rw (e1, e) (ap (λ s. some s) (sym (known e)), refl)
    | inr e2 ↦ elim (Bool-cases (spec == lit "ed25519")) [
      | inl e ↦ rw (e1, e2, e) (ap (λ s. some s) (sym (known e)), refl)
      | inr e3 ↦ elim (Bool-cases (spec == lit "rsa-3072")) [
        | inl e ↦ rw (e1, e2, e3, e) (ap (λ s. some s) (sym (known e)), refl)
        | inr e4 ↦
            rw (e1, e2, e3, e4) (ap (λ s. some s) (sym (known (last e1 e2 e3 e4 valid))), refl)
      ]
    ]
  ]
]
  where
    known : {b : Bytes} → (spec == b) ≡ true → spec ≡ b
    known {b = b} e = (list_same_iff spec b).0 e

    last :
        (spec == lit "ecdsa-p256") ≡ false
        → (spec == lit "ecdsa-p384") ≡ false
        → (spec == lit "ed25519") ≡ false
        → (spec == lit "rsa-3072") ≡ false
        → valid_key_spec spec ≡ true
        → (spec == lit "rsa-4096") ≡ true
    last e1 e2 e3 e4 v = ground arith

-- what is read of a certificate that is made of a template
abbrev made_of : Cert → PublicKey → Cert
made_of t k = record {
  serial = [];
  subject = name_from (print_name t.subject);
  issuer = name_from (print_name t.subject);
  not_before = 0;
  not_after = whole_seconds t.not_after;
  is_ca = true;
  basic_constraints_valid = true;
  max_path_len = t.max_path_len;
  max_path_len_zero = t.max_path_len_zero;
  cert_sign = true;
  crl_sign = true;
  subject_key_id = [];
  authority_key_id = [];
  public_key = k;
  digital_signature = false;
  other_bits = 0;
  ext_key_usage = [];
  sans = no_sans;
}

made_of-parse :
    (t : Cert) (k : PublicKey) → exact_parse (print_certificate t k) ≡ some (made_of t k)
made_of-parse t k = simp (unquote-quote, key_from-kind_of_key, int_from-sign_of, bit_of-back) refl

made_of-IsMadeOf :
    (t : Cert) (k signer : PublicKey) (v : Identity) (cn : Bytes)
    → t.subject ≡ ca_name v cn
    → IsMadeOf exact t k signer (made_of t k)
made_of-IsMadeOf t k signer v cn name = record {
  subject = ap (λ n. name_from (print_name n)) name ∙ (name_from-print_name v cn ∙ sym name);
  not_after = refl;
  is_ca = refl;
  valid = refl;
  max_path_len = refl;
  max_path_len_zero = refl;
  cert_sign = refl;
  crl_sign = refl;
  public_key = refl;
  signed_by = λ parent same ca valid sign. refl;
}

pub exact-IsLawful : IsLawful exact
exact-IsLawful = record {
  generates = λ spec draw valid.
      (new_key spec draw, refl, (new_key-spec spec draw valid).0, (new_key-spec spec draw valid).1);
  serials = λ draw. (draw ∷ [], refl);
  secrets = λ draw. (7 ∷ draw ∷ [], refl);
  ids = λ draw. (9 ∷ draw ∷ [], refl, refl);
  marshals = λ k known. (print_key k, refl);
  certifies = λ t parent k signer v cn name text ascii template supported known matches. (
    print_certificate t k,
    made_of t k,
    refl,
    made_of-parse t k,
    made_of-IsMadeOf t k signer v cn name,
  );
  encodes = λ k known. (print_key k, refl, refl, ap (λ k. some k) (key_from-kind_of_key k));
  encrypts = λ k secret draw known drawn. (print_key k, refl, refl);
}

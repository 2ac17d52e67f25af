-- ===== src/Certs/Request/Admitted.antt =====
-- What an issuer admits to be signed.
use compage_go.Base.{
  ℕ, ◌+◌, ◌≤◌, ◌<◌, ◌≡◌, ◌≢◌, ◌⊎◌, inl, inr, refl, sym, ap, true, Option, none, some, List, [], ◌∷◌,
  ◌++◌, ◌==◌, nat_comparable, nat_beq_iff, list_comparable, list_same_iff, Bytes, arith, All,
  Bool-cases,
}
use compage_go.Base.Members.{contains}
use compage_go.Go.Strings.{has_prefix, has_suffix}
use compage_go.Go.Unicode.{to_lower}
use compage_go.Certs.Errors.{Result, ok, err}
use compage_go.Certs.Names.{Identity}
use compage_go.Certs.Dns.{trim_suffix, policy_suffix, matches_one, matches_any, matches_dns_suffix}
use compage_go.Certs.Definition.{IssuerDefinition, valid_profile}
use compage_go.Certs.State.{clock_skew, maximum_leaf_validity}
use compage_go.Certs.Sans.{Url, Sans, Net}
use compage_go.Certs.Request.{
  satisfies, subject_permitted, dns_permitted, prefixed_by, uri_permitted, all_permitted,
  check_uris, validate_request, Csr, SignOptions, Signer, Leaf, admit, choose_profile,
  choose_lifetime, whole_seconds,
}

-- the name is the domain, or one below it
abbrev pub IsBelow : Bytes → Bytes → Type 0
IsBelow name domain = (name ≡ domain) ⊎ ((p : Bytes) × (name ≡ p ++ b'.' ∷ domain))

-- ... of one suffix of a policy
abbrev pub IsBelowSome : Bytes → List Bytes → Type 0
IsBelowSome name [] = ⊥
IsBelowSome name (suffix ∷ suffixes) =
    IsBelow name (policy_suffix suffix) ⊎ IsBelowSome name suffixes

-- the text continues one prefix of a policy
abbrev pub Continues : Bytes → List Bytes → Type 0
Continues text [] = ⊥
Continues text (prefix ∷ prefixes) =
    ((rest : Bytes) × (text ≡ prefix ++ rest)) ⊎ Continues text prefixes

has_suffix-parts : (s suffix : Bytes) → has_suffix s suffix ≡ true → (p : Bytes) × (s ≡ p ++ suffix)
unfolding has_suffix
has_suffix-parts [] suffix h = ([], (list_same_iff [] suffix).0 h)
has_suffix-parts (c ∷ s) suffix h = elim (Bool-cases ((c ∷ s) == suffix)) [
  | inl e ↦ ([], (list_same_iff (c ∷ s) suffix).0 e)
  | inr e ↦ let (p, q) = has_suffix-parts s suffix (ground arith) in (c ∷ p, ap (λ r. c ∷ r) q)
]

has_prefix-parts : (s prefix : Bytes) → has_prefix s prefix ≡ true → (r : Bytes) × (s ≡ prefix ++ r)
unfolding has_prefix
has_prefix-parts s [] h = (s, refl)
has_prefix-parts [] (p ∷ ps) h = absurd (ground arith)
has_prefix-parts (c ∷ s) (p ∷ ps) h =
    let (r, q) = has_prefix-parts s ps (ground arith) in (r, ground (arith, nat_beq_iff c p))

matches_any-IsBelowSome :
    (name : Bytes) (suffixes : List Bytes)
    → matches_any name suffixes ≡ true
    → IsBelowSome name suffixes
unfolding matches_any matches_one
matches_any-IsBelowSome name [] h = absurd (ground arith)
matches_any-IsBelowSome name (suffix ∷ suffixes) h =
    let domain = policy_suffix suffix in
    elim (Bool-cases (name == domain)) [
      | inl e ↦ inl (inl ((list_same_iff name domain).0 e))
      | inr e ↦ elim (Bool-cases (has_suffix name (b'.' ∷ domain))) [
        | inl f ↦ inl (inr (has_suffix-parts name (b'.' ∷ domain) f))
        | inr f ↦ inr (matches_any-IsBelowSome name suffixes (ground arith))
      ]
    ]

prefixed_by-Continues :
    (prefixes : List Bytes) (text : Bytes)
    → prefixed_by prefixes text ≡ true
    → Continues text prefixes
unfolding prefixed_by
prefixed_by-Continues [] text h = absurd (ground arith)
prefixed_by-Continues (prefix ∷ prefixes) text h = elim (Bool-cases (has_prefix text prefix)) [
  | inl e ↦ inl (has_prefix-parts text prefix e)
  | inr e ↦ inr (prefixed_by-Continues prefixes text (ground arith))
]

-- what the policy on DNS names admits: all, or those below one of its suffixes
abbrev pub DnsAllowed : List Bytes → Bytes → Type 0
DnsAllowed suffixes name = (suffixes ≡ []) ⊎ IsBelowSome (to_lower (trim_suffix b'.' name)) suffixes

abbrev pub UriAllowed : List Bytes → Option Url → Type 0
UriAllowed prefixes none = prefixes ≡ []
UriAllowed prefixes (some u) = (prefixes ≡ []) ⊎ Continues u.text prefixes

dns_permitted-Allowed :
    (suffixes : List Bytes) (name : Bytes)
    → dns_permitted suffixes name ≡ true
    → DnsAllowed suffixes name
unfolding dns_permitted matches_dns_suffix
dns_permitted-Allowed [] name h = inl refl
dns_permitted-Allowed (suffix ∷ suffixes) name h =
    inr (matches_any-IsBelowSome (to_lower (trim_suffix b'.' name)) (suffix ∷ suffixes) h)

all_permitted-All :
    (suffixes : List Bytes) (names : List Bytes)
    → all_permitted (dns_permitted suffixes) names ≡ true
    → All (DnsAllowed suffixes) names
unfolding all_permitted
all_permitted-All suffixes [] h = tt
all_permitted-All suffixes (name ∷ names) h = (
  dns_permitted-Allowed suffixes name (ground arith),
  all_permitted-All suffixes names (ground arith),
)

check_uris-All :
    (net : Net) (prefixes : List Bytes) (us : List (Option Url))
    → check_uris net prefixes us ≡ ok tt
    → All (UriAllowed prefixes) us
unfolding check_uris uri_permitted
check_uris-All net prefixes [] h = tt
check_uris-All net [] (none ∷ us) h = (refl, check_uris-All net [] us h)
check_uris-All net [] (some u ∷ us) h = (inl refl, check_uris-All net [] us h)
check_uris-All net (p ∷ ps) (none ∷ us) h = absurd (ground arith)
check_uris-All net (p ∷ ps) (some u ∷ us) h = (
  inr (prefixed_by-Continues (p ∷ ps) u.text (ground arith)),
  check_uris-All net (p ∷ ps) us (ground arith),
)

-- a field that is required is as required
abbrev pub Required : Bytes → Bytes → Type 0
Required required actual = required ≢ [] → actual ≡ required

satisfies-Required : (r a : Bytes) → satisfies r a ≡ true → Required r a
unfolding satisfies
satisfies-Required [] a h ne = absurd (ne refl)
satisfies-Required (c ∷ r) a h ne = sym ((list_same_iff (c ∷ r) a).0 h)

-- What an issuer's definition says of a subject and its names.
pub record Obeys (d : IssuerDefinition) (subject : Identity) (sans : Sans) : Type 0 where
  pub owner : Required d.subject_owner subject.organization
  pub organization : Required d.required_subject.organization subject.organization
  pub unit : Required d.required_subject.organizational_unit subject.organizational_unit
  pub country : Required d.required_subject.country subject.country
  pub province : Required d.required_subject.province subject.province
  pub locality : Required d.required_subject.locality subject.locality
  pub common : Required d.required_subject.common_name subject.common_name
  pub dns : All (DnsAllowed d.san_policy.dns_suffixes) sans.dns_names
  pub urls : All (UriAllowed d.san_policy.uri_prefixes) sans.uris

validate_request-Obeys :
    (net : Net) (d : IssuerDefinition) (subject : Identity) (sans : Sans)
    → validate_request net d subject sans ≡ ok tt
    → Obeys d subject sans
unfolding validate_request subject_permitted
validate_request-Obeys net d subject sans h =
    let r = d.required_subject in
    record {
      owner = λ ne. ground (
        arith,
        list_same_iff d.subject_owner [],
        list_same_iff subject.organization d.subject_owner,
      );
      organization = satisfies-Required r.organization subject.organization (ground arith);
      unit = satisfies-Required r.organizational_unit subject.organizational_unit (ground arith);
      country = satisfies-Required r.country subject.country (ground arith);
      province = satisfies-Required r.province subject.province (ground arith);
      locality = satisfies-Required r.locality subject.locality (ground arith);
      common = satisfies-Required r.common_name subject.common_name (ground arith);
      dns = all_permitted-All d.san_policy.dns_suffixes sans.dns_names (ground arith);
      urls =
          check_uris-All net d.san_policy.uri_prefixes sans.uris
            (uris_ok (check_uris net d.san_policy.uri_prefixes sans.uris) refl);
    }
  where
    uris_ok :
        (o : Result (Unit {0}))
        → check_uris net d.san_policy.uri_prefixes sans.uris ≡ o
        → check_uris net d.san_policy.uri_prefixes sans.uris ≡ ok tt
    uris_ok (ok u) e = e
    uris_ok (err f) e = absurd (ground arith)

module _ (net : Net) (o : SignOptions) (csr : Result Csr) (ledger : Result (Unit {0})) (now : ℕ)
    (m : Signer) (leaf : Leaf) (admitted : admit net o csr ledger now m ≡ ok leaf) where
  validated : validate_request net m.definition leaf.leaf_subject leaf.leaf_sans ≡ ok tt
  unfolding admit
  validated = go (validate_request net m.definition leaf.leaf_subject leaf.leaf_sans) refl
    where
      go :
          (r : Result (Unit {0}))
          → validate_request net m.definition leaf.leaf_subject leaf.leaf_sans ≡ r
          → validate_request net m.definition leaf.leaf_subject leaf.leaf_sans ≡ ok tt
      go (ok u) e = e
      go (err f) e = absurd (ground arith)

  -- What SignCSR admits to be signed obeys the definition of the issuer: the subject has every field
  -- that the definition requires, every DNS name is below one of the suffixes and every URI continues
  -- one of the prefixes of its policy, if it has any, and the profile is an allowed one. This holds of
  -- what is signed, whatever the options replace or add.
  pub admit-Obeys :
      Obeys m.definition leaf.leaf_subject leaf.leaf_sans
      × (contains m.definition.allowed_profiles leaf.leaf_profile ≡ true)
      × (valid_profile leaf.leaf_profile ≡ true)
  unfolding admit choose_profile
  admit-Obeys = (
    validate_request-Obeys net m.definition leaf.leaf_subject leaf.leaf_sans validated,
    ground arith,
    ground arith,
  )

  -- A leaf that SignCSR admits lives for more than nothing and at most one year, counted from a time
  -- no later than now, and ends at least five minutes before its issuer's certificate.
  pub admit-bounds :
      (leaf.issued_at ≤ now)
      × (leaf.issued_at < leaf.expires_at)
      × (leaf.expires_at ≤ leaf.issued_at + maximum_leaf_validity)
      × (leaf.expires_at + clock_skew ≤ m.issuer_cert.not_after)
  unfolding admit choose_lifetime whole_seconds
  admit-bounds = (ground arith, ground arith, ground arith, ground arith)

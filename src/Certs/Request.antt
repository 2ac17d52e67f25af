-- ===== src/Certs/Request.antt =====
-- certs/issuer.go: what an issuer signs. `validateRequest`, `strictCSRIdentity`, and `SignCSR` up to
-- the loop that allocates a serial number.
pub mod Admitted
use compage_go.Base.{
  ℕ, zero, suc, ◌+◌, ◌-◌, ◌*◌, ◌/◌, ◌≤◌, ◌<◌, ◌≡◌, Bool, true, false, not, ◌&&◌, ◌||◌, Option, none,
  some, List, [], ◌∷◌, ◌++◌, ◌==◌, nat_comparable, list_comparable, if◌then◌else◌, Bytes, lit,
  length, ltb, leb,
}
use compage_go.Base.Members.{contains}
use compage_go.Go.Strings.{has_prefix}
use compage_go.Go.Strconv.{ℤ, pos, negsuc}
use compage_go.Certs.Errors.{
  Failure, validation_error, forbidden_error, conflict_error, panicked, Result, ok, err, ◌>>=◌,
  ◌>>◌, refuse,
}
use compage_go.Certs.Names.{Identity, normalize_identity}
use compage_go.Certs.Dns.{matches_dns_suffix}
use compage_go.Certs.Definition.{IpNet, IssuerDefinition, valid_profile, is_positive}
use compage_go.Certs.Crypto.{Name, Cert, first}
use compage_go.Certs.State.{clock_skew, maximum_leaf_validity}
use compage_go.Certs.Sans.{
  Url, Sans, Net, split_at, normalize_sans, normalize_sans_allow_duplicates, merge_sans,
}
use compage_go.Certs.Manager.{add_time}

-- one of the pairs that `validateRequest` compares
unfoldable pub satisfies : Bytes → Bytes → Bool
satisfies [] actual = true
satisfies (c ∷ required) actual = (c ∷ required) == actual

unfoldable pub subject_permitted : IssuerDefinition → Identity → Bool
subject_permitted d subject =
    let r = d.required_subject in
    satisfies r.organization subject.organization
    && (satisfies r.organizational_unit subject.organizational_unit
        && (satisfies r.country subject.country
            && (satisfies r.province subject.province
                && (satisfies r.locality subject.locality
                    && satisfies r.common_name subject.common_name))))

-- The loops over the SANs: with no policy for a kind, all of that kind are permitted.
unfoldable pub dns_permitted : List Bytes → Bytes → Bool
dns_permitted [] name = true
dns_permitted (suffix ∷ suffixes) name = matches_dns_suffix name (suffix ∷ suffixes)

unfoldable pub prefixed_by : List Bytes → Bytes → Bool
prefixed_by [] text = false
prefixed_by (prefix ∷ prefixes) text = has_prefix text prefix || prefixed_by prefixes text

-- a nil *url.URL is followed
unfoldable pub uri_permitted : List Bytes → Url → Bool
uri_permitted [] u = true
uri_permitted (prefix ∷ prefixes) u = prefixed_by (prefix ∷ prefixes) u.text

-- `email[strings.LastIndexByte(email, '@')+1:]`
unfoldable pub domain_of : Bytes → Bytes
domain_of email = elim (split_at email) [ none ↦ email | some (before, domain) ↦ domain ]

unfoldable pub all_permitted {ℓ} : {A : Type ℓ} → (A → Bool) → List A → Bool
all_permitted test [] = true
all_permitted test (a ∷ rest) = test a && all_permitted test rest

module _ (net : Net) where
  unfoldable pub in_ranges : List (Option IpNet) → Bytes → Bool
  in_ranges [] ip = false
  in_ranges (none ∷ ranges) ip = in_ranges ranges ip
  in_ranges (some range ∷ ranges) ip = net.contains_ip range ip || in_ranges ranges ip

  -- `network.Contains` of a nil address is false
  unfoldable pub ip_permitted : List (Option IpNet) → Option Bytes → Bool
  ip_permitted [] ip = true
  ip_permitted (range ∷ ranges) none = false
  ip_permitted (range ∷ ranges) (some ip) = in_ranges (range ∷ ranges) ip

  unfoldable pub folds_to : List Bytes → Bytes → Bool
  folds_to [] domain = false
  folds_to (allowed ∷ domains) domain = net.equal_fold domain allowed || folds_to domains domain

  unfoldable pub email_permitted : List Bytes → Bytes → Bool
  email_permitted [] email = true
  email_permitted (allowed ∷ domains) email = folds_to (allowed ∷ domains) (domain_of email)

  -- the loop over the URIs, which follows each pointer if there is a policy
  unfoldable pub check_uris : List Bytes → List (Option Url) → Result (Unit {0})
  check_uris prefixes [] = ok tt
  check_uris [] (u ∷ rest) = check_uris [] rest
  check_uris (prefix ∷ prefixes) (none ∷ rest) = err panicked
  check_uris (prefix ∷ prefixes) (some u ∷ rest) =
      refuse (not (uri_permitted (prefix ∷ prefixes) u))
        (forbidden_error (lit "URI SAN is not permitted"))
      >> check_uris (prefix ∷ prefixes) rest

  unfoldable pub validate_request : IssuerDefinition → Identity → Sans → Result (Unit {0})
  validate_request d subject sans = do
    refuse (not (d.subject_owner == []) && not (subject.organization == d.subject_owner))
        (forbidden_error (lit "subject organization is not permitted"))
    refuse (not (subject_permitted d subject))
        (forbidden_error (lit "subject does not satisfy required fields"))
    refuse (not (all_permitted (dns_permitted d.san_policy.dns_suffixes) sans.dns_names))
        (forbidden_error (lit "DNS SAN is not permitted"))
    refuse (not (all_permitted (ip_permitted d.san_policy.ip_ranges) sans.ip_addresses))
        (forbidden_error (lit "IP SAN is not permitted"))
    check_uris d.san_policy.uri_prefixes sans.uris
    refuse (not (all_permitted (email_permitted d.san_policy.email_domains) sans.email_addresses))
        (forbidden_error (lit "email SAN is not permitted"))

-- A parsed request: the subject, what else the name has, and the SANs.
pub record Csr : Type 0 where
  pub subject : Name
  pub street_address : List Bytes
  pub postal_code : List Bytes
  pub serial_number : Bytes
  pub names : ℕ
  pub sans : Sans

abbrev pub bool_int : Bool → ℕ
bool_int true = 1
bool_int false = 0

unfoldable pub strict_csr_identity : Csr → Result Identity
strict_csr_identity csr =
    refuse
      (ltb 1 (length n.organization)
        || (ltb 1 (length n.organizational_unit)
            || (ltb 1 (length n.country)
                || (ltb 1 (length n.province)
                    || (ltb 1 (length n.locality)
                        || (ltb 0 (length csr.street_address)
                            || (ltb 0 (length csr.postal_code)
                                || (not (csr.serial_number == []) || ltb counted csr.names))))))))
      (validation_error (lit "CSR subject contains unsupported or repeated attributes"))
    >> normalize_identity (record {
      organization = first n.organization;
      organizational_unit = first n.organizational_unit;
      country = first n.country;
      province = first n.province;
      locality = first n.locality;
      common_name = n.common_name;
    })
  where
    n : Name
    n = csr.subject

    counted : ℕ
    counted =
        length n.organization
        + length n.organizational_unit
        + length n.country
        + length n.province
        + length n.locality
        + bool_int (not (n.common_name == []))

-- the options of `SignCSR`; `none` is one that is not set
pub record SignOptions : Type 0 where
  pub profile : Option Bytes
  pub lifetime : Option ℤ
  pub subject : Option Identity
  pub sans : Option Sans
  pub additional_sans : Option Sans

-- the part of an `IssuerManager` that signing reads
pub record Signer : Type 0 where
  pub definition : IssuerDefinition
  pub issuer_cert : Cert
  pub closed : Bool

-- what the certificate's template is filled in with
pub record Leaf : Type 0 where
  pub leaf_subject : Identity
  pub leaf_sans : Sans
  pub leaf_profile : Bytes
  pub issued_at : ℕ
  pub expires_at : ℕ

unfoldable pub choose_profile : Option Bytes → Result Bytes
choose_profile none = err (validation_error (lit "an explicit supported profile is required"))
choose_profile (some p) =
    refuse (not (valid_profile p))
      (validation_error (lit "an explicit supported profile is required"))
    >> ok p

-- ninety days
abbrev pub default_lifetime : ℕ
default_lifetime = 7776000000000000

unfoldable pub choose_lifetime : Option ℤ → Result ℕ
choose_lifetime none = ok default_lifetime
choose_lifetime (some (pos n)) =
    refuse (n == 0 || ltb maximum_leaf_validity n)
      (validation_error (lit "leaf validity must be positive and no more than one year"))
    >> ok n
choose_lifetime (some (negsuc n)) =
    err (validation_error (lit "leaf validity must be positive and no more than one year"))

-- `now.Truncate(time.Second)`
unfoldable pub whole_seconds : ℕ → ℕ
whole_seconds now = (now / 1000000000) * 1000000000

unfoldable pub choose_subject : Option Identity → Identity → Result Identity
choose_subject none subject = ok subject
choose_subject (some given) subject = normalize_identity given

module _ (net : Net) where
  unfoldable pub replace_sans : Option Sans → Sans → Result Sans
  replace_sans none sans = ok sans
  replace_sans (some given) sans = normalize_sans net given

  unfoldable pub add_sans : Option Sans → Sans → Result Sans
  add_sans none sans = ok sans
  add_sans (some more) sans = merge_sans net sans more

  -- `csr` is the request that `parseCSRPEM` returns, or its error; `ledger` is how the look at the
  -- ledger ends, if there is one.
  unfoldable pub admit : SignOptions → Result Csr → Result (Unit {0}) → ℕ → Signer → Result Leaf
  admit o csr ledger now m = do
    profile ← choose_profile o.profile
    request ← csr
    asked ← strict_csr_identity request
    asked_sans ← normalize_sans_allow_duplicates net request.sans
    refuse m.closed (conflict_error (lit "issuer manager is closed"))
    ledger
    validate_request net m.definition asked asked_sans
    subject ← choose_subject o.subject asked
    replaced ← replace_sans o.sans asked_sans
    sans ← add_sans o.additional_sans replaced
    validate_request net m.definition subject sans
    refuse (not (contains m.definition.allowed_profiles profile))
        (forbidden_error (lit "issuer does not permit requested profile"))
    lifetime ← choose_lifetime o.lifetime
    refuse (ltb m.issuer_cert.not_after (whole_seconds now + lifetime + clock_skew))
        (validation_error (lit "leaf validity exceeds issuer remaining lifetime"))
    ok (record {
      leaf_subject = subject;
      leaf_sans = sans;
      leaf_profile = profile;
      issued_at = whole_seconds now;
      expires_at = whole_seconds now + lifetime;
    })

-- ===== src/Certs/Definition.antt =====
-- certs/models.go: `KeySpec`, `IssuanceMode`, `Profile`, `SANPolicy`, `IssuerDefinition`,
-- `finishIssuerDefinition`; `validateDefinition` of certs/authority.go. Durations are integers of
-- nanoseconds.
use compage_go.Base.{
  zero, suc, ◌*◌, Bool, true, false, not, ◌&&◌, ◌||◌, Option, none, some, List, [], ◌∷◌, ◌==◌,
  nat_comparable, list_comparable, if◌then◌else◌, Bytes, lit,
}
use compage_go.Base.Members.{contains}
use compage_go.Go.Strings.{contains_any}
use compage_go.Go.Unicode.{to_lower, trim_space, trim_set}
use compage_go.Go.Strconv.{ℤ, pos, negsuc, int_comparable}
use compage_go.Text.Slug.{slugify, lower_case}
use compage_go.Certs.Errors.{validation_error, Result, ok, err, ◌>>=◌, ◌>>◌, refuse}
use compage_go.Certs.Names.{Identity, no_identity, identity_same, normalize_identity, slug}
use compage_go.Certs.Dns.{valid_dns_name}

-- The types `KeySpec`, `IssuanceMode` and `Profile` are strings.

unfoldable pub valid_key_spec : Bytes → Bool
valid_key_spec s =
    s == lit "ecdsa-p256"
    || (s == lit "ecdsa-p384"
        || (s == lit "ed25519" || (s == lit "rsa-3072" || s == lit "rsa-4096")))

unfoldable pub valid_mode : Bytes → Bool
valid_mode m = m == lit "none" || m == lit "ledger"

unfoldable pub valid_profile : Bytes → Bool
valid_profile p = p == lit "tls-client" || (p == lit "tls-server" || p == lit "tls-client-server")

abbrev pub all_profiles : List Bytes
all_profiles = lit "tls-client" ∷ lit "tls-server" ∷ lit "tls-client-server" ∷ []

-- *net.IPNet: the address may be nil; the pointer too (`none` in a policy)
pub record IpNet : Type 0 where
  pub ip : Option Bytes
  pub mask : Bytes

pub record SanPolicy : Type 0 where
  pub dns_suffixes : List Bytes
  pub ip_ranges : List (Option IpNet)
  pub uri_prefixes : List Bytes
  pub email_domains : List Bytes

pub record IssuerDefinition : Type 0 where
  pub name : Bytes
  pub slug_name : Bytes
  pub validity : ℤ
  pub allowed_profiles : List Bytes
  pub subject_owner : Bytes
  pub required_subject : Identity
  pub san_policy : SanPolicy

-- the fields of `optionValues` that a definition is made of; `none` is an option that is not set
pub record IssuerOptions : Type 0 where
  pub issuer_validity : Option ℤ
  pub profiles : Option (List Bytes)
  pub owner_option : Bytes
  pub required_option : Option Identity
  pub policy : SanPolicy

abbrev pub is_positive : ℤ → Bool
is_positive (pos zero) = false
is_positive (pos (suc n)) = true
is_positive (negsuc n) = false

-- `2 * 365 * 24 * time.Hour`
abbrev pub two_years : ℤ
two_years = pos (2 * 365 * 24 * 3600000000000)

unfoldable pub choose_validity : Option ℤ → Result ℤ
choose_validity none = ok two_years
choose_validity (some v) =
    if is_positive v then ok v else err (validation_error (lit "issuer validity must be positive"))

unfoldable pub choose_profiles : Option (List Bytes) → Result (List Bytes)
choose_profiles none = ok all_profiles
choose_profiles (some []) = err (validation_error (lit "at least one allowed profile is required"))
choose_profiles (some (p ∷ ps)) = ok (p ∷ ps)

unfoldable pub all_valid_profiles : List Bytes → Bool
all_valid_profiles [] = true
all_valid_profiles (p ∷ ps) = valid_profile p && all_valid_profiles ps

-- the loop with the map `seenProfiles`
unfoldable pub repeats : List Bytes → List Bytes → Bool
repeats seen [] = false
repeats seen (p ∷ ps) = contains seen p || repeats (p ∷ seen) ps

unfoldable pub choose_subject : Option Identity → Result Identity
choose_subject none = ok no_identity
choose_subject (some v) = normalize_identity v

unfoldable pub normal_suffix : Bytes → Bytes
normal_suffix suffix = to_lower (trim_set (λ c. c == b'.') (trim_space suffix))

unfoldable pub normal_suffixes : List Bytes → Result (List Bytes)
normal_suffixes [] = ok []
normal_suffixes (suffix ∷ suffixes) = do
  refuse (not (valid_dns_name (normal_suffix suffix) false))
      (validation_error (lit "invalid DNS policy suffix"))
  rest ← normal_suffixes suffixes
  ok (normal_suffix suffix ∷ rest)

unfoldable pub check_ranges : List (Option IpNet) → Result (Unit {0})
check_ranges [] = ok tt
check_ranges (none ∷ rest) = err (validation_error (lit "invalid IP policy range"))
check_ranges (some net ∷ rest) = check_net net.ip (check_ranges rest)
  where
    check_net : Option Bytes → Result (Unit {0}) → Result (Unit {0})
    check_net none on = err (validation_error (lit "invalid IP policy range"))
    check_net (some ip) on = on

-- `strings.ContainsAny(domain, " @\x00\r\n")`
abbrev pub domain_breaks : Bytes
domain_breaks = 32 ∷ b'@' ∷ 0 ∷ 13 ∷ 10 ∷ []

unfoldable pub normal_domain : Bytes → Bytes
normal_domain domain = to_lower (trim_space domain)

unfoldable pub normal_domains : List Bytes → Result (List Bytes)
normal_domains [] = ok []
normal_domains (domain ∷ domains) = do
  refuse (normal_domain domain == [] || contains_any (normal_domain domain) domain_breaks)
      (validation_error (lit "invalid email policy domain"))
  rest ← normal_domains domains
  ok (normal_domain domain ∷ rest)

-- `url.Parse` as far as the policy looks at it: the scheme, unless there is an error.
module _ (parse_scheme : Bytes → Option Bytes) where
  unfoldable pub check_prefix : Bytes → Bool
  check_prefix prefix = elim (parse_scheme prefix) [
    | none ↦ false
    | some scheme ↦ not (scheme == [])
  ]

  unfoldable pub check_prefixes : List Bytes → Result (Unit {0})
  check_prefixes [] = ok tt
  check_prefixes (prefix ∷ rest) =
      let on = check_prefixes rest in
      if check_prefix prefix then on else err (validation_error (lit "invalid URI policy prefix"))

  unfoldable pub finish_policy : SanPolicy → Result SanPolicy
  finish_policy v = do
    suffixes ← normal_suffixes v.dns_suffixes
    check_ranges v.ip_ranges
    check_prefixes v.uri_prefixes
    domains ← normal_domains v.email_domains
    ok (record v { dns_suffixes = suffixes; email_domains = domains })

  unfoldable pub finish_issuer_definition : Bytes → IssuerOptions → Result IssuerDefinition
  finish_issuer_definition name o = do
    validity ← choose_validity o.issuer_validity
    profiles ← choose_profiles o.profiles
    refuse (not (all_valid_profiles profiles)) (validation_error (lit "unsupported profile"))
    refuse (repeats [] profiles) (validation_error (lit "duplicate allowed profile"))
    refuse (contains_any (trim_space o.owner_option) (0 ∷ 13 ∷ 10 ∷ []))
        (validation_error (lit "invalid subject owner"))
    subject ← choose_subject o.required_option
    policy ← finish_policy o.policy
    ok (record {
      name = name;
      slug_name = slugify name (lit "-") (lower_case ∷ []);
      validity = validity;
      allowed_profiles = profiles;
      subject_owner = trim_space o.owner_option;
      required_subject = subject;
      san_policy = policy;
    })

  -- the options that `validateDefinition` builds
  abbrev pub options_of : IssuerDefinition → IssuerOptions
  options_of d = record {
    issuer_validity = some (if d.validity == pos 0 then two_years else d.validity);
    profiles = some (if d.allowed_profiles == [] then all_profiles else d.allowed_profiles);
    owner_option = d.subject_owner;
    required_option =
        if identity_same d.required_subject no_identity then none else some d.required_subject;
    policy = d.san_policy;
  }

  unfoldable pub validate_definition : IssuerDefinition → Bytes → Result IssuerDefinition
  validate_definition d name = do
    refuse (d.name == []) (validation_error (lit "issuer name is required"))
    refuse (not (d.slug_name == []) && not (d.slug_name == slug name))
        (validation_error (lit "issuer slug does not match its name"))
    finish_issuer_definition name (options_of d)

-- ===== src/Certs/RequestTests.antt =====
-- Runs of the names, the SANs and a request for a certificate on small inputs.
use compage_go.Base.{
  ◌+◌, ◌≤◌, ◌<◌, ◌≡◌, ◌≢◌, refl, true, false, Option, none, some, [], ◌∷◌, nat_comparable,
  list_comparable,
}
use compage_go.Base.Members.{contains}
use compage_go.Go.Strconv.{pos}
use compage_go.Certs.Errors.{ok}
use compage_go.Certs.State.{clock_skew, maximum_leaf_validity}
use compage_go.Certs.Names.{no_identity}
use compage_go.Certs.Crypto.{Cert}
use compage_go.Certs.Request.{Csr, SignOptions, Signer, Leaf}
use compage_go.Certs.Sans.{Sans, no_sans}
use compage_go.Certs.Toy.{toy, toy_net, web}
use compage_go.Certs.Request.Admitted.{Obeys, admit-Obeys, admit-bounds}
use compage_go.Certs.Sans.Unique.{AllDifferent, merge_sans-AllDifferent}
use compage_go.Certs.Names.Stable.{slug-slugify}
use compage_go.Certs.Manager.Drift.{differs_identity-blind}
use compage_go.Text.Slug.{lower_case}
use compage_go.Base.{lit}
use compage_go.Certs.Dns.{
  trim_prefix, trim_suffix, ends_with, starts_with, all_label_bytes, valid_labels, valid_host,
  valid_dns_name, policy_suffix, matches_one, matches_any, matches_dns_suffix,
}
use compage_go.Certs.Manager.{differs_identity}
use compage_go.Certs.Names.{
  has_control, check_field, check_identity, normalize_identity, has_control_space, is_plain,
  normalize_display_name, slug,
}
use compage_go.Certs.Request.{
  satisfies, subject_permitted, dns_permitted, prefixed_by, uri_permitted, all_permitted,
  check_uris, validate_request, strict_csr_identity, choose_profile, choose_lifetime, whole_seconds,
  replace_sans, add_sans, admit, choose_subject,
}
use compage_go.Certs.Sans.{
  normal_dns, normalize_dns, normalize_uri, without_repeats, somes, normalize_sans_allow_duplicates,
  merge_sans,
}
use compage_go.Go.Strings.{cut_prefix, has_substring, has_suffix, split, join}
use compage_go.Go.Unicode.{
  is_lower, is_upper, is_alnum, lower, space_width, only_spaces, trim_left, trim_right, trim_space,
  flush, fields_from, fields, to_lower_from, to_lower, trim_set_left, all_inside, trim_set_right,
  trim_set,
}
use compage_go.Text.Slug.{slugify}
use compage_go.Certs.Definition.{valid_profile}
use compage_go.Certs.Crypto.{first}

abbrev pub request : Csr
request = record {
  subject = record {
    organization = lit "Acme" ∷ [];
    organizational_unit = [];
    country = [];
    province = [];
    locality = [];
    common_name = lit "api";
  };
  street_address = [];
  postal_code = [];
  serial_number = [];
  names = 2;
  sans = record {
    dns_names = lit "API.example.com" ∷ [];
    ip_addresses = [];
    uris = some (record { scheme = lit "https"; text = lit "https://a/x" }) ∷ [];
    email_addresses = [];
  };
}

abbrev pub sign_options : SignOptions
sign_options = record {
  profile = some (lit "tls-client");
  lifetime = none;
  subject = none;
  sans = none;
  additional_sans = none;
}

abbrev pub issuer_cert : Cert
issuer_cert = cert (toy.parse_certificate (0 ∷ 99999999999999999 ∷ 1 ∷ []))
  where
    cert : Option Cert → Cert
    cert none = record {
      serial = [];
      subject = request.subject;
      issuer = request.subject;
      not_before = 0;
      not_after = 0;
      is_ca = false;
      basic_constraints_valid = false;
      max_path_len = pos 0;
      max_path_len_zero = false;
      cert_sign = false;
      crl_sign = false;
      subject_key_id = [];
      authority_key_id = [];
      public_key = toy.public 0;
      digital_signature = false;
      other_bits = 0;
      ext_key_usage = [];
      sans = no_sans;
    }
    cert (some c) = c

abbrev pub signer : Signer
signer = record { definition = web; issuer_cert = issuer_cert; closed = false }

abbrev pub leaf : Leaf
leaf = record {
  leaf_subject = record no_identity { organization = lit "Acme"; common_name = lit "api" };
  leaf_sans = record {
    dns_names = lit "api.example.com" ∷ [];
    ip_addresses = [];
    uris = some (record { scheme = lit "https"; text = lit "https://a/x" }) ∷ [];
    email_addresses = [];
  };
  leaf_profile = lit "tls-client";
  issued_at = 0;
  expires_at = 7776000000000000;
}

pub admitted : admit toy_net sign_options (ok request) (ok tt) 2500 signer ≡ ok leaf
unfolding lit trim_prefix trim_suffix ends_with starts_with all_label_bytes valid_labels valid_host
    valid_dns_name policy_suffix matches_one matches_any matches_dns_suffix has_control check_field
    check_identity normalize_identity satisfies subject_permitted dns_permitted prefixed_by
    uri_permitted all_permitted check_uris validate_request strict_csr_identity choose_profile
    choose_lifetime whole_seconds replace_sans add_sans admit normal_dns normalize_dns normalize_uri
    without_repeats somes normalize_sans_allow_duplicates cut_prefix has_substring has_suffix split
    is_lower is_upper is_alnum lower space_width only_spaces trim_left trim_right trim_space
    to_lower_from to_lower choose_subject valid_profile first
admitted = refl

admit-Obeys_example :
    Obeys web leaf.leaf_subject leaf.leaf_sans
    × (contains web.allowed_profiles leaf.leaf_profile ≡ true)
    × (valid_profile leaf.leaf_profile ≡ true)
admit-Obeys_example =
    admit-Obeys toy_net sign_options (ok request) (ok tt) 2500 signer leaf admitted

admit-bounds_example :
    (leaf.issued_at ≤ 2500)
    × (leaf.issued_at < leaf.expires_at)
    × (leaf.expires_at ≤ leaf.issued_at + maximum_leaf_validity)
    × (leaf.expires_at + clock_skew ≤ issuer_cert.not_after)
admit-bounds_example =
    admit-bounds toy_net sign_options (ok request) (ok tt) 2500 signer leaf admitted

abbrev one_name : Sans
one_name = record {
  dns_names = lit "a.example.com" ∷ [];
  ip_addresses = [];
  uris = [];
  email_addresses = [];
}

abbrev same_twice : Sans
same_twice = record {
  dns_names = lit "A.example.com." ∷ lit "b.example.com" ∷ [];
  ip_addresses = [];
  uris = [];
  email_addresses = [];
}

abbrev merged : Sans
merged = record {
  dns_names = lit "a.example.com" ∷ lit "b.example.com" ∷ [];
  ip_addresses = [];
  uris = [];
  email_addresses = [];
}

merges : merge_sans toy_net one_name same_twice ≡ ok merged
unfolding lit trim_suffix ends_with starts_with all_label_bytes valid_labels valid_host
    valid_dns_name normal_dns normalize_dns without_repeats somes normalize_sans_allow_duplicates
    merge_sans has_substring split is_lower is_upper is_alnum lower space_width only_spaces
    trim_left trim_right trim_space to_lower_from to_lower
merges = refl

merge_sans-AllDifferent_example : AllDifferent toy_net merged
merge_sans-AllDifferent_example = merge_sans-AllDifferent toy_net one_name same_twice merged merges

normal : normalize_display_name (lit " Web   One ") ≡ ok (lit "Web One")
unfolding lit has_control_space is_plain normalize_display_name join is_lower is_upper is_alnum
    lower space_width flush fields_from fields to_lower_from to_lower trim_set_left all_inside
    trim_set_right trim_set slugify
normal = refl

slug-slugify_example : slug (lit "Web One") ≡ slugify (lit "Web One") (lit "-") (lower_case ∷ [])
slug-slugify_example = slug-slugify (lit " Web   One ") (lit "Web One") normal

differs_identity-blind_example :
    (differs_identity
        (some
          (record no_identity { organization = lit "Acme Web"; organizational_unit = lit "Ops" }))
        (record no_identity { organization = lit "Acme"; organizational_unit = lit "Web Ops" })
      ≡ false)
    × (lit "Acme Web" ≢ lit "Acme")
unfolding lit
differs_identity-blind_example =
    differs_identity-blind no_identity (lit "Acme") (lit "Web") (lit "Ops")

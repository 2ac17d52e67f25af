-- ===== src/Certs/FirstTests.antt =====
-- A new manager, and the first call of `Ensure` on an empty store.
use compage_go.Base.{
  ◌∷◌, ℕ, ◌≡◌, refl, true, none, some, [], lit, nat_comparable, list_comparable, arith,
}
use compage_go.Certs.Errors.{ok, is_not_found}
use compage_go.Certs.State.{State}
use compage_go.Certs.Store.{Store, load, decoded, next_refusal}
use compage_go.Certs.Manager.{Manager, or_default, add_time}
use compage_go.Certs.Validate.{validate_state, check_definition}
use compage_go.Certs.Authority.Due.{check_options, check_rotations, EnsureOptions, EnsureResult}
use compage_go.Certs.Authority.Ensure.{ensure}
use compage_go.Certs.Authority.First.{IsUsable, root_end, ensure-creates}
use compage_go.Certs.Authority.Created.{AllFit}
use compage_go.Certs.Definition.{
  valid_key_spec, valid_mode, valid_profile, choose_validity, choose_profiles, all_valid_profiles,
  repeats, choose_subject, normal_suffix, normal_suffixes, check_ranges, normal_domains,
  check_prefix, check_prefixes, finish_policy, finish_issuer_definition, validate_definition,
}
use compage_go.Certs.Dns.{
  ends_with, starts_with, all_label_bytes, valid_labels, valid_host, valid_dns_name,
}
use compage_go.Certs.Names.{
  no_identity, has_control, check_field, check_identity, normalize_identity, has_control_space,
  is_plain, normalize_display_name, dashes, slug,
}
use compage_go.Go.Strings.{has_substring, contains_any, split, join}
use compage_go.Go.Unicode.{
  is_lower, is_upper, is_digit, is_alnum, lower, space_width, only_spaces, trim_left, trim_right,
  trim_space, flush, fields_from, fields, to_lower_from, to_lower, trim_set_left, all_inside,
  trim_set_right, trim_set,
}
use compage_go.Text.Slug.{slugify}
use compage_go.Certs.Authority.Lawful.{is_ascii}
use compage_go.Certs.Request.{whole_seconds}
use compage_go.Certs.Manager.New.{
  AuthorityOptions, same_principal, normalized, name_of, fix_issuers, check_new_authority,
  new_authority_manager,
}
use compage_go.Certs.Manager.Configured.{IsConfigured, new_authority_manager-IsConfigured}
use compage_go.Certs.Exact.{exact, exact-IsLawful}
use compage_go.Certs.Toy.{web, toy_scheme, same_name, manager, empty_store}

abbrev no_rotation : EnsureOptions
no_rotation = record { root_rotate_before = none; issuer_rotate_before = [] }

abbrev now : ℕ
now = 1000000000000000000

usable : IsUsable manager.config (lit "Acme")
unfolding valid_key_spec valid_mode has_control check_field check_identity normalize_identity
    has_control_space is_plain normalize_display_name join is_lower is_upper is_alnum lower
    space_width trim_left trim_right trim_space flush fields_from fields to_lower_from to_lower
    trim_set_left all_inside trim_set_right trim_set slugify lit is_ascii or_default
usable = record {
  named = refl;
  nonempty = refl;
  normal = refl;
  identity = refl;
  text = record {
    organization = refl;
    organizational_unit = refl;
    country = refl;
    province = refl;
    locality = refl;
  };
  ascii = refl;
  nameless = refl;
  key_spec = refl;
  mode = refl;
}

fit : AllFit exact toy_scheme same_name now (root_end manager.config now) manager.config.issuers
unfolding valid_profile choose_validity choose_profiles all_valid_profiles repeats choose_subject
    normal_suffix normal_suffixes check_ranges normal_domains check_prefix check_prefixes
    finish_policy finish_issuer_definition validate_definition ends_with starts_with all_label_bytes
    valid_labels valid_host valid_dns_name has_control check_field check_identity normalize_identity
    dashes slug has_substring contains_any split is_lower is_upper is_alnum lower space_width
    only_spaces trim_left trim_right trim_space to_lower_from to_lower trim_set_left all_inside
    trim_set_right trim_set lit is_ascii or_default add_time check_definition root_end whole_seconds
fit = (refl, refl, omega arith, tt)

ensure-creates_example :
    (r : EnsureResult) × (m' : Manager) × (st' : Store) × (s : State) × (ensure exact toy_scheme
        same_name no_rotation now empty_store manager
      ≡ (ok r, (m', st')))
    × (r.created ≡ true)
    × (r.root_generation ≡ 1)
    × (r.revision ≡ 1)
    × (st'.stored ≡ some s)
    × (validate_state exact toy_scheme same_name s ≡ ok tt)
unfolding check_options check_rotations or_default add_time
ensure-creates_example =
    ensure-creates exact exact-IsLawful toy_scheme same_name no_rotation now empty_store manager
      (lit "Acme") refl refl refl refl usable (omega arith) (omega arith) fit

-- no name: it is taken from the identity
abbrev options : AuthorityOptions
options = record {
  authority_name = none;
  identity = some (record no_identity { organization = lit " Acme" });
  owner = none;
  group = some (lit "pki");
  key_spec = some (lit "ed25519");
  issuance_mode = none;
  root_validity = none;
  issuers = web ∷ [];
  root_unlock = [];
}

abbrev made : Manager
made = record manager {
  config = record manager.config {
    identity = some (record no_identity { organization = lit "Acme" });
  };
}

made_new : new_authority_manager exact toy_scheme same_name options 0 empty_store ≡ ok made
unfolding valid_key_spec valid_mode has_control check_field check_identity normalize_identity
    has_control_space is_plain normalize_display_name join is_lower is_upper is_digit is_alnum lower
    space_width trim_left trim_right trim_space flush fields_from fields to_lower_from to_lower
    trim_set_left all_inside trim_set_right trim_set slugify lit or_default valid_profile
    choose_validity choose_profiles all_valid_profiles repeats choose_subject normal_suffix
    normal_suffixes check_ranges normal_domains check_prefix check_prefixes finish_policy
    finish_issuer_definition validate_definition ends_with starts_with all_label_bytes valid_labels
    valid_host valid_dns_name dashes slug has_substring contains_any split only_spaces
    same_principal normalized name_of fix_issuers check_new_authority new_authority_manager load
    decoded next_refusal is_not_found
made_new = refl

new_authority_manager-IsConfigured_example : IsConfigured made.config empty_store
new_authority_manager-IsConfigured_example =
    new_authority_manager-IsConfigured exact toy_scheme same_name options 0 empty_store made
      made_new

-- ===== src/Certs/SigningTests.antt =====
-- Runs of `SignCSR` of an authority that keeps a ledger.
use compage_go.Base.{
  ℕ, ◌≡◌, refl, true, false, some, [], ◌∷◌, ◌==◌, Bytes, if◌then◌else◌, nat_comparable,
  list_comparable, arith,
}
use compage_go.Go.Strconv.{pos}
use compage_go.Certs.Errors.{Result, ok, err}
use compage_go.Certs.Crypto.{Cert, Crypto, client_auth}
use compage_go.Certs.State.{State}
use compage_go.Certs.Store.{Store, LedgerRecord}
use compage_go.Certs.Request.{Csr}
use compage_go.Certs.Issuing.{IssuerManager, Run}
use compage_go.Certs.Issuing.Recorded.{IsRecorded, sign_csr-IsRecorded}
use compage_go.Certs.Issuing.Distinct.{IsDistinct, sign_csr-IsDistinct}
use compage_go.Certs.Issuing.Origin.{IsOf, IsSignedUnder}
use compage_go.Certs.Trust.Signed.{signed-IsTrusted}
use compage_go.Certs.Trust.Rotation.{IsTrusted}
use compage_go.Certs.Toy.{web, toy, toy_public, toy_parse, toy_scheme, same_name, toy_net}
use compage_go.Certs.RequestTests.{request, sign_options}
use compage_go.Certs.Tests.{get, kept, second_store, second_manager, pending_of}
use compage_go.Base.{lit, sym, ap}
use compage_go.Certs.Authority.{
  provision_issuers, new_spec, provision, prepare_versions, free_generation, staged, prepare_root,
  prepare_issuers,
}
use compage_go.Certs.Authority.Due.{
  pending_kind_of, check_rotations, check_options, is_due, collides, active_certificate,
  active_root_certificate, due_issuers,
}
use compage_go.Certs.Authority.Ensure.{
  add_issuers, rotate_issuers, rotate_root, rotate, reconcile, ensure_change, report, ensured,
  ensure_unless, ensure,
}
use compage_go.Certs.Authority.Promote.{
  extend_deadline, ledger_trust_deadline, retire_deadline, retire_root, promote_root,
  promote_issuer, for_pending, check_pending_root, check_pending_issuers, promote,
}
use compage_go.Certs.Crypto.{
  nonempty, first, ca_name, identity_from_ca_name, root_common_name, issuer_common_name,
  supported_public_key, key_spec_for_public, parse_cert_der, parse_key_der, public_keys_equal,
  subject_key_id, identity_from_name,
}
use compage_go.Certs.Definition.{
  valid_key_spec, valid_mode, valid_profile, choose_validity, choose_profiles, all_valid_profiles,
  repeats, normal_suffix, normal_suffixes, check_ranges, normal_domain, normal_domains,
  check_prefix, check_prefixes, finish_policy, finish_issuer_definition, validate_definition,
}
use compage_go.Certs.Dns.{
  trim_prefix, trim_suffix, ends_with, starts_with, all_label_bytes, valid_labels, valid_host,
  valid_dns_name, policy_suffix, matches_one, matches_any, matches_dns_suffix,
}
use compage_go.Certs.Errors.{kind, is_not_found, is_no_mutation, is_conflict}
use compage_go.Certs.Making.{make_root, make_issuer}
use compage_go.Certs.Manager.{
  or_default, add_time, print_identity, differs, differs_duration, differs_identity, assert_spec,
  stored_secret, active_root_signer,
}
use compage_go.Certs.Names.{
  has_control, check_field, ascii_letters, check_identity, normalize_identity, has_control_space,
  is_plain, normalize_display_name, dashes, slug,
}
use compage_go.Certs.Store.{
  next_refusal, later, refused, read_ledger, decoded, load, check_record, validate_ledger_records,
  next_revision, base_state, check_ledger, write_state, finish_update, conclude, update,
  load_unlocks,
}
use compage_go.Certs.Trust.{
  is_untrusted, trusted_certificates, check_trusted, before, insert_sorted, sort_certificates,
  new_trust_bundle, build_trust_bundle,
}
use compage_go.Certs.Validate.{
  root_needs_key, version_needs_key, check_spec, has_spec, check_root, check_roots, check_version,
  check_versions, check_active, check_definition, check_issuer, check_issuers, is_version_of,
  all_pending_found, check_pending, validate_state,
}
use compage_go.Go.Map.{lookup, put, delete}
use compage_go.Go.Strconv.{show_digits, itoa}
use compage_go.Go.Strings.{
  has_prefix, cut_prefix, has_substring, has_suffix, contains_any, split, join,
}
use compage_go.Go.Unicode.{
  is_lower, is_upper, is_digit, is_alnum, lower, upper, is_ascii_space, wide_space, space_width,
  only_spaces, trim_left, trim_right, trim_space, flush, fields_from, fields, to_lower_from,
  to_lower, to_upper_from, to_upper, trim_set_left, all_inside, trim_set_right, trim_set,
}
use compage_go.Text.Slug.{slugify}
use compage_go.Certs.Request.{
  satisfies, subject_permitted, dns_permitted, prefixed_by, uri_permitted, all_permitted,
  check_uris, validate_request, strict_csr_identity, choose_profile, choose_lifetime, whole_seconds,
  replace_sans, add_sans, admit,
}
use compage_go.Certs.Sans.{
  normal_dns, normalize_dns, normalize_uri, without_repeats, somes, normalize_sans_allow_duplicates,
}
use compage_go.Certs.Issuing.{
  take_issuer, make_leaf, visit, reload, catch_up, refresh, retry, recorded, is_free, signed, round,
  rounds, check_request, sign_csr, new_issuer_manager, reload_open, close_issuer,
}
use compage_go.Certs.Ledger.{
  usages, has_usages, is_hex, same_sans, check_sans, validate_ledger_record,
  validate_ledger_authority, is_entry, find_entry, lookup_ledger, check_new, write_record,
  append_record, append_ledger,
}
use compage_go.Certs.Request
use compage_go.Certs.Definition

-- a leaf has a DER of its own here
abbrev leaf_der : Bytes
leaf_der = 255 ∷ []

abbrev leaf_cert : Cert
leaf_cert = record {
  serial = 5 ∷ [];
  subject = record request.subject { common_name = lit "ab" };
  issuer = request.subject;
  not_before = 2700000000000;
  not_after = 7779000000000000;
  is_ca = false;
  basic_constraints_valid = true;
  max_path_len = pos 0;
  max_path_len_zero = false;
  cert_sign = false;
  crl_sign = false;
  subject_key_id = [];
  authority_key_id = [];
  public_key = toy_public 9;
  digital_signature = true;
  other_bits = 0;
  ext_key_usage = client_auth ∷ [];
  sans = record {
    dns_names = lit "api.example.com" ∷ [];
    ip_addresses = [];
    uris = request.sans.uris;
    email_addresses = [];
  };
}

abbrev signing : Crypto
signing = record toy {
  create_certificate = λ t parent k signer.
      if t.is_ca then toy.create_certificate t parent k signer else some leaf_der;
  parse_certificate = λ der. if der == leaf_der then some leaf_cert else toy_parse der;
}

abbrev alone : ℕ → Store → Store
alone n st = st

abbrev ledger_store : Store
ledger_store = record second_store { stored = some kept }

abbrev start : Result (IssuerManager signing)
start = new_issuer_manager signing toy_scheme same_name toy_net alone (lit "Web One") ledger_store

abbrev a_manager : IssuerManager signing
a_manager = out start
  where
    out : Result (IssuerManager signing) → IssuerManager signing
    out (ok m) = m
    out (err e) = record {
      name = [];
      slug_name = [];
      revision = 0;
      definition = web;
      version = record {
        version = 0;
        root_generation = 0;
        certificate_der = [];
        key_der = [];
        fingerprint = [];
      };
      issuer_cert = leaf_cert;
      root_cert = leaf_cert;
      signer = 0;
      mode = [];
      closed = true;
    }

-- the one state of every revision
abbrev always : ℕ → State
always n = kept

abbrev at_start : Run signing
at_start = record { manager = a_manager; store = ledger_store; draw = 5; turn = 0 }

abbrev asked : Result Csr
asked = ok (record request { subject = record request.subject { common_name = lit "ab" } })

abbrev outcome : Result (Bytes × Cert) × Run signing
outcome =
    sign_csr signing toy_scheme same_name toy_net alone sign_options asked (toy_public 9)
      3000000000000 at_start

abbrev promoted : State
promoted = out (
    promote signing [] second_manager.generated outcome.1.store 3600000000000 (pending_of kept)
      kept)
  where
    out : Result State → State
    out (ok s) = s
    out (err e) = kept

-- what the operations come to
runs :
    (outcome ≡ (ok (leaf_der, leaf_cert), outcome.1))
    × ((outcome.1.manager.mode == lit "ledger") ≡ true)
    × (outcome.1.store.stored ≡ some kept)
    × (read_ledger outcome.1.store ≡ ok outcome.1.store.ledger)
    × ((kept.spec.issuance_mode == lit "ledger") ≡ true)
    × (((pending_of kept).kind == lit "root") ≡ true)
    × (promote signing [] second_manager.generated outcome.1.store 3600000000000
          (pending_of kept)
          kept
        ≡ ok promoted)
    × IsDistinct ledger_store.ledger
    × IsOf signing toy_scheme same_name always a_manager
unfolding lit provision_issuers new_spec provision prepare_versions free_generation staged
    prepare_root prepare_issuers pending_kind_of check_rotations check_options is_due collides
    active_certificate active_root_certificate due_issuers add_issuers rotate_issuers rotate_root
    rotate reconcile ensure_change report ensured ensure_unless ensure extend_deadline
    ledger_trust_deadline retire_deadline retire_root promote_root promote_issuer for_pending
    check_pending_root check_pending_issuers promote nonempty first ca_name identity_from_ca_name
    root_common_name issuer_common_name supported_public_key key_spec_for_public parse_cert_der
    parse_key_der public_keys_equal subject_key_id valid_key_spec valid_mode valid_profile
    choose_validity choose_profiles all_valid_profiles repeats normal_suffix normal_suffixes
    check_ranges normal_domain normal_domains check_prefix check_prefixes finish_policy
    finish_issuer_definition validate_definition trim_prefix trim_suffix ends_with starts_with
    all_label_bytes valid_labels valid_host valid_dns_name kind is_not_found is_no_mutation
    make_root make_issuer or_default add_time print_identity differs differs_duration
    differs_identity assert_spec stored_secret active_root_signer has_control check_field
    ascii_letters check_identity normalize_identity has_control_space is_plain
    normalize_display_name dashes slug next_refusal later refused read_ledger decoded load
    check_record validate_ledger_records next_revision base_state check_ledger write_state
    finish_update conclude update load_unlocks is_untrusted trusted_certificates check_trusted
    before insert_sorted sort_certificates new_trust_bundle build_trust_bundle root_needs_key
    version_needs_key check_spec has_spec check_root check_roots check_version check_versions
    check_active check_definition check_issuer check_issuers is_version_of all_pending_found
    check_pending validate_state lookup put delete show_digits itoa has_prefix cut_prefix
    has_substring has_suffix contains_any split join is_lower is_upper is_digit is_alnum lower upper
    is_ascii_space wide_space space_width only_spaces trim_left trim_right trim_space flush
    fields_from fields to_lower_from to_lower to_upper_from to_upper trim_set_left all_inside
    trim_set_right trim_set slugify policy_suffix matches_one matches_any matches_dns_suffix
    satisfies subject_permitted dns_permitted prefixed_by uri_permitted all_permitted check_uris
    validate_request strict_csr_identity choose_profile choose_lifetime whole_seconds replace_sans
    add_sans admit normal_dns normalize_dns normalize_uri without_repeats somes
    normalize_sans_allow_duplicates take_issuer make_leaf visit reload catch_up refresh retry
    recorded is_free signed round rounds check_request sign_csr new_issuer_manager reload_open
    close_issuer usages has_usages is_hex same_sans check_sans validate_ledger_record
    validate_ledger_authority is_entry find_entry lookup_ledger check_new write_record append_record
    append_ledger is_conflict identity_from_name compage_go.Certs.Request.choose_subject
    compage_go.Certs.Definition.choose_subject
runs = (refl, refl, refl, refl, refl, refl, refl, tt, refl)

sign_csr-IsRecorded_example :
    (s : State) × (r : LedgerRecord) × IsRecorded signing toy_scheme same_name toy_net leaf_der
      leaf_cert outcome.1.store s r
sign_csr-IsRecorded_example =
    sign_csr-IsRecorded signing toy_scheme same_name toy_net alone sign_options asked (toy_public 9)
      3000000000000 at_start outcome.1 leaf_der leaf_cert runs.0 runs.1

sign_csr-IsDistinct_example : IsDistinct outcome.1.store.ledger
sign_csr-IsDistinct_example =
    sign_csr-IsDistinct signing toy_scheme same_name toy_net alone (λ n st h. h) sign_options asked
      (toy_public 9) 3000000000000 at_start runs.7

signed-IsTrusted_example :
    IsSignedUnder signing toy_scheme same_name kept kept.active_root (toy_public 9) leaf_der
    × IsTrusted promoted 7779000000000000 kept.active_root
signed-IsTrusted_example =
    signed-IsTrusted signing toy_scheme same_name toy_net alone always sign_options asked
      (toy_public 9) 3000000000000 at_start outcome.1 leaf_der leaf_cert kept []
      second_manager.generated outcome.1.store 3600000000000 (pending_of kept) kept promoted
      outcome.1.store.ledger 7779000000000000 (λ n st h. h) runs.8 (λ s h. sym (ap get h)) runs.0
      runs.1 runs.2 refl (λ r u. u) runs.3 (λ r inside. inside) runs.4 runs.5 runs.6 (omega arith)

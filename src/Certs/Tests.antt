-- ===== src/Certs/Tests.antt =====
-- Runs of the authority and of a request for a certificate on a small store.
use compage_go.Base.{
  ℕ, ◌+◌, ◌<◌, ◌≡◌, ◌≢◌, refl, true, false, Option, none, some, List, [], ◌∷◌, ◌==◌, Bytes,
  nat_comparable, list_comparable, arith, ◌↔◌,
}
use compage_go.Go.Strconv.{pos}
use compage_go.Certs.Errors.{Result, ok, err}
use compage_go.Certs.State.{State, blank_state, PendingManifest, IssuerRecord, clock_skew}
use compage_go.Certs.Sans.{no_sans}
use compage_go.Certs.Store.{Store, LedgerRecord}
use compage_go.Certs.Manager.{Manager}
use compage_go.Certs.Crypto.{Cert}
use compage_go.Certs.Authority.Due.{EnsureOptions, no_result}
use compage_go.Certs.Store.Atomic.{IsKept, IsChanged, update-IsKept}
use compage_go.Certs.Toy.{
  toy, toy_encoded, toy_scheme, same_name, manager, empty_store, toy_net, web,
}
use compage_go.Certs.Sound.{IsSound}
use compage_go.Certs.RequestTests.{request, sign_options, signer, leaf, admitted, issuer_cert}
use compage_go.Certs.Trust.Rotation.{IsTrusted, IsUnder}
use compage_go.Certs.Trust.Leaves.{leaf-IsTrusted}
use compage_go.Certs.Trust.Bundle.{InBundle, TrustedIn, build_trust_bundle-Trusted}
use compage_go.Certs.Validate.Names.{validate_state-common}
use compage_go.Certs.Authority.Ensure.Stuck.{ensure_change_fails}
use compage_go.Certs.Sound.Operations.{reachable-IsSound, start, next, ensured_step}
use compage_go.Base.{lit}
use compage_go.Certs.Authority.{
  provision_issuers, new_spec, provision, prepare_versions, free_generation, staged, prepare_root,
  prepare_issuers,
}
use compage_go.Certs.Authority.Due.{
  pending_kind_of, check_rotations, check_options, is_due, collides, active_certificate,
  active_root_certificate, due_issuers,
}
use compage_go.Certs.Authority.Ensure.{
  add_issuers, rotate_issuers, rotate_root, rotate, reconcile, ensure_change, report, ensured,
  ensure_unless, ensure,
}
use compage_go.Certs.Authority.Promote.{
  extend_deadline, ledger_trust_deadline, retire_deadline, retire_root, promote_root,
  promote_issuer, for_pending, check_pending_root, check_pending_issuers, promote,
}
use compage_go.Certs.Crypto.{
  nonempty, first, ca_name, identity_from_ca_name, root_common_name, issuer_common_name,
  supported_public_key, key_spec_for_public, parse_cert_der, parse_key_der, public_keys_equal,
  subject_key_id,
}
use compage_go.Certs.Definition.{
  valid_key_spec, valid_mode, valid_profile, choose_validity, choose_profiles, all_valid_profiles,
  repeats, choose_subject, normal_suffix, normal_suffixes, check_ranges, normal_domain,
  normal_domains, check_prefix, check_prefixes, finish_policy, finish_issuer_definition,
  validate_definition,
}
use compage_go.Certs.Dns.{
  trim_prefix, trim_suffix, ends_with, starts_with, all_label_bytes, valid_labels, valid_host,
  valid_dns_name,
}
use compage_go.Certs.Errors.{kind, is_not_found, is_no_mutation}
use compage_go.Certs.Making.{make_root, make_issuer}
use compage_go.Certs.Manager.{
  or_default, add_time, print_identity, differs, differs_duration, differs_identity, assert_spec,
  stored_secret, active_root_signer,
}
use compage_go.Certs.Names.{
  no_identity, has_control, check_field, ascii_letters, check_identity, normalize_identity,
  has_control_space, is_plain, normalize_display_name, dashes, slug,
}
use compage_go.Certs.Store.{
  next_refusal, later, refused, read_ledger, decoded, load, check_record, validate_ledger_records,
  next_revision, base_state, check_ledger, write_state, finish_update, conclude, update,
  load_unlocks,
}
use compage_go.Certs.Trust.{
  is_untrusted, trusted_certificates, check_trusted, before, insert_sorted, sort_certificates,
  new_trust_bundle, build_trust_bundle,
}
use compage_go.Certs.Validate.{
  root_needs_key, version_needs_key, check_spec, has_spec, check_root, check_roots, check_version,
  check_versions, check_active, check_definition, check_issuer, check_issuers, is_version_of,
  all_pending_found, check_pending, validate_state,
}
use compage_go.Go.Map.{lookup, put, delete}
use compage_go.Go.Strconv.{show_digits, itoa}
use compage_go.Go.Strings.{
  has_prefix, cut_prefix, has_substring, has_suffix, contains_any, split, join,
}
use compage_go.Go.Unicode.{
  is_lower, is_upper, is_digit, is_alnum, lower, upper, is_ascii_space, wide_space, space_width,
  only_spaces, trim_left, trim_right, trim_space, flush, fields_from, fields, to_lower_from,
  to_lower, to_upper_from, to_upper, trim_set_left, all_inside, trim_set_right, trim_set,
}
use compage_go.Text.Slug.{slugify}

abbrev pub get : Option State → State
get none = blank_state
get (some s) = s

abbrev pub pending_of : State → PendingManifest
pending_of s = manifest s.pending
  where
    manifest : Option PendingManifest → PendingManifest
    manifest none = record {
      kind = [];
      expected_revision = 0;
      root_generation = 0;
      issuers = [];
      created_at = 0;
    }
    manifest (some p) = p

abbrev plain_options : EnsureOptions
plain_options = record { root_rotate_before = none; issuer_rotate_before = [] }

abbrev now_options : EnsureOptions
now_options = record { root_rotate_before = some (pos 0); issuer_rotate_before = [] }

-- a first call of Ensure makes the authority, a second one rotates its root
abbrev first_manager : Manager
first_manager = (ensure toy toy_scheme same_name plain_options 1000 empty_store manager).1.0

abbrev first_store : Store
first_store = (ensure toy toy_scheme same_name plain_options 1000 empty_store manager).1.1

abbrev pub second_manager : Manager
second_manager = (ensure toy toy_scheme same_name now_options 2000 first_store first_manager).1.0

abbrev pub second_store : Store
second_store = (ensure toy toy_scheme same_name now_options 2000 first_store first_manager).1.1

abbrev first_state : State
first_state = get first_store.stored

abbrev second_state : State
second_state = get second_store.stored

abbrev promoted : State
promoted = out (
    promote toy [] second_manager.generated second_store 3000 (pending_of second_state)
      second_state)
  where
    out : Result State → State
    out (ok s) = s
    out (err e) = blank_state

-- the same authority with a ledger, that has one certificate
abbrev entry : LedgerRecord
entry = record {
  authority_revision = 1;
  fingerprint = lit "f";
  issuer = lit "web-one";
  issuer_version = 1;
  serial = lit "1";
  certificate_der = lit "c";
  subject = no_identity;
  sans = no_sans;
  profile = lit "tls-client";
  issued_at = 1;
  expires_at = 5000;
}

abbrev pub kept : State
kept = record second_state { spec = record second_state.spec { issuance_mode = lit "ledger" } }

abbrev kept_store : Store
kept_store = record second_store { ledger = entry ∷ [] }

abbrev kept_promoted : State
kept_promoted = out (promote toy [] second_manager.generated kept_store 3000 (pending_of kept) kept)
  where
    out : Result State → State
    out (ok s) = s
    out (err e) = blank_state

abbrev bundle : List (Bytes × Cert)
bundle = out (build_trust_bundle toy second_state 2500)
  where
    out : Result (List (Bytes × Cert)) → List (Bytes × Cert)
    out (ok b) = b
    out (err e) = []

-- nine years later the issuer is due and the root is not
abbrev late : ℕ
late = 283824000000000000

abbrev web_record : IssuerRecord
web_record = out (lookup (lit "web-one") first_state.issuers)
  where
    out : Option IssuerRecord → IssuerRecord
    out (some i) = i
    out none = record { definition = web; active_version = 0; versions = [] }

abbrev cert_of : Result Cert → Cert
cert_of (ok c) = c
cert_of (err e) = issuer_cert

abbrev web_cert : Cert
web_cert = cert_of (active_certificate toy web_record)

abbrev root_cert : Cert
root_cert = cert_of (active_root_certificate toy first_state)

-- what the operations come to
runs :
    (first_store.stored ≡ some first_state)
    × (second_store.stored ≡ some second_state)
    × (promote toy [] second_manager.generated second_store 3000
          (pending_of second_state)
          second_state
        ≡ ok promoted)
    × (((pending_of second_state).kind == lit "root") ≡ true)
    × ((second_state.spec.issuance_mode == lit "ledger") ≡ false)
    × (promote toy [] second_manager.generated kept_store 3000 (pending_of kept) kept
        ≡ ok kept_promoted)
    × (read_ledger kept_store ≡ ok (entry ∷ []))
    × (IsUnder kept kept.active_root entry)
    × (build_trust_bundle toy second_state 2500 ≡ ok bundle)
    × (validate_state toy toy_scheme same_name second_state ≡ ok tt)
    × (assert_spec manager.config second_store second_state ≡ ok tt)
    × (active_certificate toy web_record ≡ ok web_cert)
    × (is_due late
          (lookup web_record.definition.name plain_options.issuer_rotate_before)
          web_cert.not_after
        ≡ true)
    × (is_due late plain_options.root_rotate_before root_cert.not_after ≡ false)
    × (root_cert.not_after < add_time late web_record.definition.validity + clock_skew)
    × ((first_state.spec.id == []) ≡ false)
    × (active_root_certificate toy first_state ≡ ok root_cert)
    × (lookup (lit "web-one") first_state.issuers ≡ some web_record)
unfolding lit provision_issuers new_spec provision prepare_versions free_generation staged
    prepare_root prepare_issuers pending_kind_of check_rotations check_options is_due collides
    active_certificate active_root_certificate due_issuers add_issuers rotate_issuers rotate_root
    rotate reconcile ensure_change report ensured ensure_unless ensure extend_deadline
    ledger_trust_deadline retire_deadline retire_root promote_root promote_issuer for_pending
    check_pending_root check_pending_issuers promote nonempty first ca_name identity_from_ca_name
    root_common_name issuer_common_name supported_public_key key_spec_for_public parse_cert_der
    parse_key_der public_keys_equal subject_key_id valid_key_spec valid_mode valid_profile
    choose_validity choose_profiles all_valid_profiles repeats choose_subject normal_suffix
    normal_suffixes check_ranges normal_domain normal_domains check_prefix check_prefixes
    finish_policy finish_issuer_definition validate_definition trim_prefix trim_suffix ends_with
    starts_with all_label_bytes valid_labels valid_host valid_dns_name kind is_not_found
    is_no_mutation make_root make_issuer or_default add_time print_identity differs differs_duration
    differs_identity assert_spec stored_secret active_root_signer has_control check_field
    ascii_letters check_identity normalize_identity has_control_space is_plain
    normalize_display_name dashes slug next_refusal later refused read_ledger decoded load
    check_record validate_ledger_records next_revision base_state check_ledger write_state
    finish_update conclude update load_unlocks is_untrusted trusted_certificates check_trusted
    before insert_sorted sort_certificates new_trust_bundle build_trust_bundle root_needs_key
    version_needs_key check_spec has_spec check_root check_roots check_version check_versions
    check_active check_definition check_issuer check_issuers is_version_of all_pending_found
    check_pending validate_state lookup put delete show_digits itoa has_prefix cut_prefix
    has_substring has_suffix contains_any split join is_lower is_upper is_digit is_alnum lower upper
    is_ascii_space wide_space space_width only_spaces trim_left trim_right trim_space flush
    fields_from fields to_lower_from to_lower to_upper_from to_upper trim_set_left all_inside
    trim_set_right trim_set slugify
runs = (
  refl,
  refl,
  refl,
  refl,
  refl,
  refl,
  refl,
  (_, _, refl, refl, refl),
  refl,
  refl,
  refl,
  refl,
  refl,
  refl,
  omega arith,
  refl,
  refl,
  refl,
)

reachable-IsSound_example : IsSound second_state
reachable-IsSound_example =
    reachable-IsSound toy toy_encoded toy_scheme same_name manager second_manager empty_store
      second_store second_state refl
      (next (next start (ensured_step plain_options 1000 manager empty_store))
        (ensured_step now_options 2000 first_manager first_store))
      runs.1

leaf-IsTrusted_example : IsTrusted promoted 7776000000000000 second_state.active_root
leaf-IsTrusted_example =
    leaf-IsTrusted toy [] second_manager.generated second_store 3000 (pending_of second_state)
      second_state promoted runs.3 runs.2 toy_net sign_options (ok request) (ok tt) 2500
      7776000000000000 signer leaf runs.4 admitted (omega arith) (omega arith)

build_trust_bundle-Trusted_example :
    InBundle (1 ∷ 2 ∷ []) bundle ↔ TrustedIn second_state 2500 (1 ∷ 2 ∷ []) second_state.roots
build_trust_bundle-Trusted_example =
    build_trust_bundle-Trusted toy second_state 2500 bundle (1 ∷ 2 ∷ []) runs.8

validate_state-common_example : second_state.spec.identity.common_name ≡ []
validate_state-common_example = validate_state-common toy toy_scheme same_name second_state runs.9

ensure_change_fails_example :
    (ensure_change toy toy_scheme same_name plain_options late first_store first_state
      (first_manager, no_result)).0
    ≢ ok first_state
ensure_change_fails_example =
    ensure_change_fails toy toy_scheme same_name plain_options late first_store (lit "web-one")
      web_record web_cert root_cert runs.11 runs.12 runs.13 runs.14 first_state first_state
      (first_manager, no_result) runs.15 runs.16 runs.17

update-IsKept_example :
    IsKept toy toy_scheme same_name
      (IsChanged toy toy_scheme same_name
        (ensure_change toy toy_scheme same_name now_options 2000 first_store)
        (first_manager, no_result))
      first_store
      (update toy toy_scheme same_name
        (ensure_change toy toy_scheme same_name now_options 2000 first_store)
        (first_manager, no_result)
        first_store).1.1
update-IsKept_example =
    update-IsKept toy toy_scheme same_name
      (ensure_change toy toy_scheme same_name now_options 2000 first_store)
      (first_manager, no_result) first_store
